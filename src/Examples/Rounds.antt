-- ===== src/Examples/Rounds.antt =====
-- Rounds of research on a company: four that follow the plan, and one whose topic was read in full.
use Prim.Native.String.{◌∷◌ as char_cons, count as chars, char_at}
use Prim.Native.String.count.{cons}
use dealflow_radar.Common.{
  ℕ, zero, suc, ◌+◌, ◌≡◌, ◌↔◌, refl, ap, ◌∙◌, ◌⊎◌, String, some, none, true, false, List, [], ◌∷◌,
  All, any, count, arith, sort_by, insert_by, pick, prefer, keep,
}
use dealflow_radar.Research.Data.{
  Texts, GroupState, Document, Candidate, Coverage, topics, is_in, is_any_of, in_categories,
  checked_document, directory_page, eligible_document, is_stored, planned, same_option,
}
use dealflow_radar.Research.Plan.{
  attempts, attempts_topic, last_attempt, no_later, attempt_order, groups, zip, plan_topics,
}
use dealflow_radar.Research.Rotation.{Follows, every_topic_attempted}
use dealflow_radar.Research.Candidates.{is_next, start, rotate}
use dealflow_radar.Research.Reading.{rotate_ends}
use dealflow_radar.Research.Completion.{
  completed, row, later_of, row_from, settled, is_completed, outcome, network_failed, records,
  entry, is_entry, is_waiting, is_successful, no_documents, is_related, after_search, body_or,
  checked_of, code_of, first_error, has_kind, is_deferred_route, is_failed, is_relevant, is_routed,
  is_unfinished, oldest, outcome_of, skipped, unread, instant_of, latest, stored_check,
}
use dealflow_radar.Research.Checks.{topic_check, previous_successful_checks}
use dealflow_radar.Research.Checked.{
  NoLater, IsOldest, IsChecked, row-completed, previous_checks_read, row_keeps_checks,
}

abbrev attempted_group : String → GroupState
attempted_group category = record {
  code = "business_capital";
  status = some "completed";
  providers = record { status = some "completed"; reason = none } ∷ [];
  topic_category = some category;
  topic_intent = none;
  coverage_scope = some "bounded_category";
  attempted_at = some "xx";
  checked_at = some "xxx";
  subject_results = 1;
}

abbrev round : List GroupState → List Document → List Candidate → Coverage
round groups documents candidates = record {
  search_groups = groups;
  documents = documents;
  candidates = candidates;
  deferred_candidates = [];
  source_routes = [];
  network_preflight = none;
  query_strategy_version = some "topic-research-v1";
  research_scope = "bounded_full_scope_refresh";
  stop_reason = none;
  previous_successful_checks = [];
}

abbrev of_topics : String → String → Coverage
of_topics a b = round (attempted_group a ∷ attempted_group b ∷ []) [] []

abbrev four_rounds : List Coverage
four_rounds =
    of_topics "financing_cap_table" "exit_liquidity"
    ∷ of_topics "legal_compliance" "financial_operation"
    ∷ of_topics "contract_commercial" "product_technology"
    ∷ of_topics "governance_people" "capacity_assets"
    ∷ []

follow_plan : Follows [] four_rounds
unfolding Follows attempts attempts_topic last_attempt no_later attempt_order zip plan_topics
    sort_by insert_by
follow_plan =
    ((refl, (refl, tt)), ((refl, (refl, tt)), ((refl, (refl, tt)), ((refl, (refl, tt)), tt))))

every_topic_attempted_example : All (λ c. any (attempts c) four_rounds ≡ true) topics
every_topic_attempted_example = every_topic_attempted [] four_rounds follow_plan (omega arith)

-- An instant is written by so many letters.
letters : ℕ → String
letters zero = ""
letters (suc n) = char_cons (char_at "x" 0) (letters n)

chars-letters : (t : ℕ) → chars (letters t) ≡ t
unfolding letters
chars-letters zero = refl
chars-letters (suc n) = cons (char_at "x" 0) (letters n) ∙ ap suc (chars-letters n)

letters_read : (t : ℕ) → some (chars (letters t)) ≡ some t
letters_read t = ap some (chars-letters t)

abbrev texts : Texts
texts = record {
  instant = λ s. some (chars s);
  isoformat = letters;
  path = λ u. u;
  leaf = λ p. p;
  signature = λ t. t;
}

abbrev page : String → String → Candidate
page url title = record {
  url = url;
  title = title;
  coverage_category = some "financing_cap_table";
  query_kind = none;
  query_kinds = none;
  identity_pending = false;
  scheduling_reason = none;
}

abbrev pages : List Candidate
pages =
    page "news" "list of all the news"
    ∷ page "round-b" "a round of financing"
    ∷ page "copy" "a round of financing"
    ∷ []

rotate_ends_example :
    ((extra : ℕ)
      → rotate (3 + extra) texts ("financing_cap_table" ∷ []) (start texts pages)
        ≡ rotate 3 texts ("financing_cap_table" ∷ []) (start texts pages))
    × All
        (λ k.
          All
            (λ c. is_next texts k c ≡ false)
            (rotate 3 texts ("financing_cap_table" ∷ []) (start texts pages)).remaining)
        ("financing_cap_table" ∷ [])
rotate_ends_example = rotate_ends texts pages ("financing_cap_table" ∷ [])

abbrev read_document : Document
read_document = record {
  url = "round-b";
  status = "created";
  coverage_category = some "financing_cap_table";
  matter_categories = [];
  searched_topics = [];
  disposition = none;
  quality_gate = some "eligible";
  error_code = none;
  attempted_at = some "xx";
  checked_at = some "xxxx";
}

abbrev read_round : Coverage
read_round =
    round (attempted_group "financing_cap_table" ∷ []) (read_document ∷ [])
      (page "round-b" "b" ∷ [])

is_completed_row : (row texts read_round "financing_cap_table").status ≡ completed
unfolding row row_from settled is_completed outcome network_failed records entry pick is_entry
    is_waiting is_successful is_any_of is_in no_documents keep is_related in_categories prefer
    after_search body_or checked_of code_of first_error has_kind instant_of is_deferred_route
    is_failed is_relevant is_routed is_unfinished oldest outcome_of skipped unread checked_document
    directory_page eligible_document is_stored planned same_option
is_completed_row = refl

row-completed_example : ((row texts read_round "financing_cap_table").status ≡ completed) ↔ (
    IsChecked texts read_round "financing_cap_table"
      (records texts read_round "financing_cap_table")
    × ((s : ℕ) × IsOldest texts (records texts read_round "financing_cap_table") s
        × ((row texts read_round "financing_cap_table").last_successful_check_at
            ≡ later_of (some s) (
                latest texts (
                  stored_check "financing_cap_table" read_round.previous_successful_checks ∷ [])))))
row-completed_example = row-completed texts read_round "financing_cap_table"

previous_checks_read_example :
    All
      (λ k.
        latest texts (stored_check k (previous_successful_checks texts (read_round ∷ [])) ∷ [])
        ≡ topic_check texts k (read_round ∷ []))
      topics
previous_checks_read_example = previous_checks_read texts (read_round ∷ []) letters_read

abbrev next_round : Coverage
next_round = record (round [] [] []) {
  previous_successful_checks = previous_successful_checks texts (read_round ∷ []);
}

row_keeps_checks_example :
    All
      (λ k.
        NoLater
          (topic_check texts k (read_round ∷ []))
          (row texts next_round k).last_successful_check_at
        × (((row texts next_round k).status ≡ completed)
            ⊎ ((row texts next_round k).last_successful_check_at
                ≡ topic_check texts k (read_round ∷ []))))
      topics
row_keeps_checks_example = row_keeps_checks texts next_round (read_round ∷ []) letters_read refl
