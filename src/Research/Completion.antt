-- ===== src/Research/Completion.antt =====
-- `completion_projection` and `stored_completion` of backend/app/research_completion.py: what a round
-- has checked of each topic, from what it recorded.
use dealflow_radar.Common.{
  ℕ, String, Option, none, some, Bool, true, false, not, ◌&&◌, ◌||◌, List, [], ◌∷◌, map, any, all,
  min, max, ltb, is_none, is_text, is_given, or_else, same_text, if◌then◌else◌, keep, pick,
}
use dealflow_radar.Research.Data.{
  Texts, ProviderState, GroupState, Document, Candidate, Route, Coverage, topics, is_in, is_any_of,
  same_option, planned, directory_page, in_categories, checked_document,
}

pub data RowStatus : Type 0 where
  completed partial failed not_run budget_deferred : RowStatus

pub data Overall : Type 0 where
  complete some_partial all_failed none_run : Overall

-- A row of `completion_projection(coverage)["categories"]`
pub record Row : Type 0 where
  pub category : String
  pub is_planned : Bool
  pub status : RowStatus
  pub last_attempt_at : Option ℕ
  pub last_successful_check_at : Option ℕ
  pub failure_class : Option String
  pub acquisition : String

-- What the records of one topic say: the group of its search and its code, the addresses of the
-- candidates, and the documents, all of them and those that were read.
pub record Records : Type 0 where
  pub is_planned : Bool
  pub group : GroupState
  pub urls : List String
  pub docs : List Document
  pub readable : List Document

pub record Outcome : Type 0 where
  pub status : RowStatus
  pub failure : Option String
  pub acquisition : String

-- `_latest`
unfoldable pub instant_of : Texts → Option String → Option ℕ
instant_of x none = none
instant_of x (some t) = x.instant t

unfoldable pub later_of : Option ℕ → Option ℕ → Option ℕ
later_of none b = b
later_of (some a) none = some a
later_of (some a) (some b) = some (max a b)

unfoldable pub latest : Texts → List (Option String) → Option ℕ
latest x [] = none
latest x (v ∷ vs) = later_of (instant_of x v) (latest x vs)

-- `SEARCH_GROUP_MODULES.get(code, ())`
unfoldable pub search_group_modules : String → List String
search_group_modules code =
    if same_text code "business_capital"
    then "financial_operation" ∷ "financing_cap_table" ∷ "contract_commercial" ∷ []
    else if same_text code "technology_risk_exit"
    then "product_technology" ∷ "governance_people" ∷ "legal_compliance" ∷ "capacity_assets"
      ∷ "exit_liquidity" ∷ []
    else []

abbrev pub successful_searches : List String
successful_searches = "completed" ∷ "cache_hit" ∷ "cache_fused" ∷ []

-- `NETWORK_FAILURES` and the address failures of `public_failure_class`
abbrev pub network_codes : List String
network_codes =
    "execution_environment_non_public_dns" ∷ "dns_resolution_failed" ∷ "mixed_public_private_dns"
    ∷ "peer_verification_failed" ∷ "dns_rebinding_detected" ∷ "https_unreachable"
    ∷ "tls_verification_failed" ∷ "blocked_network" ∷ "blocked_address" ∷ "peer_address_unavailable"
    ∷ []

abbrev pub access_codes : List String
access_codes = "authentication_required" ∷ "access_controlled" ∷ "captcha_required" ∷ []

abbrev pub dynamic_codes : List String
dynamic_codes = "dynamic_rendering_required" ∷ "static_body_missing" ∷ []

abbrev pub budget_codes : List String
budget_codes =
    "web_research_budget_deferred" ∷ "http_limit_reached" ∷ "byte_limit_reached"
    ∷ "document_limit_reached" ∷ "max_elapsed_seconds_reached" ∷ "model_budget_exhausted"
    ∷ "request_limit_exceeded" ∷ "run_byte_limit_exceeded" ∷ "execution_time_limit_reached" ∷ []

-- `public_failure_class`
unfoldable pub public_failure_class : Option String → Option String
public_failure_class code =
    if is_any_of network_codes code
    then some "network_environment_blocked"
    else if is_text "robots_disallowed" code
    then some "robots_denied"
    else if is_any_of access_codes code
    then some "access_controlled"
    else if is_text "rate_limited" code
    then some "rate_limited"
    else if is_any_of dynamic_codes code
    then some "dynamic_content_unavailable"
    else if is_any_of budget_codes code
    then some "budget_deferred"
    else if is_given code
    then some "source_unreachable"
    else none

unfoldable pub network_failed : Coverage → Bool
network_failed c = elim c.network_preflight [
  | none ↦ false
  | some s ↦ not (same_text s "research_network_ready")
]

-- `routes.get(category)`
unfoldable pub route_of : String → List Route → Option Route
route_of category rs = pick (λ r. same_text r.category category) (λ a b. false) rs

-- Whether a group is a category's by the routes of a round without a plan.
unfoldable pub is_routed : String → List Route → String → Bool
is_routed category [] code = is_in (search_group_modules code) category
is_routed category (r ∷ rs) code = elim (route_of category (r ∷ rs)) [
  | none ↦ false
  | some t ↦ t.is_configured && is_text code t.search_group
]

unfoldable pub is_entry : Coverage → String → GroupState → Bool
is_entry c category g =
    is_text category g.topic_category
    || not (planned c) && is_routed category c.source_routes g.code

-- `entries[0]`
unfoldable pub entry : Coverage → String → Option GroupState
entry c category = pick (is_entry c category) (λ a b. false) c.search_groups

-- `{}`
unfoldable pub no_group : GroupState
no_group = record {
  code = "";
  status = none;
  providers = [];
  topic_category = none;
  topic_intent = none;
  coverage_scope = none;
  attempted_at = none;
  checked_at = none;
  subject_results = 0;
}

unfoldable pub code_of : Option GroupState → Option String
code_of none = none
code_of (some g) = some g.code

-- `group_code in c.get("query_kinds", [c.get("query_kind")])`
unfoldable pub has_kind : Option String → Candidate → Bool
has_kind code c = elim c.query_kinds [
  | none ↦ same_option code c.query_kind
  | some ks ↦ is_any_of ks code
]

unfoldable pub is_relevant : Texts → String → Option String → Candidate → Bool
is_relevant x category code c =
    (is_text category c.coverage_category || has_kind code c) && not (directory_page x c.url)

unfoldable pub is_related : String → List String → Document → Bool
is_related category urls d =
    in_categories category d || is_in d.searched_topics category || is_in urls d.url

unfoldable pub records : Texts → Coverage → String → Records
records x c category =
    let found = entry c category in
    let urls = map (λ a. a.url) (keep (is_relevant x category (code_of found)) c.candidates) in
    let docs = keep (is_related category urls) c.documents in
    record {
      is_planned = not (is_none found);
      group = or_else found no_group;
      urls = urls;
      docs = docs;
      readable = keep checked_document docs;
    }

unfoldable pub is_successful : ProviderState → Bool
is_successful s = is_any_of successful_searches s.status

unfoldable pub is_failed : Document → Bool
is_failed d = same_text d.status "failed"

unfoldable pub is_deferred_route : ProviderState → Bool
is_deferred_route s = is_text "budget_deferred" s.status

unfoldable pub is_unfinished : ProviderState → Bool
is_unfinished s =
    is_deferred_route s
    || is_text "failed" s.status
      && is_any_of ("primary_failed" ∷ "insufficient_qualified_subject_results" ∷ []) s.reason

-- `skipped`
unfoldable pub skipped : Coverage → String → Bool
skipped c category = any (λ a. is_text category a.coverage_category) c.deferred_candidates

-- `unread`
unfoldable pub unread : Records → Bool
unread r = any (λ u. not (is_in (map (λ d. d.url) r.readable) u)) r.urls

abbrev pub limit_stops : List String
limit_stops =
    "http_limit_reached" ∷ "byte_limit_reached" ∷ "document_limit_reached"
    ∷ "max_elapsed_seconds_reached" ∷ []

unfoldable pub is_waiting : Option String → Bool
is_waiting none = true
is_waiting (some s) = same_text s "pending" || same_text s "not_run"

unfoldable pub no_documents : List Document → Bool
no_documents [] = true
no_documents (d ∷ ds) = false

unfoldable pub first_error : List Document → Option String
first_error [] = none
first_error (d ∷ ds) = d.error_code

-- `"body_obtained" if readable else ...`
unfoldable pub body_or : String → Records → String
body_or other r = if no_documents r.readable then other else "body_obtained"

unfoldable pub outcome_of : RowStatus → Option String → String → Outcome
outcome_of s f a = record { status = s; failure = f; acquisition = a }

-- The branches from `elif unfinished_routes` on: of a search that succeeded, without a failed document.
unfoldable pub after_search : Coverage → String → Records → Outcome
after_search c category r =
    if any is_unfinished r.group.providers
    then outcome_of partial
        (some (
          if any is_deferred_route r.group.providers
          then "budget_deferred"
          else "source_unreachable"))
        (body_or "search_only" r)
    else if unread r
        || skipped c category
        || ltb 0 r.group.subject_results && no_documents r.readable
    then outcome_of partial
        (some (
          if is_any_of limit_stops c.stop_reason || skipped c category
          then "budget_deferred"
          else "not_checked"))
        (body_or "search_only" r)
    else if is_text "intent_only" r.group.coverage_scope
    then outcome_of partial (some "not_checked") (body_or "no_qualified_results" r)
    else outcome_of completed none (body_or "no_qualified_results" r)

-- `status, failure, acquisition`
unfoldable pub outcome : Coverage → String → Records → Outcome
outcome c category r =
    let failures = keep is_failed r.docs in
    if network_failed c && not (is_given r.group.attempted_at)
    then outcome_of not_run (some "network_environment_blocked") "not_attempted"
    else if is_text "budget_deferred" r.group.status
    then outcome_of budget_deferred (some "budget_deferred") "not_attempted"
    else if not r.is_planned || is_waiting r.group.status
    then outcome_of not_run (some "not_checked") "not_attempted"
    else if not (any is_successful r.group.providers)
    then outcome_of failed (some "source_unreachable") "search_only"
    else if not (no_documents failures)
    then outcome_of (if no_documents r.readable then failed else partial)
        (public_failure_class (first_error failures)) "body_unavailable"
    else after_search c category r

unfoldable pub is_completed : RowStatus → Bool
is_completed completed = true
is_completed _ = false

-- `times`: the times of the documents, where each has one.
unfoldable pub oldest : Texts → ℕ → List Document → Option ℕ
oldest x t [] = some t
oldest x t (d ∷ ds) = elim (instant_of x d.checked_at) [
  | none ↦ none
  | some u ↦ oldest x (min t u) ds
]

-- `checked`: the time of the search, or of the oldest document that was read.
unfoldable pub checked_of : Texts → Records → Option ℕ
checked_of x r = elim (instant_of x r.group.checked_at) [
  | none ↦ none
  | some t ↦ oldest x t r.readable
]

-- The end of the row: `checked`, if the status stays "completed", and the outcome.
unfoldable pub settled : Outcome → Option ℕ → Outcome × Option ℕ
settled o checked =
    if is_completed o.status
    then elim checked [
      | none ↦ (outcome_of partial (some "not_checked") o.acquisition, none)
      | some t ↦ (o, some t)
    ]
    else (o, none)

-- `coverage.get("previous_successful_checks", {}).get(category)`
unfoldable pub stored_check : String → List (String × String) → Option String
stored_check category [] = none
stored_check category (p ∷ ps) =
    if same_text p.0 category then some p.1 else stored_check category ps

unfoldable pub row_from : Texts → Coverage → String → Records → Outcome × Option ℕ → Row
row_from x c category r (o, checked) = record {
  category = category;
  is_planned = r.is_planned;
  status = o.status;
  last_attempt_at = latest x (r.group.attempted_at ∷ map (λ d. d.attempted_at) r.docs);
  last_successful_check_at =
      later_of checked (latest x (stored_check category c.previous_successful_checks ∷ []));
  failure_class = o.failure;
  acquisition = o.acquisition;
}

-- The body of the loop over the topics.
unfoldable pub row : Texts → Coverage → String → Row
row x c category =
    let r = records x c category in
    row_from x c category r (settled (outcome c category r) (checked_of x r))

unfoldable pub rows : Texts → Coverage → List Row
rows x c = map (row x c) topics

unfoldable pub is_not_run : RowStatus → Bool
is_not_run not_run = true
is_not_run _ = false

unfoldable pub is_failed_row : RowStatus → Bool
is_failed_row failed = true
is_failed_row not_run = true
is_failed_row _ = false

unfoldable pub overall : List Row → Overall
overall rs =
    if all (λ r. is_completed r.status) rs
    then complete
    else if all (λ r. is_not_run r.status) rs
    then none_run
    else if all (λ r. is_failed_row r.status) rs
    then all_failed
    else some_partial

unfoldable pub has_created : Document → Bool
has_created d = same_text d.status "created" || same_text d.status "reused"

-- A round whose rows say that nothing was run may have processed documents without a plan.
unfoldable pub recorded : Coverage → Overall → Overall
recorded c none_run =
    if network_failed c
    then none_run
    else if any has_created c.documents
    then some_partial
    else if any is_failed c.documents || is_given c.stop_reason
    then all_failed
    else none_run
recorded c o = o

-- `completion_projection`
pub record Completion : Type 0 where
  pub scope : String
  pub status : Overall
  pub network_preflight_failed : Bool
  pub categories : List Row

unfoldable pub completion_projection : Texts → Coverage → Completion
completion_projection x c = record {
  scope = c.research_scope;
  status = recorded c (overall (rows x c));
  network_preflight_failed = network_failed c;
  categories = rows x c;
}
