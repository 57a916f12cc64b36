-- ===== src/Sources/Review.antt =====
-- `decide_candidate_document`
use dealflow_radar.Common.{
  ℕ, String, Option, none, some, Bool, true, false, ◌&&◌, ◌==◌, if◌then◌else◌, Result, ok, err,
  pick, store_by, find_by,
}
use dealflow_radar.Sources.Data.{
  Db, User, Candidate, Processing, pending, worth_research, irrelevant, duplicate,
  source_unavailable, Error, access_denied, candidate_not_found, already_processed,
  lineage_incomplete, unordered,
}

unfoldable pub same_decision : Processing → Processing → Bool
same_decision pending pending = true
same_decision worth_research worth_research = true
same_decision irrelevant irrelevant = true
same_decision duplicate duplicate = true
same_decision source_unavailable source_unavailable = true
same_decision _ _ = false

abbrev pub is_pending : Processing → Bool
is_pending pending = true
is_pending _ = false

is_worth_research : Processing → Bool
is_worth_research worth_research = true
is_worth_research _ = false

unfoldable pub has_source : ℕ → Db → Bool
has_source k db = elim (find_by (λ s. s.id) k db.sources) [ none ↦ false | some s ↦ true ]

-- The candidate with the decision; the stripped reason is the argument.
unfoldable pub decided : User → Processing → String → ℕ → Candidate → Candidate
unfolding is_worth_research
decided user decision reason now c = record c {
  processing_status = decision;
  processed_by = some user.id;
  processed_at = some now;
  decision_reason = some reason;
  handed_off = if is_worth_research decision then true else c.handed_off;
}

unfoldable pub decide_row :
    User
    → (ℕ → Bool)
    → Processing
    → String
    → ℕ
    → Db
    → Option Candidate
    → Result Error Candidate × Db
unfolding same_decision has_source
decide_row user company_known decision reason now db none = (err candidate_not_found, db)
decide_row user company_known decision reason now db (some c) =
    if is_pending c.processing_status
    then (if company_known c.company_id && has_source c.trusted_source_id db
        then (
          ok (decided user decision reason now c),
          record db {
            candidates = store_by (λ x. x.id) (decided user decision reason now c) db.candidates;
          },
        )
        else (err lineage_incomplete, db))
    else if same_decision c.processing_status decision
    then (ok c, db)
    else (err already_processed, db)

unfoldable pub decide_candidate_document :
    User → (ℕ → Bool) → ℕ → Processing → String → ℕ → Db → Result Error Candidate × Db
unfolding decide_row
decide_candidate_document user company_known k decision reason now db =
    if user.is_platform_admin
    then decide_row user company_known decision reason now db
        (pick (λ c. c.id == k && c.tenant_id == user.tenant_id) unordered db.candidates)
    else (err access_denied, db)
