-- ===== src/Sources/Queue.antt =====
-- `queue_source_check` and the requests for several sources. Every request is a transaction.
use dealflow_radar.Common.{
  ℕ, suc, String, Option, none, some, Bool, true, false, not, ◌&&◌, ◌||◌, List, [], ◌∷◌, ◌++◌, map,
  any, take, ◌==◌, same_text, if◌then◌else◌, Result, ok, err, ◌>>=◌, ◌>>◌, guard, pick, keep,
  or_else,
}
use dealflow_radar.Sources.Data.{
  Db, User, Source, Run, Trigger, manual, unsupported, queued, Policy, Error, access_denied,
  source_not_found, source_disabled, unsupported_trigger, duplicate_sources, no_enabled_sources,
  is_mine, is_active_of, unordered, no_counts,
}

-- The arguments of `queue_source_check`; `run_id` is the new run's `uuid4`.
pub record Request : Type 0 where
  pub source_id : ℕ
  pub dry_run : Bool
  pub trigger_type : Trigger
  pub scheduled_for : Option ℕ
  pub idempotency_key : Option String

abbrev is_supported : Trigger → Bool
is_supported unsupported = false
is_supported _ = true

-- `_active_run`
unfoldable pub active_run : ℕ → Db → Option Run
active_run k db = pick (is_active_of k) unordered db.runs

run_of_key : Option String → Db → Option Run
run_of_key none db = none
run_of_key (some k) db = pick (λ r. same_text r.idempotency_key k) unordered db.runs

-- The checks that precede a new run, with the source.
unfoldable pub queueable : User → Request → Db → Result Error Source
queueable user q db = do
  guard user.is_platform_admin access_denied
  source ← found (pick (is_mine user q.source_id) unordered db.sources)
  guard source.enabled source_disabled
  guard (is_supported q.trigger_type) unsupported_trigger
  ok source
  where
    found : Option Source → Result Error Source
    found none = err source_not_found
    found (some s) = ok s

unfoldable pub new_run : (ℕ → String) → ℕ → ℕ → User → Policy → Request → Source → Run
new_run run_key run_id now user p q s = record {
  id = run_id;
  tenant_id = user.tenant_id;
  company_id = s.company_id;
  trusted_source_id = s.id;
  requested_by = user.id;
  trigger_type = q.trigger_type;
  scheduled_for = q.scheduled_for;
  status = queued;
  dry_run = q.dry_run;
  idempotency_key = or_else q.idempotency_key (run_key run_id);
  limits = p.limits;
  counts = no_counts;
  error_code = none;
  robots_status = none;
  created_at = now;
  started_at = none;
  finished_at = none;
  leased_until = none;
  heartbeat_at = none;
}

-- An active run of the source, or one under the key, is returned instead of a new one.
unfoldable pub existing_run : Request → Source → Db → Option Run
unfolding active_run run_of_key
existing_run q s db = elim (active_run s.id db) [
  | some r ↦ some r
  | none ↦ run_of_key q.idempotency_key db
]

unfoldable pub add_run : Option Run → Run → Db → Result Error Run × Db
add_run (some old) r db = (ok old, db)
add_run none r db = (ok r, record db { runs = db.runs ++ r ∷ [] })

unfoldable pub queue_found :
    Result Error Source
    → (ℕ → String)
    → ℕ
    → ℕ
    → User
    → Policy
    → Request
    → Db
    → Result Error Run × Db
unfolding add_run
queue_found (err e) run_key run_id now user p q db = (err e, db)
queue_found (ok s) run_key run_id now user p q db =
    add_run (existing_run q s db) (new_run run_key run_id now user p q s) db

-- `queue_source_check`; `run_key` is the digest of `trusted-source-run:<id>`.
unfoldable pub queue_source_check :
    (ℕ → String) → ℕ → ℕ → User → Policy → Request → Db → Result Error Run × Db
unfolding queue_found
queue_source_check run_key run_id now user p q db =
    queue_found (queueable user q db) run_key run_id now user p q db

manual_request : Bool → ℕ → Request
manual_request dry k = record {
  source_id = k;
  dry_run = dry;
  trigger_type = manual;
  scheduled_for = none;
  idempotency_key = none;
}

-- A list comprehension over `queue_source_check`: the first exception ends it, and what was
-- committed stays. `ids` gives the run ids that `uuid4` returns, in order.
unfoldable pub queue_each :
    (ℕ → String)
    → (ℕ → ℕ)
    → ℕ
    → User
    → Policy
    → List Request
    → ℕ
    → Db
    → Result Error (List Run) × Db
queue_each run_key ids now user p [] n db = (ok [], db)
queue_each run_key ids now user p (q ∷ qs) n db =
    let first = queue_source_check run_key (ids n) now user p q db in
    let rest = queue_each run_key ids now user p qs (suc n) first.1 in
    elim first.0 [ err e ↦ (err e, first.1) | ok r ↦ (rest.0 >>= (λ rs. ok (r ∷ rs)), rest.1) ]

has_repeats : List ℕ → Bool
has_repeats [] = false
has_repeats (k ∷ ks) = any (λ j. j == k) ks || has_repeats ks

-- `queue_source_check_batch`
unfoldable pub queue_source_check_batch :
    (ℕ → String) → (ℕ → ℕ) → ℕ → User → Policy → Bool → List ℕ → Db → Result Error (List Run) × Db
unfolding has_repeats manual_request
queue_source_check_batch run_key ids now user p dry ks db =
    if has_repeats ks
    then (err duplicate_sources, db)
    else queue_each run_key ids now user p (map (manual_request dry) ks) 0 db

-- `queue_company_source_checks`: at most ten sources, in the order of their creation, which is the
-- order of the table.
unfoldable pub queue_company_source_checks :
    (ℕ → String) → (ℕ → ℕ) → ℕ → User → Policy → Bool → ℕ → Db → Result Error (List Run) × Db
unfolding manual_request
queue_company_source_checks run_key ids now user p dry company db =
    if not user.is_platform_admin
    then (err access_denied, db)
    else queue_selected (
        take 10 (
          keep (λ s. s.tenant_id == user.tenant_id && s.company_id == company && s.enabled)
            db.sources))
  where
    queue_selected : List Source → Result Error (List Run) × Db
    queue_selected [] = (err no_enabled_sources, db)
    queue_selected (s ∷ ss) =
        queue_each run_key ids now user p (map (λ t. manual_request dry t.id) (s ∷ ss)) 0 db
