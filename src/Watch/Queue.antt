-- ===== src/Watch/Queue.antt =====
-- `queue_due_watch_checks` and `monitoring_summary`. `targets` and the companies that exist are
-- arguments; the preview of costs and the fixed fields of the report are left out.
use dealflow_radar.Common.{
  ℕ, ◌+◌, ◌-◌, max, String, Option, none, some, Bool, false, not, ◌&&◌, ◌||◌, List, [], ◌∷◌, ◌++◌,
  map, any, length, take, ◌==◌, leb, ltb, if◌then◌else◌, keep, sort_by, pick, find_by, store_by,
  or_else,
}
use dealflow_radar.Budget.Reconcile.{JobStatus, queued, budget_deferred}
use dealflow_radar.Watch.Data.{Policy, Schedule, Job, is_active, due_at, interval_days}

pub record Db : Type 0 where
  pub schedules : List Schedule
  pub jobs : List Job
  pub next_id : ℕ

-- A target of `targets`: a company and the first time that it was followed.
pub record Target : Type 0 where
  pub company_id : ℕ
  pub followed_at : ℕ

pub record Report : Type 0 where
  pub due_count : ℕ
  pub queued_count : ℕ
  pub merged_count : ℕ
  pub deferred_count : ℕ
  pub company_ids : List ℕ

-- `session.get(CompanyWatchSchedule, company_id)`
unfoldable pub find_schedule : ℕ → Db → Option Schedule
find_schedule k db = find_by (λ s. s.company_id) k db.schedules

abbrev pub is_active_job : ℕ → Job → Bool
is_active_job k j = j.company_id == k && is_active j.status

unfoldable pub active_job : ℕ → Db → Option Job
active_job k db = pick (is_active_job k) (λ x y. false) db.jobs

unfoldable pub target_due : Db → Target → ℕ
target_due db t = due_at (find_schedule t.company_id db) t.followed_at

unfoldable pub due_order : Db → Target → Target → Bool
due_order db a b =
    ltb (target_due db a) (target_due db b)
    || ((target_due db a == target_due db b) && leb a.company_id b.company_id)

unfoldable pub due_targets : ℕ → List Target → Db → List Target
due_targets now targets db = sort_by (due_order db) (keep (λ t. leb (target_due db t) now) targets)

unfoldable pub selected : Policy → ℕ → List Target → Db → List Target
selected p now targets db = take p.max_companies_per_run (due_targets now targets db)

unfoldable pub new_schedule : Policy → Target → Schedule
new_schedule p t = record {
  company_id = t.company_id;
  policy_version = p.version;
  next_check_at = t.followed_at;
  cooldown_until = none;
  last_attempt_at = none;
  last_successful_check_at = none;
  last_job_id = none;
  last_outcome_key = none;
  last_outcome = "never_checked";
  consecutive_failures = 0;
  consecutive_no_change_runs = 0;
}

unfoldable pub ensure_schedule : Policy → Target → Option Schedule → Db → Db
ensure_schedule p t (some s) db = db
ensure_schedule p t none db = record db { schedules = db.schedules ++ new_schedule p t ∷ [] }

-- The job of a target; `version` is `company_semantic_version` of the company.
unfoldable pub new_job : Policy → (ℕ → String) → Target → Schedule → ℕ → Job
new_job p version t s id = record {
  id = id;
  company_id = t.company_id;
  status = queued;
  heartbeat_at = none;
  rows = [];
  candidate_index = 0;
  candidate_count = 0;
  stop_reason = none;
  semantic_before = some (version t.company_id);
  semantic_after = none;
  business_change = none;
  monitor = some (record {
    scheduled_for = due_at (some s) t.followed_at;
    interval_days = interval_days p s.consecutive_no_change_runs;
  });
}

unfoldable pub store_schedule : Schedule → Db → Db
store_schedule s db = record db { schedules = store_by (λ x. x.company_id) s db.schedules }

-- A job that is active takes the check over; otherwise there is a new job.
unfoldable pub enqueue :
    Option Job → Policy → (ℕ → String) → Target → Schedule → Db × Report → Db × Report
enqueue (some j) p version t s (db, r) = (
  store_schedule (record s { last_job_id = some j.id; last_outcome = "queued" }) db,
  record r { merged_count = r.merged_count + 1 },
)
enqueue none p version t s (db, r) = (
  record (store_schedule
      (record s {
        last_job_id = some db.next_id;
        last_outcome = "queued";
        policy_version = p.version;
      })
      db) { jobs = db.jobs ++ new_job p version t s db.next_id ∷ []; next_id = db.next_id + 1 },
  record r { queued_count = r.queued_count + 1 },
)

-- One turn of the loop over the selected companies.
unfoldable pub queue_target :
    Policy → (ℕ → String) → (ℕ → Bool) → ℕ → List Target → Target → Db × Report → Db × Report
unfolding enqueue ensure_schedule new_schedule
queue_target p version company_exists now targets t (db, r) =
    if not (company_exists t.company_id) || not (any (λ x. x.company_id == t.company_id) targets)
    then (db, r)
    else if ltb now (target_due db t)
    then (db, r)
    else enqueue (active_job t.company_id db) p version t
        (or_else (find_schedule t.company_id db) (new_schedule p t))
        (ensure_schedule p t (find_schedule t.company_id db) db, r)

unfoldable pub queue_targets :
    Policy → (ℕ → String) → (ℕ → Bool) → ℕ → List Target → List Target → Db × Report → Db × Report
queue_targets p version company_exists now targets [] x = x
queue_targets p version company_exists now targets (t ∷ ts) x =
    queue_targets p version company_exists now targets ts
      (queue_target p version company_exists now targets t x)

unfoldable pub first_report : Policy → ℕ → List Target → Db → Report
first_report p now targets db = record {
  due_count = length (due_targets now targets db);
  queued_count = 0;
  merged_count = 0;
  deferred_count = length (due_targets now targets db) - length (selected p now targets db);
  company_ids = map (λ t. t.company_id) (selected p now targets db);
}

pub data Answer : Type 0 where
  denied disabled : Answer
  dry_run completed : Report → Answer

unfoldable pub answered : Db × Report → Answer × Db
answered (db, r) = (completed r, db)

-- `queue_due_watch_checks`; `admin` is the answer of `_admin`.
unfoldable pub queue_due_watch_checks :
    Bool → Bool → Policy → (ℕ → String) → (ℕ → Bool) → ℕ → List Target → Db → Answer × Db
unfolding answered
queue_due_watch_checks admin dry p version company_exists now targets db =
    if not admin
    then (denied, db)
    else if not dry && not p.enabled
    then (disabled, db)
    else if dry
    then (dry_run (first_report p now targets db), db)
    else answered (
        queue_targets p version company_exists now targets (selected p now targets db)
          (db, first_report p now targets db))

-- `WatchlistMonitorOut`
pub record Shown : Type 0 where
  pub status : String
  pub last_attempt_at : Option ℕ
  pub last_successful_check_at : Option ℕ
  pub next_check_at : Option ℕ

unfoldable pub bare : String → Shown
bare status = record {
  status = status;
  last_attempt_at = none;
  last_successful_check_at = none;
  next_check_at = none;
}

unfoldable pub shown_status : Option Job → String → String
shown_status none outcome = outcome
shown_status (some j) outcome = if is_active j.status then active_status j.status else outcome
  where
    active_status : JobStatus → String
    active_status budget_deferred = "budget_deferred"
    active_status _ = "checking"

unfoldable pub job_of : Option ℕ → Db → Option Job
job_of none db = none
job_of (some k) db = find_by (λ j. j.id) k db.jobs

unfoldable pub shown_schedule : Option Schedule → Db → Shown
unfolding bare shown_status job_of
shown_schedule none db = bare "not_scheduled"
shown_schedule (some s) db = record {
  status = shown_status (job_of s.last_job_id db) s.last_outcome;
  last_attempt_at = s.last_attempt_at;
  last_successful_check_at = s.last_successful_check_at;
  next_check_at = some (max s.next_check_at (or_else s.cooldown_until s.next_check_at));
}

-- `monitoring_summary`
unfoldable pub monitoring_summary : Option Policy → ℕ → Db → Shown
unfolding shown_schedule bare
monitoring_summary none k db = bare "disabled"
monitoring_summary (some p) k db =
    if p.enabled then shown_schedule (find_schedule k db) db else bare "disabled"
