-- ===== src/Watch/Data.antt =====
-- The schedule of a watched company, the research jobs, and the policy. Times are in microseconds;
-- ids stand for UUIDs, and their order for the order of the texts of the UUIDs.
use dealflow_radar.Common.{
  ℕ, ◌*◌, ◌^◌, ◌/◌, ◌≤◌, min, max, String, Option, none, some, Bool, true, false, List, same_text,
}
use dealflow_radar.Budget.Reconcile.{
  JobStatus, queued, running, partial, completed, failed, cancelled, budget_deferred,
}

-- `WatchlistMonitorPolicy`
pub record Policy : Type 0 where
  pub enabled : Bool
  pub version : String
  pub interval_days : ℕ
  pub max_companies_per_run : ℕ
  pub cooldown_hours : ℕ
  pub failure_backoff_max_days : ℕ
  pub no_change_backoff_after : ℕ
  pub max_interval_days : ℕ

-- `__post_init__`, without the version's text.
abbrev pub IsValid : Policy → Type 0
IsValid p =
    (1 ≤ p.interval_days)
    × (1 ≤ p.max_companies_per_run)
    × (1 ≤ p.cooldown_hours)
    × (1 ≤ p.failure_backoff_max_days)
    × (1 ≤ p.no_change_backoff_after)
    × (1 ≤ p.max_interval_days)
    × (p.interval_days ≤ p.max_interval_days)

-- `f"{job.id}:{job.status}:{heartbeat}"`, by its parts.
pub record OutcomeKey : Type 0 where
  pub job_id : ℕ
  pub status : JobStatus
  pub heartbeat : Option ℕ

-- `CompanyWatchSchedule`
pub record Schedule : Type 0 where
  pub company_id : ℕ
  pub policy_version : String
  pub next_check_at : ℕ
  pub cooldown_until : Option ℕ
  pub last_attempt_at : Option ℕ
  pub last_successful_check_at : Option ℕ
  pub last_job_id : Option ℕ
  pub last_outcome_key : Option OutcomeKey
  pub last_outcome : String
  pub consecutive_failures : ℕ
  pub consecutive_no_change_runs : ℕ

-- A row of `completion_projection(coverage)["categories"]` in the categories of the group.
pub record CategoryRow : Type 0 where
  pub is_completed : Bool
  pub last_successful_check_at : Option ℕ

-- `coverage["watchlist_monitor"]`
pub record Monitor : Type 0 where
  pub scheduled_for : ℕ
  pub interval_days : ℕ

-- `CompanyResearchJob`, with the parts of its coverage that the schedule reads and writes.
pub record Job : Type 0 where
  pub id : ℕ
  pub company_id : ℕ
  pub status : JobStatus
  pub heartbeat_at : Option ℕ
  pub rows : List CategoryRow
  pub candidate_index : ℕ
  pub candidate_count : ℕ
  pub stop_reason : Option String
  pub semantic_before : Option String
  pub semantic_after : Option String
  pub business_change : Option String
  pub monitor : Option Monitor

-- `len(CATEGORIES)`
abbrev pub category_count : ℕ
category_count = 3

-- `ACTIVE`
unfoldable pub is_active : JobStatus → Bool
is_active queued = true
is_active running = true
is_active partial = true
is_active budget_deferred = true
is_active completed = false
is_active failed = false
is_active cancelled = false

-- The text of a status, as the tables hold it.
unfoldable pub status_text : JobStatus → String
status_text queued = "queued"
status_text running = "running"
status_text partial = "partial"
status_text budget_deferred = "budget_deferred"
status_text completed = "completed"
status_text failed = "failed"
status_text cancelled = "cancelled"

unfoldable pub same_status : JobStatus → JobStatus → Bool
same_status a b = same_text (status_text a) (status_text b)

unfoldable pub cooled : Option ℕ → ℕ → ℕ
cooled none t = t
cooled (some c) t = max t c

-- `due_at`
unfoldable pub due_at : Option Schedule → ℕ → ℕ
unfolding cooled
due_at none followed_at = followed_at
due_at (some s) followed_at = cooled s.cooldown_until (max followed_at s.next_check_at)

-- `interval_days`
unfoldable pub interval_days : Policy → ℕ → ℕ
interval_days p no_change_runs =
    min (p.interval_days * 2 ^ min (no_change_runs / p.no_change_backoff_after) 8)
      p.max_interval_days
