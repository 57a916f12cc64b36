-- ===== src/Examples/Watches.antt =====
-- A watched company, a job of it that failed, and a pass of the scheduler.
use dealflow_radar.Common.{ℕ, ◌*◌, ◌≡◌, refl, ◌⊎◌, String, none, some, Bool, true, [], ◌∷◌, arith}
use dealflow_radar.Common.Calendar.{hour}
use dealflow_radar.Budget.Reconcile.{failed}
use dealflow_radar.Watch.Data.{Policy, IsValid, Schedule, Job}
use dealflow_radar.Watch.Queue.{Db, Target}
use dealflow_radar.Watch.Outcome.{is_final, is_key, success, record_outcome}
use dealflow_radar.Watch.Replay.{record_outcome_once}
use dealflow_radar.Watch.Waits.{Backed, Renewed, record_outcome_waits}

abbrev policy : Policy
policy = record {
  enabled = true;
  version = "watchlist-v1";
  interval_days = 7;
  max_companies_per_run = 5;
  cooldown_hours = 24;
  failure_backoff_max_days = 30;
  no_change_backoff_after = 3;
  max_interval_days = 30;
}

policy-IsValid : IsValid policy
policy-IsValid =
    (omega arith, omega arith, omega arith, omega arith, omega arith, omega arith, omega arith)

abbrev schedule : Schedule
schedule = record {
  company_id = 4;
  policy_version = "watchlist-v1";
  next_check_at = 0;
  cooldown_until = none;
  last_attempt_at = none;
  last_successful_check_at = none;
  last_job_id = some 1;
  last_outcome_key = none;
  last_outcome = "queued";
  consecutive_failures = 1;
  consecutive_no_change_runs = 0;
}

abbrev job : Job
job = record {
  id = 1;
  company_id = 4;
  status = failed;
  heartbeat_at = some hour;
  rows = [];
  candidate_index = 0;
  candidate_count = 0;
  stop_reason = none;
  semantic_before = none;
  semantic_after = none;
  business_change = none;
  monitor = none;
}

record_outcome_once_example :
    (record_outcome policy
      (3 * hour)
      "b"
      job
      (record_outcome policy (2 * hour) "a" job schedule).0).0
    ≡ (record_outcome policy (2 * hour) "a" job schedule).0
record_outcome_once_example =
    record_outcome_once policy policy (2 * hour) (3 * hour) "a" "b" job schedule

record_outcome_waits_example :
    ((success job ≡ none)
      × Backed policy (2 * hour) schedule (record_outcome policy (2 * hour) "a" job schedule).0)
    ⊎ ((t : ℕ) × (success job ≡ some t)
        × Renewed policy (2 * hour) t (record_outcome policy (2 * hour) "a" job schedule).0)
record_outcome_waits_example =
    record_outcome_waits policy (2 * hour) "a" job schedule policy-IsValid (unfold is_final in refl)
      (unfold is_key in refl)

abbrev target : Target
target = record { company_id = 5; followed_at = 0 }

abbrev db : Db
db = record { schedules = schedule ∷ []; jobs = []; next_id = 2 }

abbrev version : ℕ → String
version k = "v"

abbrev present : ℕ → Bool
present k = true
