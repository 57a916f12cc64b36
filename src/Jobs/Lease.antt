-- ===== src/Jobs/Lease.antt =====
-- `_lease_job`.
use dealflow_radar.Common.{
  ℕ, ◌+◌, ◌*◌, String, Option, none, some, Bool, true, false, not, ◌&&◌, ◌||◌, List, any, ◌==◌, ltb,
  same_text, if◌then◌else◌, pick, or_else,
}
use dealflow_radar.Common.Calendar.{second}
use dealflow_radar.Budget.Reconcile.{
  JobStatus, queued, running, partial, completed, failed, cancelled, budget_deferred,
}
use dealflow_radar.Personal.Data.{CompanyRequest, researching}
use dealflow_radar.Watch.Data.{Schedule}
use dealflow_radar.Jobs.Data.{
  Job, Tables, Env, is_watchlist, update_active, store_job, should_stop, record_watch_outcome,
  find_job,
}
use dealflow_radar.Jobs.Ending.{cancel_job}

-- `WebResearchPolicy`, as far as a lease reads it.
pub record LeasePolicy : Type 0 where
  pub version : String
  pub worker_lease_seconds : ℕ
  pub watchlist_enabled : Bool

unfoldable pub has_passed : ℕ → Option ℕ → Bool
has_passed now none = true
has_passed now (some t) = ltb t now

unfoldable pub is_open : ℕ → JobStatus → Option ℕ → Bool
is_open now queued lease = true
is_open now partial lease = true
is_open now budget_deferred lease = true
is_open now running lease = has_passed now lease
is_open now completed lease = false
is_open now failed lease = false
is_open now cancelled lease = false

unfoldable pub ends_after : ℕ → Option ℕ → Bool
ends_after now none = false
ends_after now (some t) = ltb now t

-- The company of the job is in its cooldown.
unfoldable pub is_cooling : ℕ → Job → Schedule → Bool
is_cooling now j s = s.company_id == j.company_id && ends_after now s.cooldown_until

unfoldable pub is_leasable : LeasePolicy → ℕ → List Schedule → Job → Bool
is_leasable p now schedules j =
    same_text j.policy_version p.version
    && (not (is_watchlist j) || not p.watchlist_enabled || not (any (is_cooling now j) schedules))
    && is_open now j.status j.leased_until

unfoldable pub is_older : Job → Job → Bool
is_older a b = ltb a.created_at b.created_at

unfoldable pub leased_job : LeasePolicy → ℕ → Job → Job
leased_job p now j = record j {
  status = running;
  coverage = record j.coverage {
    started_at = some (or_else j.coverage.started_at now);
    step_started_at = some now;
  };
  leased_until = some (now + p.worker_lease_seconds * second);
  heartbeat_at = some now;
}

unfoldable pub leased_request : LeasePolicy → ℕ → CompanyRequest → CompanyRequest
leased_request p now r = record r {
  status = researching;
  leased_until = some (now + p.worker_lease_seconds * second);
  heartbeat_at = some now;
}

unfoldable pub lease : LeasePolicy → ℕ → Job → Tables → Option Job × Tables
lease p now j db = (
  some (leased_job p now j),
  record db {
    jobs = store_job (leased_job p now j) db.jobs;
    requests = update_active j.id (leased_request p now) db.requests;
  },
)

-- A job that should stop is cancelled instead, and its schedule is told again.
unfoldable pub tell : Env → ℕ → Option Job → Tables → Tables
tell e now none db = db
tell e now (some j) db = record_watch_outcome e now j db

unfoldable pub told : Env → ℕ → ℕ → Tables → Tables
told e now k db = tell e now (find_job k db.jobs) db

unfoldable pub lease_found : Env → LeasePolicy → ℕ → Option Job → Tables → Option Job × Tables
lease_found e p now none db = (none, db)
lease_found e p now (some j) db =
    if should_stop e j db then (none, told e now j.id (cancel_job e now j db)) else lease p now j db

unfoldable pub lease_job : Env → LeasePolicy → ℕ → Tables → Option Job × Tables
lease_job e p now db =
    lease_found e p now (pick (is_leasable p now db.schedules) is_older db.jobs) db
