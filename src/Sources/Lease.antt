-- ===== src/Sources/Lease.antt =====
-- The worker's lease of a run: `_lease_next_run`, `_load_locked_run_and_source` and
-- `_complete_dry_run`.
use dealflow_radar.Common.{
  ℕ, ◌+◌, ◌*◌, String, Option, none, some, Bool, true, false, not, ◌&&◌, List, ◌∷◌, ◌==◌, leb, ltb,
  is_number, if◌then◌else◌, pick, find_by, store_by, or_else,
}
use dealflow_radar.Common.Calendar.{second}
use dealflow_radar.Sources.Data.{
  Db, User, Source, Run, RunStatus, running, queued, dry_run_completed, is_running, Policy,
  RunLimits, Counts, UsageEntry, no_counts,
}

-- `_RunLease`
pub record Lease : Type 0 where
  pub run_id : ℕ
  pub tenant_id : ℕ
  pub company_id : ℕ
  pub trusted_source_id : ℕ
  pub requested_by : ℕ
  pub leased_until : ℕ
  pub dry_run : Bool
  pub limits : RunLimits

-- `leased_until IS NULL OR leased_until <= now`
unfoldable pub is_expired : ℕ → Option ℕ → Bool
is_expired now none = true
is_expired now (some t) = leb t now

unfoldable pub is_free : ℕ → RunStatus → Option ℕ → Bool
unfolding is_expired
is_free now queued lease = true
is_free now running lease = is_expired now lease
is_free now _ lease = false

source_enabled : ℕ → List Source → Bool
source_enabled k ss = elim (find_by (λ s. s.id) k ss) [ none ↦ false | some s ↦ s.enabled ]

unfoldable pub is_leasable : User → ℕ → Db → Run → Bool
unfolding source_enabled
is_leasable user now db r =
    r.tenant_id == user.tenant_id
    && source_enabled r.trusted_source_id db.sources
    && is_free now r.status r.leased_until

-- `order_by(SourceCheckRun.created_at)`
abbrev pub earlier : Run → Run → Bool
earlier a b = ltb a.created_at b.created_at

unfoldable pub lease_end : Policy → ℕ → ℕ
lease_end p now = now + p.worker_lease_seconds * second

unfoldable pub leased : Policy → ℕ → Run → Run
leased p now r = record r {
  status = running;
  started_at = some (or_else r.started_at now);
  heartbeat_at = some now;
  leased_until = some (lease_end p now);
}

unfoldable pub lease_of : Policy → ℕ → Run → Lease
lease_of p now r = record {
  run_id = r.id;
  tenant_id = r.tenant_id;
  company_id = r.company_id;
  trusted_source_id = r.trusted_source_id;
  requested_by = r.requested_by;
  leased_until = lease_end p now;
  dry_run = r.dry_run;
  limits = r.limits;
}

unfoldable pub store_run : Run → Db → Db
store_run r db = record db { runs = store_by (λ x. x.id) r db.runs }

unfoldable pub find_run : ℕ → Db → Option Run
find_run k db = find_by (λ x. x.id) k db.runs

unfoldable pub take_run : Option Run → Policy → ℕ → Db → Option Lease × Db
take_run none p now db = (none, db)
take_run (some r) p now db = (some (lease_of p now r), store_run (leased p now r) db)

-- `_lease_next_run`
unfoldable pub lease_next_run : User → Policy → ℕ → Db → Option Lease × Db
unfolding take_run
lease_next_run user p now db = take_run (pick (is_leasable user now db) earlier db.runs) p now db

-- The run is still held under this lease.
unfoldable pub holds : Lease → ℕ → Run → Bool
holds lease now r =
    is_running r.status
    && is_number lease.leased_until r.leased_until
    && not (leb lease.leased_until now)

unfoldable pub held_run : Lease → ℕ → Option Run → Option Run
held_run lease now none = none
held_run lease now (some r) = if holds lease now r then some r else none

unfoldable pub held_source : Lease → Option Source → Option Source
held_source lease none = none
held_source lease (some s) = if s.tenant_id == lease.tenant_id then some s else none

unfoldable pub pair_up : Option Run → Option Source → Option (Run × Source)
pair_up none s = none
pair_up (some r) none = none
pair_up (some r) (some s) = some (r, s)

-- `_load_locked_run_and_source`
unfoldable pub load_locked : Lease → ℕ → Db → Option (Run × Source)
unfolding held_run held_source pair_up
load_locked lease now db =
    pair_up (held_run lease now (find_run lease.run_id db))
      (held_source lease (find_by (λ s. s.id) lease.trusted_source_id db.sources))

-- `SourceWorkerResult`
pub data WorkerStatus : Type 0 where
  idle lease_lost : WorkerStatus
  finished : RunStatus → WorkerStatus

pub record WorkerResult : Type 0 where
  pub status : WorkerStatus
  pub run_id : Option ℕ
  pub counts : Counts
  pub error_code : Option String

unfoldable pub lost : Lease → WorkerResult
lost lease = record {
  status = lease_lost;
  run_id = some lease.run_id;
  counts = no_counts;
  error_code = none;
}

unfoldable pub dry_row : ℕ → Run → Run
dry_row now r = record r {
  status = dry_run_completed;
  finished_at = some now;
  heartbeat_at = some now;
  leased_until = none;
}

dry_usage : Run → UsageEntry
dry_usage r = record { run_id = r.id; outcome = dry_run_completed; counts = r.counts }

unfoldable pub complete_run : Lease → ℕ → Option Run → Db → WorkerResult × Db
unfolding dry_usage
complete_run lease now none db = (lost lease, db)
complete_run lease now (some r) db =
    if is_running r.status
    then (
      record {
        status = finished dry_run_completed;
        run_id = some r.id;
        counts = no_counts;
        error_code = none;
      },
      record (store_run (dry_row now r) db) { usage = dry_usage r ∷ db.usage },
    )
    else (lost lease, db)

-- `_complete_dry_run`: it tests the status, not the lease.
unfoldable pub complete_dry_run : Lease → ℕ → Db → WorkerResult × Db
unfolding complete_run
complete_dry_run lease now db = complete_run lease now (find_run lease.run_id db) db
