-- ===== src/Refresh/Jobs.antt =====
-- `_lease_next_job`, `_complete_job` and `run_mock_worker_once`, on the tables `RefreshJob`,
-- `CompanySnapshot` and `UsageLedger`. Whether a tenant is one of the demo tenants is an argument.
use dealflow_radar.Common.{
  ℕ, ◌+◌, ◌*◌, String, Option, none, some, Bool, true, false, not, ◌&&◌, ◌||◌, List, ◌∷◌, ◌==◌, leb,
  ltb, is_number, is_none, same_text, if◌then◌else◌, pick, find_by, store_by,
}
use dealflow_radar.Common.Calendar.{second}

pub data RefreshStatus : Type 0 where
  queued running completed closed : RefreshStatus

pub record RefreshJob : Type 0 where
  pub id : ℕ
  pub tenant_id : ℕ
  pub company_id : ℕ
  pub job_type : String
  pub status : RefreshStatus
  pub priority : ℕ
  pub created_at : ℕ
  pub leased_until : Option ℕ
  pub heartbeat_at : Option ℕ

pub data Scope : Type 0 where
  platform_shared organization_private owner_private : Scope

-- `CompanySnapshot`
pub record Snapshot : Type 0 where
  pub id : ℕ
  pub company_id : ℕ
  pub is_current : Bool
  pub visibility_scope : Scope
  pub owner_user_id : Option ℕ
  pub owner_tenant_id : Option ℕ
  pub last_checked_at : Option ℕ
  pub freshness_status : String

pub record RefreshUsage : Type 0 where
  pub tenant_id : ℕ
  pub company_id : ℕ
  pub job_id : ℕ
  pub outcome : String
  pub snapshot_updated : Bool

pub record Tables : Type 0 where
  pub jobs : List RefreshJob
  pub snapshots : List Snapshot
  pub usage : List RefreshUsage

-- `_JobLease`
pub record JobLease : Type 0 where
  pub job_id : ℕ
  pub tenant_id : ℕ
  pub company_id : ℕ
  pub leased_until : ℕ

-- `MockWorkerResult`
pub data RefreshResult : Type 0 where
  idle : RefreshResult
  lease_lost : ℕ → RefreshResult
  done : ℕ → String → Bool → RefreshResult

unfoldable pub has_ended : ℕ → Option ℕ → Bool
has_ended now none = true
has_ended now (some t) = leb t now

unfoldable pub is_open_job : ℕ → RefreshStatus → Option ℕ → Bool
unfolding has_ended
is_open_job now queued lease = true
is_open_job now running lease = has_ended now lease
is_open_job now completed lease = false
is_open_job now closed lease = false

unfoldable pub is_candidate : ℕ → ℕ → RefreshJob → Bool
is_candidate tenant now j =
    j.tenant_id == tenant
    && same_text j.job_type "mock_refresh"
    && is_open_job now j.status j.leased_until

-- `order_by(RefreshJob.priority.desc(), RefreshJob.created_at)`
unfoldable pub comes_first : RefreshJob → RefreshJob → Bool
comes_first a b =
    ltb b.priority a.priority || ((a.priority == b.priority) && ltb a.created_at b.created_at)

unfoldable pub leased_job : ℕ → ℕ → RefreshJob → RefreshJob
leased_job seconds now j = record j {
  status = running;
  heartbeat_at = some now;
  leased_until = some (now + seconds * second);
}

unfoldable pub lease_found : Option RefreshJob → ℕ → ℕ → Tables → Option JobLease × Tables
lease_found none seconds now db = (none, db)
lease_found (some j) seconds now db = (
  some (record {
    job_id = j.id;
    tenant_id = j.tenant_id;
    company_id = j.company_id;
    leased_until = now + seconds * second;
  }),
  record db { jobs = store_by (λ x. x.id) (leased_job seconds now j) db.jobs },
)

-- `_lease_next_job`; `seconds` is `policy.mock_worker_lease_seconds`.
unfoldable pub lease_next_job : ℕ → ℕ → ℕ → Tables → Option JobLease × Tables
lease_next_job tenant seconds now db =
    lease_found (pick (is_candidate tenant now) comes_first db.jobs) seconds now db

unfoldable pub is_running_job : RefreshStatus → Bool
is_running_job running = true
is_running_job queued = false
is_running_job completed = false
is_running_job closed = false

-- The job is still held under the lease.
unfoldable pub is_held : JobLease → ℕ → RefreshJob → Bool
is_held lease now j =
    j.tenant_id == lease.tenant_id
    && is_running_job j.status
    && is_number lease.leased_until j.leased_until
    && not (leb lease.leased_until now)

unfoldable pub is_shared : Scope → Bool
is_shared platform_shared = true
is_shared organization_private = false
is_shared owner_private = false

unfoldable pub is_organization : Scope → Bool
is_organization organization_private = true
is_organization platform_shared = false
is_organization owner_private = false

unfoldable pub is_shared_snapshot : JobLease → Snapshot → Bool
is_shared_snapshot lease s =
    s.company_id == lease.company_id
    && s.is_current
    && is_shared s.visibility_scope
    && is_none s.owner_user_id
    && is_none s.owner_tenant_id

unfoldable pub is_private_snapshot : JobLease → Snapshot → Bool
is_private_snapshot lease s =
    s.company_id == lease.company_id
    && s.is_current
    && is_organization s.visibility_scope
    && is_none s.owner_user_id
    && is_number lease.tenant_id s.owner_tenant_id

unfoldable pub or_snapshot : Option Snapshot → Option Snapshot → Option Snapshot
or_snapshot none b = b
or_snapshot (some a) b = some a

-- The shared snapshot, or else the tenant's own.
unfoldable pub snapshot_of : JobLease → List Snapshot → Option Snapshot
snapshot_of lease ss =
    or_snapshot (pick (is_shared_snapshot lease) (λ x y. false) ss)
      (pick (is_private_snapshot lease) (λ x y. false) ss)

unfoldable pub refreshed : ℕ → Option Snapshot → List Snapshot → List Snapshot
refreshed now none ss = ss
refreshed now (some s) ss =
    store_by (λ x. x.id) (record s { last_checked_at = some now; freshness_status = "fresh" }) ss

unfoldable pub outcome_of : Option Snapshot → String
outcome_of none = "no_snapshot"
outcome_of (some s) = "no_change"

unfoldable pub completed_job : ℕ → RefreshJob → RefreshJob
completed_job now j = record j { status = completed; heartbeat_at = some now; leased_until = none }

unfoldable pub write_completion :
    JobLease → ℕ → RefreshJob → Option Snapshot → Tables → RefreshResult × Tables
write_completion lease now j s db = (
  done lease.job_id (outcome_of s) (not (is_none s)),
  record {
    jobs = store_by (λ x. x.id) (completed_job now j) db.jobs;
    snapshots = refreshed now s db.snapshots;
    usage =
        (record {
          tenant_id = lease.tenant_id;
          company_id = lease.company_id;
          job_id = lease.job_id;
          outcome = outcome_of s;
          snapshot_updated = not (is_none s);
        })
        ∷ db.usage;
  },
)

unfoldable pub complete_found : Option RefreshJob → JobLease → ℕ → Tables → RefreshResult × Tables
complete_found none lease now db = (lease_lost lease.job_id, db)
complete_found (some j) lease now db =
    if is_held lease now j
    then write_completion lease now j (snapshot_of lease db.snapshots) db
    else (lease_lost lease.job_id, db)

-- `_complete_job`
unfoldable pub complete_job : JobLease → ℕ → Tables → RefreshResult × Tables
complete_job lease now db = complete_found (find_by (λ j. j.id) lease.job_id db.jobs) lease now db

unfoldable pub complete_leased : Option JobLease × Tables → ℕ → RefreshResult × Tables
complete_leased (none, db) now = (idle, db)
complete_leased (some lease, db) now = complete_job lease now db

-- `run_mock_worker_once`; `none` is its `RuntimeError`.
unfoldable pub run_mock_worker_once : Bool → ℕ → ℕ → ℕ → Tables → Option RefreshResult × Tables
run_mock_worker_once is_demo tenant seconds now db =
    if is_demo
    then (let (r, db') = complete_leased (lease_next_job tenant seconds now db) now in
        (some r, db'))
    else (none, db)
