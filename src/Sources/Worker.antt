-- ===== src/Sources/Worker.antt =====
-- The end of a check and the worker's round: `_apply_fetch_result`, `_record_fetch_failure` and
-- `run_trusted_source_worker_once`.
use dealflow_radar.Common.{
  ℕ, ◌+◌, String, Option, none, some, Bool, not, ◌||◌, ◌∷◌, if◌then◌else◌, pick, Result, ok, err,
}
use dealflow_radar.Sources.Data.{
  Db, User, Source, Run, failed, Policy, Counts, no_counts, Error, access_denied, is_mine,
  unordered,
}
use dealflow_radar.Sources.Lease.{
  Lease, WorkerResult, idle, finished, lost, load_locked, store_run, lease_next_run,
  complete_dry_run,
}
use dealflow_radar.Sources.Fetch.{
  Batch, collect, finished_run, checked_source, store_source, usage_of, report, failed_result,
}

write_batch : ℕ → ℕ → Batch → Run → Source → Db → WorkerResult × Db
write_batch fresh now b r s db =
    let p = collect fresh now s r.id b db.candidates in
    let r' = finished_run now b p r in
    (
      report r',
      record (store_source (checked_source now b s) (store_run r' db)) {
        candidates = p.candidates;
        usage = usage_of r' ∷ db.usage;
      },
    )

apply_locked : Option (Run × Source) → Bool → ℕ → Lease → Batch → ℕ → Db → WorkerResult × Db
unfolding write_batch
apply_locked none company_known fresh lease b now db = (lost lease, db)
apply_locked (some (r, s)) company_known fresh lease b now db =
    if company_known
    then write_batch fresh now b r s db
    else (failed_result lease "company_missing", db)

-- `_apply_fetch_result`; `company_known` tells whether the source's company is in the database.
unfoldable pub apply_fetch_result : Bool → ℕ → Lease → Batch → ℕ → Db → WorkerResult × Db
unfolding apply_locked
apply_fetch_result company_known fresh lease b now db =
    apply_locked (load_locked lease now db) company_known fresh lease b now db

-- A `SourceFetchError`, with what the fetcher had counted.
pub record FetchError : Type 0 where
  pub code : String
  pub http_status : Option ℕ
  pub request_count : ℕ
  pub downloaded_bytes : ℕ

failure_counts : FetchError → Counts → Counts
failure_counts e c = record c {
  request_count = e.request_count;
  downloaded_bytes = e.downloaded_bytes;
  failure_count = 1;
  external_calls = e.request_count;
}

unfoldable pub failed_run : FetchError → ℕ → Run → Run
unfolding failure_counts
failed_run e now r = record r {
  status = failed;
  counts = failure_counts e r.counts;
  error_code = some e.code;
  finished_at = some now;
  heartbeat_at = some now;
  leased_until = none;
}

unfoldable pub failed_source : FetchError → ℕ → Source → Source
failed_source e now s = record s {
  last_checked_at = some now;
  last_failure_code = some e.code;
  last_http_status = e.http_status;
  consecutive_failures = s.consecutive_failures + 1;
}

failure_report : FetchError → Run → WorkerResult
unfolding failure_counts
failure_report e r = record {
  status = finished failed;
  run_id = some r.id;
  counts = failure_counts e no_counts;
  error_code = some e.code;
}

record_locked : Option (Run × Source) → Lease → FetchError → ℕ → Db → WorkerResult × Db
unfolding failure_report
record_locked none lease e now db = (lost lease, db)
record_locked (some (r, s)) lease e now db =
    let r' = failed_run e now r in
    (
      failure_report e r',
      record (store_source (failed_source e now s) (store_run r' db)) {
        usage = usage_of r' ∷ db.usage;
      },
    )

-- `_record_fetch_failure`
unfoldable pub record_fetch_failure : Lease → FetchError → ℕ → Db → WorkerResult × Db
unfolding record_locked
record_fetch_failure lease e now db = record_locked (load_locked lease now db) lease e now db

pub data Fetched : Type 0 where
  fetched : Batch → Fetched
  refused : FetchError → Fetched

-- The settings that the worker reads.
pub record Settings : Type 0 where
  pub policy : Policy
  pub external_calls_enabled : Bool
  pub trusted_source_calls_enabled : Bool

-- What the worker's environment answers: the fetcher's check under the run's limits, the presence of
-- a company, the first id for new candidates, and the clock after the check.
pub record World : Type 0 where
  pub check : Lease → Source → Db → Fetched
  pub company_known : ℕ → Bool
  pub fresh : ℕ
  pub completed_at : ℕ

unfoldable pub calls_disabled : FetchError
calls_disabled = record {
  code = "external_calls_disabled";
  http_status = none;
  request_count = 0;
  downloaded_bytes = 0;
}

unfoldable pub finish_check : Fetched → World → Lease → Source → Db → WorkerResult × Db
finish_check (fetched b) w lease s db =
    apply_fetch_result (w.company_known s.company_id) w.fresh lease b w.completed_at db
finish_check (refused e) w lease s db = record_fetch_failure lease e w.completed_at db

unfoldable pub check_source : Option Source → World → Lease → Db → WorkerResult × Db
unfolding finish_check
check_source none w lease db = (failed_result lease "source_missing", db)
check_source (some s) w lease db = finish_check (w.check lease s db) w lease s db

unfoldable pub run_lease : Option Lease → User → Settings → World → ℕ → Db → WorkerResult × Db
unfolding calls_disabled check_source
run_lease none user t w now db =
    (record { status = idle; run_id = none; counts = no_counts; error_code = none }, db)
run_lease (some lease) user t w now db =
    if lease.dry_run
    then complete_dry_run lease now db
    else if not t.external_calls_enabled || not t.trusted_source_calls_enabled
    then record_fetch_failure lease calls_disabled now db
    else check_source (pick (is_mine user lease.trusted_source_id) unordered db.sources) w lease db

-- `run_trusted_source_worker_once`
unfoldable pub run_worker_once : User → Settings → World → ℕ → Db → Result Error WorkerResult × Db
unfolding run_lease
run_worker_once user t w now db =
    if user.is_platform_admin
    then (let (lease, db') = lease_next_run user t.policy now db in
        let (result, db'') = run_lease lease user t w now db' in (ok result, db''))
    else (err access_denied, db)
