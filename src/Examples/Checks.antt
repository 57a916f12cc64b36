-- ===== src/Examples/Checks.antt =====
-- A tenant with one source, a queued run of it and a worker.
use dealflow_radar.Common.{
  subst, ap, ℕ, ◌+◌, ◌*◌, ◌≤◌, ◌≡◌, refl, ◌≢◌, String, Option, none, some, true, false, [], ◌∷◌,
  arith, length, min, ◌^◌, pick, count, find_by, store_by,
}
use dealflow_radar.Common.Calendar.{hour, minute, second}
use dealflow_radar.Sources.Review.{
  same_decision, has_source, decided, decide_row, decide_candidate_document,
}
use dealflow_radar.Sources.Decisions.{decide_candidate_document_final}
use dealflow_radar.Common.{Bool, prefer, pick, find_by, store_by, ok, err}
use dealflow_radar.Sources.Data.{Candidate, new, pending, irrelevant, duplicate, already_processed}
use dealflow_radar.Sources.Data.{
  RunLimits, Policy, Source, Run, Db, User, manual, queued, no_counts, healthy,
}
use dealflow_radar.Sources.Queue.{Request, queue_source_check}
use dealflow_radar.Sources.Schedule.{Switches, source_due_at, queue_due_source_checks}
use dealflow_radar.Sources.Lease.{
  Lease, leased, lease_of, lease_next_run, lease_end, take_run, is_leasable, is_free, is_expired,
  store_run,
}
use dealflow_radar.Sources.Fetch.{Batch, checked_source, collect}
use dealflow_radar.Sources.Worker.{
  FetchError, refused, Settings, World, run_worker_once, failed_source,
}
use dealflow_radar.Sources.Active.{
  IsSingle, KeepsActive, queue_source_check-IsSingle, run_worker_once-IsSingle,
}
use dealflow_radar.Sources.Exclusion.{Step, leases, Steps, here, next, lease_exclusive}
use dealflow_radar.Sources.Accounts.{collect_lem}
use dealflow_radar.Sources.Backoff.{backoff_bounds}
use dealflow_radar.Sources.Scheduling.{Scheduled, schedule_lem}

abbrev limits : RunLimits
limits = record {
  policy_version = "v1";
  max_requests = 5;
  max_download_bytes = 1000;
  max_response_bytes = 500;
  timeout_seconds = 10;
  retry_limit = 1;
  max_redirects = 3;
}

abbrev policy : Policy
policy = record {
  limits = limits;
  worker_lease_seconds = 60;
  scheduler_max_sources_per_run = 2;
  failure_backoff_max_multiplier = 8;
}

abbrev user : User
user = record { id = 1; tenant_id = 1; is_platform_admin = true }

abbrev source : Source
source = record {
  id = 3;
  tenant_id = 1;
  company_id = 4;
  start_url = "https://example.org";
  enabled = true;
  license_status = "public";
  check_frequency_minutes = 30;
  created_at = 0;
  last_checked_at = none;
  last_success_at = none;
  last_failure_code = none;
  last_http_status = none;
  consecutive_failures = 1;
  last_etag = none;
  last_modified = none;
  last_content_hash = none;
}

abbrev run : ℕ → Run
run id = record {
  id = id;
  tenant_id = 1;
  company_id = 4;
  trusted_source_id = 3;
  requested_by = 1;
  trigger_type = manual;
  scheduled_for = none;
  status = queued;
  dry_run = false;
  idempotency_key = "key";
  limits = limits;
  counts = no_counts;
  error_code = none;
  robots_status = none;
  created_at = 0;
  started_at = none;
  finished_at = none;
  leased_until = none;
  heartbeat_at = none;
}

abbrev idle : Db
idle = record { sources = source ∷ []; runs = []; candidates = []; usage = []; schedules = [] }

idle-IsSingle : IsSingle idle
idle-IsSingle = record { unique = tt; single = λ k. unfold count in omega arith }

abbrev request : Request
request = record {
  source_id = 3;
  dry_run = false;
  trigger_type = manual;
  scheduled_for = none;
  idempotency_key = none;
}

abbrev fixed_key : ℕ → String
fixed_key n = "key"

queue_source_check-IsSingle_example :
    IsSingle (queue_source_check fixed_key 9 hour user policy request idle).1
    × KeepsActive user request idle (queue_source_check fixed_key 9 hour user policy request idle)
queue_source_check-IsSingle_example =
    queue_source_check-IsSingle fixed_key 9 hour user policy request idle tt idle-IsSingle

abbrev timeout : FetchError
timeout = record { code = "timeout"; http_status = none; request_count = 1; downloaded_bytes = 0 }

abbrev settings : Settings
settings = record {
  policy = policy;
  external_calls_enabled = true;
  trusted_source_calls_enabled = true;
}

-- A fetcher that always times out.
abbrev world : World
world = record {
  check = λ lease s db. refused timeout;
  company_known = λ k. true;
  fresh = 100;
  completed_at = 2 * hour;
}

abbrev busy : Db
busy = record {
  sources = source ∷ [];
  runs = run 9 ∷ [];
  candidates = [];
  usage = [];
  schedules = [];
}

busy-IsSingle : IsSingle busy
busy-IsSingle = record { unique = (tt, tt); single = λ k. unfold count in ground arith }

run_worker_once-IsSingle_example : IsSingle (run_worker_once user settings world hour busy).1
run_worker_once-IsSingle_example =
    run_worker_once-IsSingle user settings world hour busy busy-IsSingle

-- Three runs of the source's tenant wait; the first is leased, then the second, then the third.
abbrev crowded : Db
crowded = record busy { runs = run 9 ∷ run 10 ∷ run 11 ∷ [] }

abbrev first_lease : Option Lease × Db
first_lease = (
  some (lease_of policy hour (run 9)),
  record crowded { runs = leased policy hour (run 9) ∷ run 10 ∷ run 11 ∷ [] },
)

leases_first : lease_next_run user policy hour crowded ≡ first_lease
unfolding lease_next_run take_run is_leasable is_free is_expired pick lease_of store_run leased
    find_by store_by
leases_first = refl

abbrev second_lease : Option Lease × Db
second_lease = (
  some (lease_of policy (hour + second) (run 10)),
  record crowded {
    runs = leased policy hour (run 9) ∷ leased policy (hour + second) (run 10) ∷ run 11 ∷ [];
  },
)

leases_second : lease_next_run user policy (hour + second) first_lease.1 ≡ second_lease
unfolding lease_next_run take_run is_leasable is_free is_expired pick lease_of store_run leased
    find_by store_by lease_end
leases_second = refl

abbrev third_lease : Option Lease × Db
third_lease = (
  some (lease_of policy (hour + 2 * second) (run 11)),
  record crowded {
    runs =
        leased policy hour (run 9)
        ∷ leased policy (hour + second) (run 10)
        ∷ leased policy (hour + 2 * second) (run 11)
        ∷ [];
  },
)

leases_third : lease_next_run user policy (hour + 2 * second) second_lease.1 ≡ third_lease
unfolding lease_next_run take_run is_leasable is_free is_expired pick lease_of store_run leased
    find_by store_by lease_end
leases_third = refl

others_lease :
    Steps
      (lease_of policy hour (run 9)).run_id
      (lease_of policy hour (run 9)).leased_until
      first_lease.1
      second_lease.1
unfolding lease_of lease_end
others_lease =
    next first_lease.1 second_lease.1 second_lease.1
      (subst (λ (db : Db). Step 9 (hour + 60 * second) first_lease.1 db)
        (ap (λ (x : Option Lease × Db). x.1) leases_second)
        (leases user policy (hour + second) first_lease.1 (omega arith)))
      (here second_lease.1)

lease_exclusive_example :
    (lease_of policy (hour + 2 * second) (run 11)).run_id ≢ (lease_of policy hour (run 9)).run_id
lease_exclusive_example =
    lease_exclusive user user policy policy hour (hour + 2 * second) crowded
      ((λ e. omega arith, (λ e. omega arith, tt)), ((λ e. omega arith, tt), (tt, tt))) leases_first
      others_lease (unfold lease_of lease_end in omega arith) leases_third

abbrev batch : Batch
batch = record {
  documents =
      (record {
        canonical_url = "https://example.org/a";
        title = "a";
        content_hash = "h1";
        http_status = some 200;
        etag = none;
        last_modified = none;
        link_health_status = healthy;
      })
      ∷ [];
  unchanged_urls = "https://example.org/b" ∷ [];
  failures = [];
  request_count = 2;
  downloaded_bytes = 100;
  robots_status = "allowed";
  start_etag = none;
  start_last_modified = none;
  start_content_hash = none;
  partial_batch = false;
}

collect_lem_example :
    let p = collect 100 hour source 9 batch [] in
    (p.new_count + p.changed_count + p.unchanged_count + p.duplicate_count ≡ 2)
    × (length p.candidates ≡ 0 + p.new_count + p.changed_count)
    × (p.next_id ≡ 100 + p.new_count + p.changed_count)
collect_lem_example = collect_lem 100 hour source 9 batch []

backoff_bounds_example :
    (source_due_at policy (checked_source hour batch source) ≡ hour + 30 * minute)
    × (hour + 30 * minute ≤ source_due_at policy (failed_source timeout hour source))
    × (source_due_at policy (failed_source timeout hour source) ≤ hour + 30 * 8 * minute)
    × (source_due_at policy (failed_source timeout hour source)
        ≡ hour + 30 * min (2 ^ (1 + 1)) 8 * minute)
backoff_bounds_example = backoff_bounds policy source batch timeout hour (omega arith)

abbrev switches : Switches
switches = record {
  paid_api_calls_enabled = false;
  auto_publish_enabled = false;
  auto_refresh_enabled = true;
  source_monitor_scheduler_enabled = true;
  external_calls_enabled = true;
  trusted_source_calls_enabled = true;
}

abbrev due_key : ℕ → ℕ → String
due_key k due = "due"

schedule_lem_example :
    ((queue_due_source_checks true switches fixed_key due_key (λ n. n) user policy hour idle).1
      ≡ idle)
    × Scheduled switches user policy hour idle
        (queue_due_source_checks false switches fixed_key due_key (λ n. n) user policy hour idle).1
schedule_lem_example = schedule_lem switches fixed_key due_key (λ n. n) user policy hour idle

abbrev candidate : Candidate
candidate = record {
  id = 20;
  tenant_id = 1;
  company_id = 4;
  trusted_source_id = 3;
  discovery_run_id = 9;
  previous_candidate_id = none;
  canonical_url = "https://example.org/a";
  title = "a";
  content_hash = "h1";
  change_type = new;
  first_discovered_at = 0;
  last_observed_at = 0;
  link_health_status = healthy;
  http_status = some 200;
  etag = none;
  last_modified = none;
  license_status = "public";
  processing_status = pending;
  processed_by = none;
  processed_at = none;
  decision_reason = none;
  handed_off = false;
}

abbrev reviewed : Db
reviewed = record idle { candidates = candidate ∷ [] }

abbrev company_exists : ℕ → Bool
company_exists k = true

abbrev chosen : Candidate
chosen = decided user irrelevant "old news" hour candidate

abbrev after_decision : Db
after_decision = record idle { candidates = chosen ∷ [] }

decides :
    decide_candidate_document user company_exists 20 irrelevant "old news" hour reviewed
    ≡ (ok chosen, after_decision)
unfolding decide_candidate_document decide_row pick prefer has_source find_by store_by decided
decides = refl

decide_candidate_document_final_example :
    (chosen.processing_status ≡ irrelevant)
    × (decide_candidate_document user company_exists 20 irrelevant "again" (2 * hour) after_decision
        ≡ (ok chosen, after_decision))
    × (decide_candidate_document user company_exists 20 duplicate "again" (2 * hour) after_decision
        ≡ (err already_processed, after_decision))
decide_candidate_document_final_example =
    decide_candidate_document_final user company_exists company_exists 20 irrelevant duplicate
      "old news" "again" hour (2 * hour) reviewed after_decision chosen refl
      (unfold same_decision in refl) decides
