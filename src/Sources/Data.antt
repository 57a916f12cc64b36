-- ===== src/Sources/Data.antt =====
-- The tables `TrustedSource`, `SourceCheckRun` and `CandidateDocument` of backend/app/models.py, as
-- far as source_monitoring.py reads or writes them, with the run limits of `SourceMonitoringPolicy`.
-- Instants are microseconds; ids are numbers.
use dealflow_radar.Common.{ℕ, String, Option, Bool, true, false, List, ◌==◌, ◌&&◌}

pub data RunStatus : Type 0 where
  queued running completed partial failed dry_run_completed : RunStatus

-- `status in ["queued", "running"]`
abbrev pub is_active : RunStatus → Bool
is_active queued = true
is_active running = true
is_active _ = false

abbrev pub is_running : RunStatus → Bool
is_running running = true
is_running _ = false

pub data Trigger : Type 0 where
  manual scheduled unsupported : Trigger

-- The limits that a run copies from the policy.
pub record RunLimits : Type 0 where
  pub policy_version : String
  pub max_requests : ℕ
  pub max_download_bytes : ℕ
  pub max_response_bytes : ℕ
  pub timeout_seconds : ℕ
  pub retry_limit : ℕ
  pub max_redirects : ℕ

pub record Policy : Type 0 where
  pub limits : RunLimits
  pub worker_lease_seconds : ℕ
  pub scheduler_max_sources_per_run : ℕ
  pub failure_backoff_max_multiplier : ℕ

pub record Source : Type 0 where
  pub id : ℕ
  pub tenant_id : ℕ
  pub company_id : ℕ
  pub start_url : String
  pub enabled : Bool
  pub license_status : String
  pub check_frequency_minutes : ℕ
  pub created_at : ℕ
  pub last_checked_at : Option ℕ
  pub last_success_at : Option ℕ
  pub last_failure_code : Option String
  pub last_http_status : Option ℕ
  pub consecutive_failures : ℕ
  pub last_etag : Option String
  pub last_modified : Option String
  pub last_content_hash : Option String

-- What a run has counted.
pub record Counts : Type 0 where
  pub request_count : ℕ
  pub downloaded_bytes : ℕ
  pub new_count : ℕ
  pub changed_count : ℕ
  pub unchanged_count : ℕ
  pub duplicate_count : ℕ
  pub failure_count : ℕ
  pub external_calls : ℕ

abbrev pub no_counts : Counts
no_counts = record {
  request_count = 0;
  downloaded_bytes = 0;
  new_count = 0;
  changed_count = 0;
  unchanged_count = 0;
  duplicate_count = 0;
  failure_count = 0;
  external_calls = 0;
}

pub record Run : Type 0 where
  pub id : ℕ
  pub tenant_id : ℕ
  pub company_id : ℕ
  pub trusted_source_id : ℕ
  pub requested_by : ℕ
  pub trigger_type : Trigger
  pub scheduled_for : Option ℕ
  pub status : RunStatus
  pub dry_run : Bool
  pub idempotency_key : String
  pub limits : RunLimits
  pub counts : Counts
  pub error_code : Option String
  pub robots_status : Option String
  pub created_at : ℕ
  pub started_at : Option ℕ
  pub finished_at : Option ℕ
  pub leased_until : Option ℕ
  pub heartbeat_at : Option ℕ

pub data ChangeType : Type 0 where
  new changed : ChangeType

pub data Processing : Type 0 where
  pending worth_research irrelevant duplicate source_unavailable : Processing

pub data LinkHealth : Type 0 where
  healthy unchecked broken : LinkHealth

pub record Candidate : Type 0 where
  pub id : ℕ
  pub tenant_id : ℕ
  pub company_id : ℕ
  pub trusted_source_id : ℕ
  pub discovery_run_id : ℕ
  pub previous_candidate_id : Option ℕ
  pub canonical_url : String
  pub title : String
  pub content_hash : String
  pub change_type : ChangeType
  pub first_discovered_at : ℕ
  pub last_observed_at : ℕ
  pub link_health_status : LinkHealth
  pub http_status : Option ℕ
  pub etag : Option String
  pub last_modified : Option String
  pub license_status : String
  pub processing_status : Processing
  pub processed_by : Option ℕ
  pub processed_at : Option ℕ
  pub decision_reason : Option String
  pub handed_off : Bool

-- A row that a finished run adds to `UsageLedger`.
pub record UsageEntry : Type 0 where
  pub run_id : ℕ
  pub outcome : RunStatus
  pub counts : Counts

-- A row that the scheduler adds to `UsageLedger`.
pub record ScheduleEntry : Type 0 where
  pub scheduled_at : ℕ
  pub due_count : ℕ
  pub queued_count : ℕ
  pub deferred_count : ℕ
  pub source_ids : List ℕ

pub record Db : Type 0 where
  pub sources : List Source
  pub runs : List Run
  pub candidates : List Candidate
  pub usage : List UsageEntry
  pub schedules : List ScheduleEntry

pub record User : Type 0 where
  pub id : ℕ
  pub tenant_id : ℕ
  pub is_platform_admin : Bool

pub data Error : Type 0 where
  access_denied source_not_found source_disabled unsupported_trigger duplicate_sources : Error
  no_enabled_sources must_stay_disabled calls_required : Error
  candidate_not_found already_processed lineage_incomplete : Error

-- A source of the user's tenant.
abbrev pub is_mine : User → ℕ → Source → Bool
is_mine user k s = s.id == k && s.tenant_id == user.tenant_id

-- An active run of a source.
abbrev pub is_active_of : ℕ → Run → Bool
is_active_of k r = r.trusted_source_id == k && is_active r.status

-- The order of a query without an `order_by`: the first row.
abbrev pub unordered {ℓ} : {A : Type ℓ} → A → A → Bool
unordered a b = false
