-- ===== src/Jobs/Data.antt =====
-- The research jobs with their coverage, and the tables that their worker writes. What belongs to the
-- surroundings of the worker is a record of functions.
use dealflow_radar.Common.{
  ℕ, ◌+◌, String, Option, none, some, Bool, false, not, ◌&&◌, ◌||◌, List, map, any, length, ◌==◌,
  is_none, is_number, is_given, or_else, same_text, if◌then◌else◌, keep, find_by, store_by,
}
use dealflow_radar.Budget.Rows.{Row as UsageRow}
use dealflow_radar.Budget.Reconcile.{JobStatus, Stats}
use dealflow_radar.Budget.Summary.{Summary, summary}
use dealflow_radar.Personal.Data.{CompanyRequest, UsageRecord}
use dealflow_radar.Personal.Requests.{is_researching}
use dealflow_radar.Research.Data.{Texts, Coverage, is_in}
use dealflow_radar.Research.Completion.{
  Overall, Completion, search_group_modules, rows, is_completed,
}
use dealflow_radar.Watch.Data.{
  Policy as WatchPolicy, Schedule, CategoryRow, Monitor, Job as WatchJob,
}
use dealflow_radar.Watch.Outcome.{record_outcome}

-- `coverage["gap_follow_up"]` and `coverage["source_recovery"]`
pub record FollowUp : Type 0 where
  pub status : String
  pub attempts : ℕ
  pub reason : Option String
  pub deferred_at : Option ℕ

-- `coverage["identity_usage"]`
pub record IdentityUsage : Type 0 where
  pub search_calls : ℕ
  pub fetch_calls : ℕ
  pub downloaded_bytes : ℕ

-- The coverage of a job: what the research recorded, and what the worker adds.
pub record JobCoverage : Type 0 where
  pub research : Coverage
  pub reference_at : String
  pub candidate_index : ℕ
  pub document_limit : Option ℕ
  pub identity_usage : Option IdentityUsage
  pub matter_processing : Bool
  pub model_budget_exhausted : Bool
  pub source_recovery : FollowUp
  pub gap_follow_up : FollowUp
  pub budget_baseline : Option Stats
  pub stats : Stats
  pub started_at : Option ℕ
  pub step_started_at : Option ℕ
  pub completed_at : Option ℕ
  pub failed_documents : ℕ
  pub completion : Option Completion
  pub completion_status : Option Overall
  pub cost_summary : Option Summary
  pub robots_rule_cache : Option String
  pub monitor : Option Monitor
  pub semantic_before : Option String
  pub semantic_after : Option String
  pub business_change : Option String

-- `CompanyResearchJob`
pub record Job : Type 0 where
  pub id : ℕ
  pub company_id : ℕ
  pub created_by_user_id : ℕ
  pub status : JobStatus
  pub current_stage : String
  pub policy_version : String
  pub trigger_type : String
  pub coverage : JobCoverage
  pub external_calls : ℕ
  pub cancel_requested_at : Option ℕ
  pub cancelled_at : Option ℕ
  pub leased_until : Option ℕ
  pub heartbeat_at : Option ℕ
  pub last_error_code : Option String
  pub created_at : ℕ

-- `Company`, as far as research depends on it.
pub record Company : Type 0 where
  pub id : ℕ
  pub tenant_id : Option ℕ
  pub visibility_scope : String
  pub identity_status : String
  pub credit_code : Option String

pub record Tables : Type 0 where
  pub companies : List Company
  pub requests : List CompanyRequest
  pub jobs : List Job
  pub usage : List UsageRecord
  pub ledger : List UsageRow
  pub schedules : List Schedule

-- `f"web-research:{job.id}"`, `metrics["query_kind"]` of a row of the ledger, `company_semantic_version`, the companies of `monitoring.targets`, the
-- gate `watchlist_gate`, and the policy of the watchlist.
pub record Env : Type 0 where
  pub texts : Texts
  pub task_key : ℕ → String
  pub query_kind : UsageRow → Option String
  pub semantic_version : ℕ → String
  pub targets : List ℕ
  pub gate : Bool
  pub watch : WatchPolicy

unfoldable pub is_watchlist : Job → Bool
is_watchlist j = same_text j.trigger_type "watchlist"

-- `_public_company`
unfoldable pub public_company : Option Company → Bool
public_company none = false
public_company (some c) =
    is_none c.tenant_id
    && same_text c.visibility_scope "public"
    && same_text c.identity_status "verified"
    && is_given c.credit_code

unfoldable pub find_company : Option ℕ → Tables → Option Company
find_company none db = none
find_company (some k) db = find_by (λ c. c.id) k db.companies

unfoldable pub find_job : ℕ → List Job → Option Job
find_job k js = find_by (λ j. j.id) k js

unfoldable pub store_job : Job → List Job → List Job
store_job j js = store_by (λ x. x.id) j js

-- `_linked_requests`
unfoldable pub is_linked : ℕ → CompanyRequest → Bool
is_linked k r = is_number k r.research_job_id

-- `_active_linked_requests`
unfoldable pub is_active_linked : ℕ → CompanyRequest → Bool
is_active_linked k r = is_linked k r && is_researching r.status

-- What a loop over the linked requests that are active does to the table.
unfoldable pub update_active :
    ℕ → (CompanyRequest → CompanyRequest) → List CompanyRequest → List CompanyRequest
update_active k f rs = map (λ r. if is_active_linked k r then f r else r) rs

-- `monitoring.allowed`
unfoldable pub allowed : Env → Job → Bool
allowed e j = e.gate && is_none j.cancel_requested_at && any (λ k. k == j.company_id) e.targets

-- `_job_should_stop`
unfoldable pub should_stop : Env → Job → Tables → Bool
should_stop e j db =
    if is_watchlist j
    then not (allowed e j)
    else not (is_none j.cancel_requested_at) || not (any (is_active_linked j.id) db.requests)

-- `_job_cost_summary`
unfoldable pub legacy_calls : JobCoverage → ℕ
legacy_calls c = let s = or_else c.budget_baseline c.stats in s.search_calls + s.fetch_calls

unfoldable pub cost_summary : Env → Job → List UsageRow → Summary
cost_summary e j ledger = summary (e.task_key j.id) (legacy_calls j.coverage) ledger

-- The rows of a job in the categories of the watchlist's group.
unfoldable pub watch_rows : Texts → Coverage → List CategoryRow
watch_rows x c =
    map
      (λ r. record {
        is_completed = is_completed r.status;
        last_successful_check_at = r.last_successful_check_at;
      })
      (keep (λ r. is_in (search_group_modules "business_capital") r.category) (rows x c))

-- The job as `monitoring.record_outcome` reads it, and what that writes to it.
unfoldable pub watch_job : Env → Job → WatchJob
watch_job e j = record {
  id = j.id;
  company_id = j.company_id;
  status = j.status;
  heartbeat_at = j.heartbeat_at;
  rows = watch_rows e.texts j.coverage.research;
  candidate_index = j.coverage.candidate_index;
  candidate_count = length j.coverage.research.candidates;
  stop_reason = j.coverage.research.stop_reason;
  semantic_before = j.coverage.semantic_before;
  semantic_after = j.coverage.semantic_after;
  business_change = j.coverage.business_change;
  monitor = j.coverage.monitor;
}

unfoldable pub compared : WatchJob → Job → Job
compared w j = record j {
  coverage = record j.coverage {
    semantic_after = w.semantic_after;
    business_change = w.business_change;
  };
}

unfoldable pub write_watch : Option (Schedule × WatchJob) → Job → Tables → Tables
write_watch none j db = db
write_watch (some w) j db = record db {
  schedules = store_by (λ s. s.company_id) w.0 db.schedules;
  jobs = store_job (compared w.1 j) db.jobs;
}

unfoldable pub watch_outcome : Env → ℕ → Job → Option Schedule → Option (Schedule × WatchJob)
watch_outcome e now j none = none
watch_outcome e now j (some s) =
    some (record_outcome e.watch now (e.semantic_version j.company_id) (watch_job e j) s)

-- `_record_watch_outcome` of a job that is stored.
unfoldable pub record_watch_outcome : Env → ℕ → Job → Tables → Tables
record_watch_outcome e now j db =
    write_watch (watch_outcome e now j (find_by (λ s. s.company_id) j.company_id db.schedules)) j db
