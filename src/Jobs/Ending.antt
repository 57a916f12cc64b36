-- ===== src/Jobs/Ending.antt =====
-- How a job ends or is put off: `_cancel_job`, `_finalize`, `_defer_budget`, and the failures of
-- `_run_web_research_worker_once` before and within a step. Each works on a job of the table.
use dealflow_radar.Common.{
  ℕ, String, Option, none, some, Bool, true, false, not, ◌&&◌, ◌||◌, List, [], ◌∷◌, map, any, ◌==◌,
  ltb, is_none, is_number, is_text, or_else, same_text, if◌then◌else◌, count,
}
use dealflow_radar.Budget.Rows.{Row as UsageRow, UsageState, in_flight, settled, uncertain}
use dealflow_radar.Budget.Calls.{recover}
use dealflow_radar.Budget.Reconcile.{completed, failed, cancelled, budget_deferred}
use dealflow_radar.Personal.Data.{
  CompanyRequest, UsageRecord, RequestStatus, cancel_requested, company_request, same_operation,
  cancelled as request_cancelled, completed as request_completed, failed as request_failed,
  budget_deferred as request_deferred,
}
use dealflow_radar.Personal.Requests.{is_researching}
use dealflow_radar.Research.Data.{GroupState, Coverage, is_in, is_any_of}
use dealflow_radar.Research.Completion.{
  Overall, complete, Completion, completion_projection, limit_stops, is_failed,
}
use dealflow_radar.Jobs.Data.{
  FollowUp, JobCoverage, Job, Tables, Env, is_linked, update_active, store_job, cost_summary,
  record_watch_outcome, is_active_linked,
}

-- The end of an operation: the job is stored, and its company's schedule hears of it.
unfoldable pub write_job : Env → ℕ → Job → Tables → Tables
write_job e now j db = record_watch_outcome e now j (record db { jobs = store_job j db.jobs })

unfoldable pub is_cancel_requested : RequestStatus → Bool
is_cancel_requested cancel_requested = true
is_cancel_requested _ = false

unfoldable pub cancelled_request : ℕ → CompanyRequest → CompanyRequest
cancelled_request now r = record r {
  status = request_cancelled;
  cancelled_at = some (or_else r.cancelled_at now);
  leased_until = none;
  heartbeat_at = none;
}

unfoldable pub cancel_linked : ℕ → ℕ → CompanyRequest → CompanyRequest
cancel_linked k now r =
    if is_linked k r && (is_researching r.status || is_cancel_requested r.status)
    then cancelled_request now r
    else r

unfoldable pub cancelled_job : Env → ℕ → List UsageRow → Job → Job
cancelled_job e now ledger j = record j {
  coverage = record j.coverage {
    robots_rule_cache = none;
    cost_summary = some (cost_summary e j ledger);
  };
  status = cancelled;
  current_stage = "cancelled";
  cancelled_at = some now;
  leased_until = none;
  heartbeat_at = none;
}

-- `_cancel_job`
unfoldable pub cancel_job : Env → ℕ → Job → Tables → Tables
cancel_job e now j db =
    let ledger = (recover (e.task_key j.id) now true db.ledger).1 in
    write_job e now (cancelled_job e now ledger j)
      (record db { ledger = ledger; requests = map (cancel_linked j.id now) db.requests })

abbrev pub open_follow_ups : List String
open_follow_ups = "not_requested" ∷ "pending" ∷ []

unfoldable pub skip_follow_up : FollowUp → FollowUp
skip_follow_up f =
    if is_in open_follow_ups f.status
    then record f { status = "skipped"; reason = some "job_finalized_before_follow_up" }
    else f

-- The coverage of a job that is finalized, before its completion is projected.
unfoldable pub final_coverage : Env → ℕ → List UsageRow → Job → JobCoverage
final_coverage e now ledger j = record j.coverage {
  cost_summary = some (cost_summary e j ledger);
  robots_rule_cache = none;
  gap_follow_up = skip_follow_up j.coverage.gap_follow_up;
  completed_at = some now;
  failed_documents = count is_failed j.coverage.research.documents;
}

abbrev pub partial_stops : List String
partial_stops = "reconciled_result_unavailable" ∷ limit_stops

unfoldable pub is_complete : Overall → Bool
is_complete complete = true
is_complete _ = false

-- `partial`
unfoldable pub is_partial : JobCoverage → Completion → Bool
is_partial c done =
    if same_text c.research.research_scope "bounded_full_scope_refresh"
    then not (is_complete done.status)
    else (c.model_budget_exhausted
        || ltb 0 c.failed_documents
        || is_any_of partial_stops c.research.stop_reason)
      && c.matter_processing

unfoldable pub final_error : JobCoverage → Bool → Option String
final_error c is_part =
    if c.model_budget_exhausted
    then some "model_budget_exhausted"
    else if is_part
    then some "partial_result"
    else none

unfoldable pub finalized_job : ℕ → JobCoverage → Completion → Job → Job
finalized_job now c done j = record j {
  coverage = record c { completion = some done; completion_status = some done.status };
  status = if is_partial c done then failed else completed;
  current_stage = "completed";
  leased_until = none;
  heartbeat_at = some now;
  last_error_code = final_error c (is_partial c done);
}

unfoldable pub finalized_request : ℕ → Bool → Option String → CompanyRequest → CompanyRequest
finalized_request now is_part error r = record r {
  status = if is_part then request_failed else request_completed;
  leased_until = none;
  heartbeat_at = some now;
  last_error_code = error;
}

-- `_finalize`
unfoldable pub finalize : Env → ℕ → Job → Tables → Tables
finalize e now j db =
    let c = final_coverage e now db.ledger j in
    let done = completion_projection e.texts c.research in
    write_job e now (finalized_job now c done j) (record db {
      requests =
          update_active j.id
            (finalized_request now (is_partial c done) (final_error c (is_partial c done)))
            db.requests;
    })

unfoldable pub defer_group : GroupState → GroupState
defer_group g =
    if is_text "pending" g.status then record g { status = some "budget_deferred" } else g

unfoldable pub deferred_research : Coverage → Coverage
deferred_research c = record c {
  stop_reason = some "web_research_budget_deferred";
  search_groups = map defer_group c.search_groups;
}

unfoldable pub is_used : UsageState → Bool
is_used in_flight = true
is_used uncertain = true
is_used settled = true
is_used _ = false

unfoldable pub is_call_of : Env → String → String → UsageRow → Bool
is_call_of e task kind r =
    is_text task r.task_key && is_text kind (e.query_kind r) && is_used r.usage_state

unfoldable pub reopened : ℕ → FollowUp → FollowUp
reopened now f = record f { status = "pending"; attempts = 0; deferred_at = some now }

-- The follow-up of the stage is open again, where none of its calls was sent.
unfoldable pub reopen : Env → ℕ → Job → List UsageRow → JobCoverage → JobCoverage
reopen e now j ledger c =
    if any (is_call_of e (e.task_key j.id) j.current_stage) ledger
    then c
    else if same_text j.current_stage "gap_follow_up"
    then record c { gap_follow_up = reopened now c.gap_follow_up }
    else if same_text j.current_stage "source_recovery"
    then record c { source_recovery = reopened now c.source_recovery }
    else c

unfoldable pub deferred_coverage : Env → ℕ → Job → List UsageRow → JobCoverage
deferred_coverage e now j ledger =
    let research = deferred_research j.coverage.research in
    reopen e now j ledger (record j.coverage {
      cost_summary = some (cost_summary e j ledger);
      research = research;
      completion = some (completion_projection e.texts research);
    })

unfoldable pub deferred_job : Env → ℕ → List UsageRow → Job → Job
deferred_job e now ledger j = record j {
  status = budget_deferred;
  leased_until = none;
  heartbeat_at = some now;
  coverage = deferred_coverage e now j ledger;
  last_error_code = some "web_research_budget_deferred";
}

unfoldable pub deferred_request : ℕ → CompanyRequest → CompanyRequest
deferred_request now r = record r {
  status = request_deferred;
  leased_until = none;
  heartbeat_at = some now;
  last_error_code = some "web_research_budget_deferred";
}

-- `_defer_budget`
unfoldable pub defer_budget : Env → ℕ → Job → Tables → Tables
defer_budget e now j db =
    write_job e now (deferred_job e now db.ledger j)
      (record db { requests = update_active j.id (deferred_request now) db.requests })

-- `_void_preflight_credit`: the usage records of a request of which no call was made.
unfoldable pub is_credit : CompanyRequest → UsageRecord → Bool
is_credit r u =
    is_number r.id u.resource_id
    && (u.owner_user_id == r.owner_user_id)
    && same_operation u.operation company_request
    && is_none u.voided_at

unfoldable pub void_credit : ℕ → Job → CompanyRequest → List UsageRecord → List UsageRecord
void_credit now j r us =
    if (r.external_calls == 0) && (j.external_calls == 0)
    then map
        (λ u.
          if is_credit r u
          then record u {
            voided_at = some now;
            void_reason = some "research_network_preflight_failed";
          }
          else u)
        us
    else us

unfoldable pub void_credits : ℕ → Job → List CompanyRequest → List UsageRecord → List UsageRecord
void_credits now j [] us = us
void_credits now j (r ∷ rs) us =
    void_credits now j rs (if is_active_linked j.id r then void_credit now j r us else us)

unfoldable pub failed_preflight : Env → String → ℕ → Job → Job
failed_preflight e failure now j =
    let research = record j.coverage.research { network_preflight = some failure } in
    let done = completion_projection e.texts research in
    record j {
      status = failed;
      current_stage = "network_preflight";
      last_error_code = some failure;
      leased_until = none;
      heartbeat_at = some now;
      coverage = record j.coverage {
        research = research;
        completion = some done;
        completion_status = some done.status;
      };
    }

unfoldable pub failed_request : String → CompanyRequest → CompanyRequest
failed_request failure r = record r { status = request_failed; last_error_code = some failure }

-- A worker whose network check fails with this status; the schedule is told when the worker returns.
unfoldable pub fail_preflight : Env → String → ℕ → Job → Tables → Tables
fail_preflight e failure now j db = write_job e now (failed_preflight e failure now j) (record db {
  requests = update_active j.id (failed_request failure) db.requests;
  usage = void_credits now j db.requests db.usage;
})

unfoldable pub failed_company : Job → Job
failed_company j = record j {
  status = failed;
  last_error_code = some "company_not_verified_for_shared_research";
}

-- A job whose company is no longer public.
unfoldable pub fail_company : Env → ℕ → Job → Tables → Tables
fail_company e now j db = write_job e now (failed_company j) db

unfoldable pub failed_step : ℕ → Job → Job
failed_step now j = record j {
  status = failed;
  leased_until = none;
  heartbeat_at = some now;
  last_error_code = some "watchlist_step_failed";
}

-- A job of the watchlist whose step raised an exception; the others pass the exception on.
unfoldable pub fail_step : Env → ℕ → Job → Tables → Tables
fail_step e now j db =
    let (unknown, ledger) = recover (e.task_key j.id) now false db.ledger in
    if unknown
    then defer_budget e now j (record db { ledger = ledger })
    else write_job e now (failed_step now j) (record db { ledger = ledger })
