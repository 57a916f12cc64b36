-- ===== src/Examples/Researchers.antt =====
-- A job that a worker has leased for a request, and what the worker does with it.
use dealflow_radar.Common.{◌≡◌, ◌↔◌, refl, ◌⊎◌, some, none, true, false, [], ◌∷◌, All, find_by}
use dealflow_radar.Budget.Reconcile.{running, completed as job_completed}
use dealflow_radar.Personal.Data.{CompanyRequest, refresh, researching}
use dealflow_radar.Personal.Requests.{is_researching}
use dealflow_radar.Research.Data.{Texts, Coverage, topics}
use dealflow_radar.Research.Completion.{completed, row}
use dealflow_radar.Watch.Data.{is_active}
use dealflow_radar.Jobs.Data.{
  FollowUp, JobCoverage, Job, Tables, Env, find_job, is_watchlist, is_active_linked,
}
use dealflow_radar.Jobs.Ending.{finalize, fail_company}
use dealflow_radar.Jobs.Lease.{LeasePolicy, lease_job}
use dealflow_radar.Jobs.Served.{
  IsConsistent, IsServed, is_served, served_by, has_active, is_open_manual,
}
use dealflow_radar.Jobs.Reach.{Step, Reach, Reach-IsConsistent}
use dealflow_radar.Jobs.Stranded.{fail_company_strands}
use dealflow_radar.Jobs.Finished.{finalize_complete}

abbrev texts : Texts
texts = record {
  instant = λ s. none;
  isoformat = λ t. "";
  path = λ u. u;
  leaf = λ p. p;
  signature = λ t. t;
}

abbrev env : Env
env = record {
  texts = texts;
  task_key = λ k. "web-research:7";
  query_kind = λ r. none;
  semantic_version = λ k. "v1";
  targets = [];
  gate = true;
  watch = record {
    enabled = true;
    version = "w1";
    interval_days = 7;
    max_companies_per_run = 5;
    cooldown_hours = 6;
    failure_backoff_max_days = 7;
    no_change_backoff_after = 2;
    max_interval_days = 30;
  };
}

abbrev research : Coverage
research = record {
  search_groups = [];
  documents = [];
  candidates = [];
  deferred_candidates = [];
  source_routes = [];
  network_preflight = some "research_network_ready";
  query_strategy_version = some "topic-research-v1";
  research_scope = "bounded_full_scope_refresh";
  stop_reason = none;
  previous_successful_checks = [];
}

abbrev follow_up : FollowUp
follow_up = record { status = "not_requested"; attempts = 0; reason = none; deferred_at = none }

abbrev coverage : JobCoverage
coverage = record {
  research = research;
  reference_at = "";
  candidate_index = 0;
  document_limit = none;
  identity_usage = none;
  matter_processing = false;
  model_budget_exhausted = false;
  source_recovery = follow_up;
  gap_follow_up = follow_up;
  budget_baseline = none;
  stats = record { search_calls = 0; fetch_calls = 0; model_calls = 0 };
  started_at = none;
  step_started_at = none;
  completed_at = none;
  failed_documents = 0;
  completion = none;
  completion_status = none;
  cost_summary = none;
  robots_rule_cache = none;
  monitor = none;
  semantic_before = none;
  semantic_after = none;
  business_change = none;
}

abbrev job : Job
job = record {
  id = 7;
  company_id = 5;
  created_by_user_id = 2;
  status = running;
  current_stage = "finalize";
  policy_version = "p1";
  trigger_type = "manual";
  coverage = coverage;
  external_calls = 0;
  cancel_requested_at = none;
  cancelled_at = none;
  leased_until = some 100;
  heartbeat_at = some 1;
  last_error_code = none;
  created_at = 0;
}

abbrev request : CompanyRequest
request = record {
  id = 11;
  owner_user_id = 2;
  request_type = refresh;
  company_id = some 5;
  requested_name = none;
  requested_credit_code = none;
  target_key = "company:5";
  status = researching;
  research_job_id = some 7;
  external_calls = 0;
  cancel_requested_at = none;
  cancelled_at = none;
  cancellation_stage = none;
  cancellation_reason = none;
  leased_until = some 100;
  heartbeat_at = some 1;
  last_error_code = none;
  reviewed_by_id = none;
  reviewed_at = none;
  decision_reason = none;
  resolved_legal_name = none;
  resolved_credit_code = none;
  resolved_registered_region = none;
  identity_checked_at = none;
  confirmed_at = none;
  created_at = 0;
}

abbrev tables : Tables
tables = record {
  companies = [];
  requests = request ∷ [];
  jobs = job ∷ [];
  usage = [];
  ledger = [];
  schedules = [];
}

job_found : find_job 7 tables.jobs ≡ some job
unfolding find_job find_by
job_found = refl

tables-IsConsistent : IsConsistent tables
unfolding IsConsistent IsServed is_served served_by has_active is_open_manual is_active is_watchlist
    is_researching
tables-IsConsistent = ((tt, tt), (refl, tt))

abbrev lease_policy : LeasePolicy
lease_policy = record { version = "p1"; worker_lease_seconds = 60; watchlist_enabled = true }

finalized : Reach env tables (lease_job env lease_policy 60 (finalize env 50 job tables)).1
finalized =
    Reach.then tables (finalize env 50 job tables) _ (Step.finalizes 50 job tables job_found) (
      Reach.then (finalize env 50 job tables) _ _
        (Step.leases lease_policy 60 (finalize env 50 job tables)) (Reach.here _))

Reach-IsConsistent_example :
    IsConsistent (lease_job env lease_policy 60 (finalize env 50 job tables)).1
Reach-IsConsistent_example = Reach-IsConsistent env tables _ finalized tables-IsConsistent

fail_company_strands_example :
    ((fail_company env 50 job tables).requests ≡ request ∷ [])
    × All
        (λ r.
          (is_active_linked 7 r ≡ false)
          ⊎ (is_served (fail_company env 50 job tables).jobs r ≡ false))
        (request ∷ [])
fail_company_strands_example = fail_company_strands env 50 job tables job_found

finalize_complete_example :
    (k : Job) × (find_job 7 (finalize env 50 job tables).jobs ≡ some k)
    × ((k.status ≡ job_completed) ↔ All (λ t. (row texts research t).status ≡ completed) topics)
finalize_complete_example = finalize_complete env 50 job job tables job_found refl
