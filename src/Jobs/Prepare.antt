-- ===== src/Jobs/Prepare.antt =====
-- `_initial_coverage` and `prepare_pending_research_requests`: each request that waits gets the job that
-- researches its company, or the result of the last one.
use Prim.Native.String.{◌++◌ as text_append}
use dealflow_radar.Common.{
  ℕ, suc, ◌+◌, ◌*◌, max, String, Option, none, some, Bool, true, false, not, ◌&&◌, ◌||◌, List, [],
  ◌∷◌, ◌++◌, map, take, ◌==◌, leb, ltb, is_none, is_text, or_else, same_text, if◌then◌else◌, Result,
  ok, err, ◌>>=◌, keep, sort_by, pick, store_by,
}
use dealflow_radar.Common.Calendar.{hour}
use dealflow_radar.Budget.Reconcile.{JobStatus, queued, completed, failed, cancelled}
use dealflow_radar.Personal.Data.{
  CompanyRequest, RequestType, refresh, inclusion, RequestStatus, research_queued, in_review,
  pending, completed as request_completed, failed as request_failed,
}
use dealflow_radar.Research.Data.{
  GroupState, Coverage, Route, topics, version as plan_version, is_in,
}
use dealflow_radar.Research.Plan.{
  Assignments, groups, zip, drop_two, plan_topics, full_scope_topics, coverage_routes, plan_intent,
}
use dealflow_radar.Research.Completion.{search_group_modules}
use dealflow_radar.Research.Checks.{all_fresh, previous_successful_checks}
use dealflow_radar.Watch.Data.{is_active}
use dealflow_radar.Jobs.Data.{
  FollowUp, IdentityUsage, JobCoverage, Job, Tables, Env, is_watchlist, public_company,
  find_company,
}

pub record PreparePolicy : Type 0 where
  pub version : String
  pub incremental_research_enabled : Bool
  pub topic_planning_enabled : Bool
  pub matter_processing_enabled : Bool
  pub company_check_ttl_days : ℕ
  pub company_cooldown_hours : ℕ
  pub max_candidate_urls : ℕ

pub data Error : Type 0 where
  admin_required reference_differs : Error

-- What a run of the function is given: the frozen reference time, the text of the present time as a
-- reference, and the usage of an identity check under the id of its request.
pub record Given : Type 0 where
  pub reference_at : Option String
  pub now_text : String
  pub identity_usage : ℕ → Option IdentityUsage

unfoldable pub is_refresh : RequestType → Bool
is_refresh refresh = true
is_refresh inclusion = false

-- The requests that the function goes through.
unfoldable pub waits : PreparePolicy → CompanyRequest → RequestStatus → Bool
waits p r research_queued = true
waits p r in_review =
    p.incremental_research_enabled
    && is_text "curator_identity_confirmed" r.last_error_code
    && is_none r.cancel_requested_at
waits p r pending = is_refresh r.request_type
waits p r _ = false

unfoldable pub is_pending : PreparePolicy → CompanyRequest → Bool
is_pending p r = not (is_none r.company_id) && waits p r r.status

unfoldable pub by_creation : CompanyRequest → CompanyRequest → Bool
by_creation a b = leb a.created_at b.created_at

-- `_active_job`
unfoldable pub is_active_of : ℕ → Job → Bool
is_active_of company j = j.company_id == company && is_active j.status

unfoldable pub older : Job → Job → Bool
older a b = ltb a.created_at b.created_at

unfoldable pub active_job : ℕ → Tables → Option Job
active_job company db = pick (is_active_of company) older db.jobs

unfoldable pub is_closed : JobStatus → Bool
is_closed completed = true
is_closed failed = true
is_closed cancelled = true
is_closed _ = false

unfoldable pub newest_first : Job → Job → Bool
newest_first a b = leb b.created_at a.created_at

-- `histories`: the last rounds of a company, the newest first.
unfoldable pub histories : ℕ → Tables → List Job
histories company db =
    take 32
      (sort_by newest_first (keep (λ j. j.company_id == company && is_closed j.status) db.jobs))

abbrev pub first_job : List Job → Option Job
first_job [] = none
first_job (j ∷ js) = some j

unfoldable pub reversed : List Coverage → List Coverage
reversed [] = []
reversed (c ∷ cs) = reversed cs ++ c ∷ []

-- `cooling`
unfoldable pub is_cooling : PreparePolicy → ℕ → Job → Bool
is_cooling p now j = ltb now (j.created_at + p.company_cooldown_hours * hour)

-- A request that is answered with the last job.
unfoldable pub answered : Job → CompanyRequest → CompanyRequest
answered j r = record r {
  research_job_id = some j.id;
  status = elim j.status [ completed ↦ request_completed | _ ↦ request_failed ];
  last_error_code = j.last_error_code;
  leased_until = none;
}

abbrev pub usual_first : List String
usual_first = "financing_cap_table" ∷ "product_technology" ∷ []

-- `assignments`
unfoldable pub usual_order : List String
usual_order = usual_first ++ keep (λ c. not (is_in usual_first c)) topics

unfoldable pub assignments : PreparePolicy → Bool → List Coverage → Assignments
assignments p full_scope past =
    if full_scope
    then (if p.topic_planning_enabled
        then full_scope_topics past
        else zip (groups ++ map (text_append "scope_") (drop_two usual_order)) usual_order)
    else plan_topics past

unfoldable pub intent_of : Option (String × String) → Option String
intent_of none = none
intent_of (some o) = some o.0

-- `coverage["search_groups"]` of a planned round.
unfoldable pub planned_group : PreparePolicy → Bool → List Coverage → String × String → GroupState
planned_group p full_scope past (code, category) = record {
  code = code;
  status = some "pending";
  providers = [];
  topic_category = some category;
  topic_intent =
      if p.matter_processing_enabled && not full_scope
      then intent_of (plan_intent category past)
      else none;
  coverage_scope = some (
      if full_scope && (p.topic_planning_enabled || not (is_in groups code))
      then "bounded_category"
      else "intent_only");
  attempted_at = none;
  checked_at = none;
  subject_results = 0;
}

unfoldable pub pending_group : String → GroupState
pending_group code = record {
  code = code;
  status = some "pending";
  providers = [];
  topic_category = none;
  topic_intent = none;
  coverage_scope = none;
  attempted_at = none;
  checked_at = none;
  subject_results = 0;
}

-- `source_routes`; `short` is `short_topics`.
unfoldable pub route : String → String → Route
route code category = record { category = category; is_configured = true; search_group = some code }

unfoldable pub source_routes : Bool → List Route
source_routes short =
    (if short
      then map (route "business_capital") ("financing_cap_table" ∷ [])
        ++ map (route "technology_risk_exit") ("product_technology" ∷ [])
      else map (route "business_capital") (search_group_modules "business_capital")
        ++ map (route "technology_risk_exit") (search_group_modules "technology_risk_exit"))
    ++ record { category = "information_quality"; is_configured = false; search_group = none } ∷ []

unfoldable pub scope_of : CompanyRequest → String
scope_of r =
    if is_refresh r.request_type then "bounded_full_scope_refresh" else "limited_scope_check"

unfoldable pub not_requested : FollowUp
not_requested = record { status = "not_requested"; attempts = 0; reason = none; deferred_at = none }

-- The research of a new round without a plan: `_initial_coverage` with the scope of the request.
unfoldable pub initial_research : PreparePolicy → CompanyRequest → Coverage
initial_research p r = record {
  search_groups = map pending_group groups;
  documents = [];
  candidates = [];
  deferred_candidates = [];
  source_routes = source_routes p.incremental_research_enabled;
  network_preflight = none;
  query_strategy_version = some (
      if p.incremental_research_enabled
      then "verified-short-business-topics-v2"
      else "legal-name-only");
  research_scope = scope_of r;
  stop_reason = none;
  previous_successful_checks = [];
}

unfoldable pub initial_coverage : Given → CompanyRequest → Option ℕ → Coverage → JobCoverage
initial_coverage g r limit research = record {
  research = research;
  reference_at = or_else g.reference_at g.now_text;
  candidate_index = 0;
  document_limit = limit;
  identity_usage = g.identity_usage r.id;
  matter_processing = false;
  model_budget_exhausted = false;
  source_recovery = not_requested;
  gap_follow_up = not_requested;
  budget_baseline = none;
  stats = record { search_calls = 0; fetch_calls = 0; model_calls = 0 };
  started_at = none;
  step_started_at = none;
  completed_at = none;
  failed_documents = 0;
  completion = none;
  completion_status = none;
  cost_summary = none;
  robots_rule_cache = none;
  monitor = none;
  semantic_before = none;
  semantic_after = none;
  business_change = none;
}

-- The research of a new round with a plan.
unfoldable pub planned_research : Env → PreparePolicy → CompanyRequest → List Job → Coverage
planned_research e p r past =
    let full_scope = is_refresh r.request_type in
    let newest = map (λ (j : Job). j.coverage.research) past in
    let plan = assignments p full_scope (reversed newest) in
    record (initial_research p r) {
      previous_successful_checks = previous_successful_checks e.texts newest;
      query_strategy_version = some plan_version;
      source_routes = coverage_routes plan;
      search_groups = map (planned_group p full_scope (reversed newest)) plan;
    }

unfoldable pub is_planning : PreparePolicy → CompanyRequest → Bool
is_planning p r =
    p.incremental_research_enabled && (is_refresh r.request_type || p.topic_planning_enabled)

unfoldable pub new_coverage : Env → PreparePolicy → Given → CompanyRequest → List Job → JobCoverage
new_coverage e p g r past =
    if is_planning p r
    then initial_coverage g r (some p.max_candidate_urls) (planned_research e p r past)
    else initial_coverage g r none (initial_research p r)

abbrev pub first_code : List GroupState → String
first_code [] = ""
first_code (g ∷ gs) = g.code

-- Stands for `uuid4`: an id that no job has.
unfoldable pub fresh_id : List Job → ℕ
fresh_id [] = 0
fresh_id (j ∷ js) = suc (max j.id (fresh_id js))

unfoldable pub new_job : Env → PreparePolicy → Given → ℕ → CompanyRequest → ℕ → Tables → Job
new_job e p g now r company db =
    let coverage = new_coverage e p g r (histories company db) in
    record {
      id = fresh_id db.jobs;
      company_id = company;
      created_by_user_id = r.owner_user_id;
      status = queued;
      current_stage = text_append "search:" (first_code coverage.research.search_groups);
      policy_version = p.version;
      trigger_type = "manual";
      coverage = coverage;
      external_calls = 0;
      cancel_requested_at = none;
      cancelled_at = none;
      leased_until = none;
      heartbeat_at = none;
      last_error_code = none;
      created_at = now;
    }

unfoldable pub attached : ℕ → CompanyRequest → CompanyRequest
attached k r = record r {
  research_job_id = some k;
  status = research_queued;
  last_error_code = none;
}

unfoldable pub unverified : CompanyRequest → CompanyRequest
unverified r = record r {
  status = request_failed;
  last_error_code = some "company_not_verified_for_shared_research";
}

unfoldable pub store_request : CompanyRequest → Tables → Tables
store_request r db = record db { requests = store_by (λ x. x.id) r db.requests }

-- The last job of the company answers the request, where its checks are fresh or it is recent.
unfoldable pub answers : Env → PreparePolicy → ℕ → CompanyRequest → List Job → Option Job
answers e p now r past = elim (first_job past) [
  | none ↦ none
  | some j ↦
      if is_planning p r
        && (all_fresh e.texts p.company_check_ttl_days now
              (map (λ (i : Job). i.coverage.research) past)
            || is_cooling p now j)
      then some j
      else none
]

unfoldable pub prepare_new :
    Option Job → Env → PreparePolicy → Given → ℕ → ℕ → CompanyRequest → Tables → ℕ × Tables
prepare_new (some j) e p g now company r db = (1, store_request (answered j r) db)
prepare_new none e p g now company r db =
    let j = new_job e p g now r company db in
    (1, store_request (attached j.id r) (record db { jobs = db.jobs ++ j ∷ [] }))

unfoldable pub differs : Option String → String → Bool
differs none t = false
differs (some s) t = not (same_text t s)

-- How many requests were prepared, and the tables.
unfoldable pub prepare_for :
    Option Job
    → Env
    → PreparePolicy
    → Given
    → ℕ
    → ℕ
    → CompanyRequest
    → Tables
    → Result Error (ℕ × Tables)
prepare_for (some j) e p g now company r db =
    if is_watchlist j
    then ok (0, db)
    else if differs g.reference_at j.coverage.reference_at
    then err reference_differs
    else ok (1, store_request (attached j.id r) db)
prepare_for none e p g now company r db =
    ok (prepare_new (answers e p now r (histories company db)) e p g now company r db)

-- The body of the loop over the requests.
unfoldable pub prepare_request :
    Env → PreparePolicy → Given → ℕ → CompanyRequest → Tables → Result Error (ℕ × Tables)
prepare_request e p g now r db =
    if not (public_company (find_company r.company_id db))
    then ok (0, store_request (unverified r) db)
    else (let company = or_else r.company_id 0 in
        prepare_for (active_job company db) e p g now company r db)

unfoldable pub added : ℕ → Result Error (ℕ × Tables) → Result Error (ℕ × Tables)
added n (ok (m, db)) = ok (n + m, db)
added n (err e) = err e

unfoldable pub prepare_all :
    Env → PreparePolicy → Given → ℕ → List CompanyRequest → Tables → Result Error (ℕ × Tables)
prepare_all e p g now [] db = ok (0, db)
prepare_all e p g now (r ∷ rs) db = do
  first ← prepare_request e p g now r db
  added first.0 (prepare_all e p g now rs first.1)

-- `prepare_pending_research_requests`; `admin` is the answer of `user_has_role`.
unfoldable pub prepare_pending_research_requests :
    Bool → Env → PreparePolicy → Given → ℕ → Tables → Result Error (ℕ × Tables)
prepare_pending_research_requests admin e p g now db =
    if not admin
    then err admin_required
    else prepare_all e p g now (sort_by by_creation (keep (is_pending p) db.requests)) db
