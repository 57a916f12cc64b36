-- ===== src/Personal/Requests.antt =====
-- `_create_company_request`, `cancel_personal_company_request` and
-- `decide_platform_company_request`. The texts come stripped.
use dealflow_radar.Common.{
  ℕ, ◌+◌, ◌*◌, String, Option, none, some, Bool, true, false, not, ◌&&◌, ◌||◌, List, [], ◌∷◌, ◌++◌,
  ◌==◌, ltb, if◌then◌else◌, Result, ok, err, ◌>>=◌, ◌>>◌, guard, count, pick, find_by, store_by,
  is_none, is_number, same_text, is_given,
}
use dealflow_radar.Common.Calendar.{hour}
use dealflow_radar.Budget.Reconcile.{
  JobStatus, queued, running, partial as job_partial, completed as job_completed,
  failed as job_failed, cancelled as job_cancelled, budget_deferred as job_deferred,
}
use dealflow_radar.Personal.Data.{
  Policy, Zone, company_request, CompanyRequest, UsageRecord, RequestType, RequestStatus,
  identity_checking, research_queued, researching, partial, budget_deferred, cancel_requested,
  cancelled, Job, Db, User, Error, access, not_found, transition, limit_reached, is_active_request,
  is_cancellable, same_operation,
}
use dealflow_radar.Personal.Usage.{daily_request_count, daily_limit, monthly_limit, record_usage}

-- What the caller of `_create_company_request` gives.
pub record Target : Type 0 where
  pub request_type : RequestType
  pub company_id : Option ℕ
  pub requested_name : Option String
  pub requested_credit_code : Option String
  pub target_key : String
  pub initial_status : RequestStatus

unfoldable pub later : CompanyRequest → CompanyRequest → Bool
later a b = ltb b.created_at a.created_at

unfoldable pub is_of : ℕ → String → CompanyRequest → Bool
is_of user key r = r.owner_user_id == user && same_text r.target_key key

-- `_recent_request`
unfoldable pub recent_request : ℕ → String → Db → Option CompanyRequest
unfolding later
recent_request user key db = pick (is_of user key) later db.requests

unfoldable pub is_reusable : Policy → ℕ → CompanyRequest → Bool
is_reusable p now r =
    is_active_request r.status || ltb now (r.created_at + p.request_cooldown_hours * hour)

unfoldable pub reusable : Policy → ℕ → Option CompanyRequest → Option CompanyRequest
reusable p now none = none
reusable p now (some r) = if is_reusable p now r then some r else none

unfoldable pub new_request : User → Target → ℕ → ℕ → CompanyRequest
new_request user t id now = record {
  id = id;
  owner_user_id = user.id;
  request_type = t.request_type;
  company_id = t.company_id;
  requested_name = t.requested_name;
  requested_credit_code = t.requested_credit_code;
  target_key = t.target_key;
  status = t.initial_status;
  research_job_id = none;
  external_calls = 0;
  cancel_requested_at = none;
  cancelled_at = none;
  cancellation_stage = none;
  cancellation_reason = none;
  leased_until = none;
  heartbeat_at = none;
  last_error_code = none;
  reviewed_by_id = none;
  reviewed_at = none;
  decision_reason = none;
  resolved_legal_name = none;
  resolved_credit_code = none;
  resolved_registered_region = none;
  identity_checked_at = none;
  confirmed_at = none;
  created_at = now;
}

unfoldable pub add_request : CompanyRequest → Db → Db
add_request r db = record db { requests = db.requests ++ r ∷ [] }

-- A request that is answered, and whether it was there before.
unfoldable pub create_new :
    Zone → Policy → User → Target → ℕ → ℕ → Db → Result Error (CompanyRequest × Bool × Db)
create_new z p user t id now db = do
  guard user.is_active access
  guard (ltb (daily_request_count z user.id now db) (daily_limit p user.id now db))
      (limit_reached "daily_company_request" (daily_limit p user.id now db))
  db' ←
      record_usage z user company_request "company_request" (monthly_limit p user.id now db)
        (some id) id now (add_request (new_request user t id now) db)
  ok (new_request user t id now, false, db')

unfoldable pub create_found :
    Option CompanyRequest
    → Zone
    → Policy
    → User
    → Target
    → ℕ
    → ℕ
    → Db
    → Result Error (CompanyRequest × Bool × Db)
create_found (some r) z p user t id now db = ok (r, true, db)
create_found none z p user t id now db = create_new z p user t id now db

-- `_create_company_request`; the second look, under the lock, sees the same tables. `id` is the id
-- of the new request and of its usage record.
unfoldable pub create_company_request :
    Zone → Policy → User → Target → ℕ → ℕ → Db → Result Error (CompanyRequest × Bool × Db)
create_company_request z p user t id now db =
    create_found (reusable p now (recent_request user.id t.target_key db)) z p user t id now db

-- `cancel_personal_company_request`
unfoldable pub mine : ℕ → Option CompanyRequest → Option CompanyRequest
mine user none = none
mine user (some r) = if r.owner_user_id == user then some r else none

unfoldable pub find_request : ℕ → Db → Option CompanyRequest
find_request k db = find_by (λ r. r.id) k db.requests

unfoldable pub job_of : Option ℕ → Db → Option Job
job_of none db = none
job_of (some k) db = find_by (λ j. j.id) k db.jobs

unfoldable pub is_researching : RequestStatus → Bool
is_researching research_queued = true
is_researching researching = true
is_researching partial = true
is_researching budget_deferred = true
is_researching _ = false

unfoldable pub shares_job : Job → CompanyRequest → CompanyRequest → Bool
shares_job j r x = is_number j.id x.research_job_id && not (x.id == r.id) && is_researching x.status

-- `other_active_request_count`
unfoldable pub other_requests : Job → CompanyRequest → Db → ℕ
other_requests j r db = count (shares_job j r) db.requests

unfoldable pub is_identity_checking : RequestStatus → Bool
is_identity_checking identity_checking = true
is_identity_checking _ = false

unfoldable pub is_running : JobStatus → Bool
is_running running = true
is_running queued = false
is_running job_partial = false
is_running job_completed = false
is_running job_failed = false
is_running job_cancelled = false
is_running job_deferred = false

unfoldable pub asked : ℕ → Option String → CompanyRequest → CompanyRequest
asked now reason r = record r {
  cancel_requested_at = some now;
  cancellation_stage = some r.status;
  cancellation_reason = if is_given reason then reason else r.cancellation_reason;
}

unfoldable pub ended : ℕ → CompanyRequest → CompanyRequest
ended now r = record r {
  status = cancelled;
  cancelled_at = some now;
  leased_until = none;
  heartbeat_at = none;
}

unfoldable pub waiting : CompanyRequest → CompanyRequest
waiting r = record r { status = cancel_requested }

unfoldable pub stop_job : ℕ → Job → Job
stop_job now j = record j {
  cancel_requested_at = some now;
  status = job_cancelled;
  current_stage = "cancelled";
  cancelled_at = some now;
  leased_until = none;
  heartbeat_at = none;
}

unfoldable pub ask_job : ℕ → Job → Job
ask_job now j = record j { cancel_requested_at = some now }

-- The request and its job afterwards; `others` counts the other requests that need the job.
unfoldable pub cancel_job : ℕ → ℕ → CompanyRequest → Job → CompanyRequest × Job
cancel_job now others r j =
    if is_running j.status
    then if others == 0 then (waiting r, ask_job now j) else (ended now r, j)
    else (ended now r, if others == 0 then stop_job now j else j)

unfoldable pub cancel_pair :
    ℕ → Db → CompanyRequest → Option Job → RequestStatus → CompanyRequest × Option Job
cancel_pair now db r none prior =
    if is_identity_checking prior then (waiting r, none) else (ended now r, none)
cancel_pair now db r (some j) prior =
    if is_identity_checking prior
    then (waiting r, some j)
    else paired (cancel_job now (other_requests j r db) r j)
  where
    paired : CompanyRequest × Job → CompanyRequest × Option Job
    paired (a, b) = (a, some b)

unfoldable pub is_cancelled : RequestStatus → Bool
is_cancelled cancelled = true
is_cancelled _ = false

unfoldable pub job_calls : Option Job → ℕ
job_calls none = 0
job_calls (some j) = j.external_calls

-- The usage record of a request that still counts.
unfoldable pub is_usage_of : ℕ → ℕ → UsageRecord → Bool
is_usage_of user request u =
    u.owner_user_id == user
    && same_operation u.operation company_request
    && is_number request u.resource_id
    && is_none u.voided_at

unfoldable pub voided : ℕ → UsageRecord → UsageRecord
voided now u = record u {
  voided_at = some now;
  void_reason = some "cancelled_before_external_call";
}

unfoldable pub void_first : ℕ → Option UsageRecord → List UsageRecord → List UsageRecord
void_first now none us = us
void_first now (some u) us = store_by (λ x. x.id) (voided now u) us

unfoldable pub refund : ℕ → ℕ → CompanyRequest → Option Job → List UsageRecord → List UsageRecord
refund now user r j us =
    if is_cancelled r.status && ((r.external_calls + job_calls j) == 0)
    then void_first now (pick (is_usage_of user r.id) (λ x y. false) us) us
    else us

unfoldable pub store_job : Option Job → List Job → List Job
store_job none js = js
store_job (some j) js = store_by (λ x. x.id) j js

unfoldable pub write_cancel :
    ℕ → User → CompanyRequest × Option Job → Db → CompanyRequest × Bool × Db
write_cancel now user (r, j) db = (
  r,
  false,
  record db {
    requests = store_by (λ x. x.id) r db.requests;
    jobs = store_job j db.jobs;
    usage = refund now user.id r j db.usage;
  },
)

unfoldable pub cancel_found :
    Option CompanyRequest
    → User
    → Option String
    → ℕ
    → Db
    → Result Error (CompanyRequest × Bool × Db)
cancel_found none user reason now db = err not_found
cancel_found (some r) user reason now db =
    if is_cancelled r.status
    then ok (r, true, db)
    else if not (is_cancellable r.status)
    then err (transition "request can no longer be cancelled")
    else ok (
        write_cancel now user
          (cancel_pair now db (asked now reason r) (job_of r.research_job_id db) r.status) db)

unfoldable pub cancel_company_request :
    User → ℕ → Option String → ℕ → Db → Result Error (CompanyRequest × Bool × Db)
cancel_company_request user k reason now db =
    cancel_found (mine user.id (find_request k db)) user reason now db
