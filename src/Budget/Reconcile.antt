-- ===== src/Budget/Reconcile.antt =====
-- `reconcile`: an administrator states the cost of a call whose outcome or price is not known. The
-- texts of a statement come stripped; the number of a UUID text is a parameter.
use Prim.Native.String.{len, slice}
use text.Mathlib.Text.{starts_with}
use dealflow_radar.Common.{
  ℕ, ◌+◌, String, Option, none, some, Bool, true, false, not, ◌&&◌, List, [], ◌∷◌, ◌==◌, map,
  is_text, is_number, same_text, or_else, if◌then◌else◌, Result, ok, err, ◌>>=◌, ◌>>◌, guard,
}
use dealflow_radar.Budget.Rows.{
  Row, UsageState, legacy, settled, uncertain, CostStatus, actual, Audit, find_id, store,
  platform_usage,
}
use dealflow_radar.Budget.Admission.{
  Error, invalid, permission, reference_required, valid_cost, usage_not_found, recover_first,
  conflicting_reconciliation, confirmed_calls,
}
use dealflow_radar.Budget.Calls.{Decimal, millionths, unusable, storable_cost, settled_row, is_task}
use dealflow_radar.Budget.Summary.{total}

pub data JobStatus : Type 0 where
  queued running partial completed failed cancelled budget_deferred : JobStatus

-- The counters `search_calls`, `fetch_calls` and `model_calls` of a job's coverage.
pub record Stats : Type 0 where
  pub search_calls : ℕ
  pub fetch_calls : ℕ
  pub model_calls : ℕ

-- `CompanyResearchJob`, as far as a reconciliation changes it.
pub record Job : Type 0 where
  pub id : ℕ
  pub status : JobStatus
  pub current_stage : String
  pub leased_until : Option ℕ
  pub external_calls : ℕ
  pub baseline : Stats
  pub stats : Stats
  pub stop_reason : Option String

-- `PersonalCompanyRequest`
pub record Request : Type 0 where
  pub research_job_id : Option ℕ
  pub status : JobStatus
  pub leased_until : Option ℕ

pub record Platform : Type 0 where
  pub rows : List Row
  pub jobs : List Job
  pub requests : List Request

pub record Operator : Type 0 where
  pub id : ℕ
  pub is_active : Bool
  pub is_platform_admin : Bool

-- The arguments of `reconcile`, the texts stripped; `calls` is `none` where it is no count.
pub record Statement : Type 0 where
  pub usage_id : ℕ
  pub calls : Option ℕ
  pub actual_cost : Decimal
  pub reference : String
  pub reason : String

abbrev is_deferred : JobStatus → Bool
is_deferred budget_deferred = true
is_deferred _ = false

abbrev is_blank : String → Bool
is_blank t = same_text t ""

-- `row.task_key.startswith("web-research:")`
unfoldable pub is_research : Option String → Bool
is_research none = false
is_research (some t) = starts_with t "web-research:"

-- `task_key.split(":", 1)[1]`
unfoldable pub job_text : Option String → String
job_text none = ""
job_text (some t) = slice t 13 (len t)

find_job : ℕ → List Job → Option Job
find_job k [] = none
find_job k (j ∷ js) = if j.id == k then some j else find_job k js

stated : Option ℕ → Decimal → Result Error (ℕ × ℕ)
stated none cost = err (invalid valid_cost)
stated (some n) unusable = err (invalid valid_cost)
stated (some n) (millionths c) =
    if storable_cost (millionths c) then ok (n, c) else err (invalid valid_cost)

-- The first guards, in the order of the code.
unfoldable pub accepted : Operator → Statement → Result Error (ℕ × ℕ)
unfolding stated
accepted user s = do
  guard (user.is_active && user.is_platform_admin) permission
  guard (not (is_blank s.reference) && not (is_blank s.reason)) (invalid reference_required)
  stated s.calls s.actual_cost

audit_entry : Operator → Statement → ℕ → Row → Audit
audit_entry user s now r = record {
  previous_state = r.usage_state;
  previous_cost_status = r.cost_status;
  previous_calls = r.external_calls;
  previous_amount = r.estimated_cost;
  operator_id = user.id;
  reason = s.reason;
  at = now;
}

abbrev is_actual : CostStatus → Bool
is_actual actual = true
is_actual _ = false

-- The row with its stated cost, and whether a job may wait for it.
price_row : UsageState → ℕ → ℕ → Operator → Statement → ℕ → Row → Result Error Row
unfolding audit_entry
price_row legacy calls cost user s now r =
    if is_number calls r.external_calls
    then ok (record r {
      estimated_cost = some cost;
      cost_status = actual;
      settled_at = some now;
      metrics = record {
        task_limit = r.metrics.task_limit;
        task_baseline = r.metrics.task_baseline;
        settlement_receipt = some s.reference;
        reservation_exceeded = r.metrics.reservation_exceeded;
        reconciliation = some (audit_entry user s now r);
      };
    })
    else err (invalid confirmed_calls)
price_row settled calls cost user s now r =
    if is_number calls r.external_calls
    then settled_row (some calls) (some (millionths cost)) (some s.reference)
        (some (audit_entry user s now r)) now (record r { usage_state = uncertain })
    else err (invalid confirmed_calls)
price_row uncertain calls cost user s now r =
    settled_row (some calls) (some (millionths cost)) (some s.reference)
      (some (audit_entry user s now r)) now r
price_row _ calls cost user s now r = err (invalid recover_first)

abbrev is_open_state : UsageState → Bool
is_open_state uncertain = true
is_open_state settled = true
is_open_state legacy = true
is_open_state _ = false

-- The row after the reconciliation, and whether it was settled now.
unfoldable pub reconcile_row : ℕ → ℕ → Operator → Statement → ℕ → Row → Result Error (Row × Bool)
unfolding price_row
reconcile_row calls cost user s now r =
    if not (is_open_state r.usage_state)
    then err (invalid recover_first)
    else if is_actual r.cost_status
    then (if is_number calls r.external_calls && is_number cost r.estimated_cost
        then ok (r, false)
        else err (invalid conflicting_reconciliation))
    else do r' ← price_row r.usage_state calls cost user s now r; ok (r', true)

calls_of : String → String → List Row → ℕ
calls_of task operation rows =
    total (λ r. is_task task r && is_text operation (some r.operation))
      (λ r. or_else r.external_calls 0) rows

-- The counters recomputed from the ledger.
recount : Stats → String → List Row → Stats
unfolding calls_of
recount baseline task rows = record {
  search_calls = baseline.search_calls + calls_of task "company_discovery" rows;
  fetch_calls = baseline.fetch_calls + calls_of task "evidence_fetch" rows;
  model_calls = baseline.model_calls + calls_of task "matter_extraction" rows;
}

unfoldable pub close_job : String → List Row → Job → Job
unfolding recount
close_job task rows j =
    let stats = recount j.baseline task rows in
    record j {
      stats = stats;
      external_calls = stats.search_calls + stats.fetch_calls + stats.model_calls;
      stop_reason = some "reconciled_result_unavailable";
      status = partial;
      current_stage = "finalize";
      leased_until = none;
    }

store_job : Job → List Job → List Job
store_job j [] = []
store_job j (k ∷ js) = if k.id == j.id then j ∷ js else k ∷ store_job j js

unfoldable pub close_request : ℕ → Request → Request
close_request job q =
    if is_number job q.research_job_id && is_deferred q.status
    then record q { status = partial; leased_until = none }
    else q

-- The job of a call that was uncertain becomes partial, with its requests, where it waits for budget.
unfoldable pub close_waiting : Option Job → Row → Platform → Platform
unfolding store_job
close_waiting none r p = p
close_waiting (some j) r p =
    if is_deferred j.status
    then record p {
      jobs = store_job (close_job (or_else r.task_key "") p.rows j) p.jobs;
      requests = map (close_request j.id) p.requests;
    }
    else p

is_uncertain : UsageState → Bool
is_uncertain uncertain = true
is_uncertain _ = false

unfoldable pub written : (String → ℕ) → Row → Row × Bool → Platform → Platform
unfolding is_uncertain find_job
written uuid r (r', settled_now) p =
    let q : Platform = record p { rows = store r' p.rows } in
    if settled_now && is_uncertain r.usage_state && is_research r.task_key
    then close_waiting (find_job (uuid (job_text r.task_key)) p.jobs) r' q
    else q

unfoldable pub platform_row : Option Row → Result Error Row
platform_row none = err (invalid usage_not_found)
platform_row (some r) = if platform_usage r then ok r else err (invalid usage_not_found)

unfoldable pub outcome :
    Row → Result Error (Row × Bool) → (String → ℕ) → Platform → Result Error Row × Platform
outcome r (err e) uuid p = (err e, p)
outcome r (ok (r', settled_now)) uuid p = (ok r', written uuid r (r', settled_now) p)

unfoldable pub reconcile_found :
    Result Error Row
    → (String → ℕ)
    → ℕ
    → ℕ
    → Operator
    → Statement
    → ℕ
    → Platform
    → Result Error Row × Platform
reconcile_found (err e) uuid calls cost user s now p = (err e, p)
reconcile_found (ok r) uuid calls cost user s now p =
    outcome r (reconcile_row calls cost user s now r) uuid p

unfoldable pub reconcile_accepted :
    Result Error (ℕ × ℕ)
    → (String → ℕ)
    → Operator
    → Statement
    → ℕ
    → Platform
    → Result Error Row × Platform
unfolding platform_row
reconcile_accepted (err e) uuid user s now p = (err e, p)
reconcile_accepted (ok (calls, cost)) uuid user s now p =
    reconcile_found (platform_row (find_id s.usage_id p.rows)) uuid calls cost user s now p

-- `reconcile`; an exception leaves the platform as it was.
unfoldable pub reconcile :
    (String → ℕ) → Operator → Statement → ℕ → Platform → Result Error Row × Platform
reconcile uuid user s now p = reconcile_accepted (accepted user s) uuid user s now p
