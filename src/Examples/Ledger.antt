-- ===== src/Examples/Ledger.antt =====
-- One search of a task, reserved at 1:00, dispatched and settled, on an otherwise empty ledger. The
-- hash keeps its text.
use dealflow_radar.Common.{
  ℕ, ◌+◌, ◌*◌, ◌≤◌, ◌≡◌, refl, ◌↔◌, ◌⊎◌, String, none, some, true, false, ◌&&◌, List, [], ◌∷◌, ok,
  err, arith, All, any,
}
use dealflow_radar.Common.Calendar.{hour}
use dealflow_radar.Budget.Rows.{
  Row, reserved, find_id, find_key, store, is_search, platform_usage, is_search_provider, sum_calls,
  sum_amounts, in_window,
}
use dealflow_radar.Budget.Admission.{
  CostPolicy, Policy, Error, check, invalid, conflicting_settlement, is_search_call, check_searches,
  check_costs, check_money, search_call_count, is_cost, is_company_cost, cost_limit, is_task_call,
}
use dealflow_radar.Budget.Sums.{Unique}
use dealflow_radar.Budget.Calls.{
  Call, millionths, call_key, call_limits, new_row, row_limits, send_row, same_call, reserve,
  dispatch, settle, recover, settle_found, settled_row, settled_cost, over_reservation, over_cost,
  reserve_key, admit_new, dispatch_row, still_reserved, is_task, add_row, upper_price,
}
use dealflow_radar.Budget.Limits.{IsWithin, check_iff}
use dealflow_radar.Budget.Reservations.{
  IsReserved, IsKept, reserve_keeps_limits, dispatch_keeps_limits,
}
use dealflow_radar.Budget.Traces.{reserves, dispatches, Reach, here, next, Reach-IsSound}
use dealflow_radar.Budget.Soundness.{IsSound}
use dealflow_radar.Budget.Recovery.{is_uncertain, IsRecovered, recover_outcome}
use dealflow_radar.Budget.Reconcile.{Operator, Statement, Platform, reconcile}
use dealflow_radar.Budget.Corrections.{IsOutcome, reconcile_lem}
use dealflow_radar.Budget.TaskBudget.{charged, AllBudgeted, Reach-charged}
use dealflow_radar.Budget.Once.{reserve_replay, settle_once}

abbrev cost_policy : CostPolicy
cost_policy = record {
  version = "v1";
  unknown_price_upper_bound = some 500;
  task_limit = 1000;
  company_daily_limit = 2000;
  company_weekly_limit = 3000;
  system_weekly_limit = 4000;
  system_monthly_limit = 5000;
}

abbrev policy : Policy
policy = record { daily_search_call_limit = 5; monthly_search_call_limit = 50; cost = cost_policy }

abbrev search : Call
search = record {
  tenant_id = 1;
  task_key = "job:1";
  subject = "company:1";
  company_id = some 1;
  provider = "web_search_baidu";
  operation = "company_discovery";
  token = "q1";
  calls = 2;
  price = some (millionths 100);
  task_limit = 4;
  task_baseline = 1;
}

abbrev same : String → String
same s = s

abbrev row : Row
row = new_row 7 hour policy search (call_key same search) 100

abbrev ledger : List Row
ledger = row ∷ []

reserves_search : reserve same 7 hour policy search [] ≡ (ok row, ledger)
unfolding reserve reserve_key admit_new add_row upper_price call_limits new_row check check_searches
    check_costs check_money sum_calls sum_amounts search_call_count is_search is_cost cost_limit
    find_key call_key
reserves_search = refl

dispatches_search :
    dispatch 7 (2 * hour) policy false ledger ≡ (ok tt, send_row (2 * hour) row ∷ [])
unfolding dispatch dispatch_row still_reserved find_id row_limits call_limits new_row check
    check_searches check_costs check_money sum_calls sum_amounts search_call_count is_search is_cost
    is_company_cost cost_limit is_task_call is_search_call platform_usage is_search_provider store
    send_row call_key in_window
dispatches_search = refl

check_iff_example : (check (call_limits hour policy search) row none [] ≡ ok tt) ↔ (
    (cost : ℕ) × (row.reserved_cost ≡ some cost)
    × IsWithin (call_limits hour policy search) row none [] row.reserved_calls cost)
check_iff_example = check_iff (call_limits hour policy search) row none []

reserve_keeps_limits_example :
    IsReserved (call_limits hour policy search) search (call_key same search) row ledger
reserve_keeps_limits_example = reserve_keeps_limits same 7 hour policy search [] tt reserves_search

ledger-Unique : Unique ledger
ledger-Unique = (tt, tt)

found : find_id 7 ledger ≡ some row
unfolding find_id new_row
found = refl

abbrev sent : List Row
sent = send_row (2 * hour) row ∷ []

dispatch_keeps_limits_example :
    (row.usage_state ≡ reserved)
    × (false ≡ false)
    × (sent ≡ store (send_row (2 * hour) row) ledger)
    × IsKept (row_limits (2 * hour) policy row) row sent
dispatch_keeps_limits_example =
    dispatch_keeps_limits 7 (2 * hour) policy false ledger ledger-Unique found dispatches_search

abbrev reserved_rows : List Row
reserved_rows = (reserve same 7 hour policy search []).1

abbrev dispatched_rows : List Row
dispatched_rows = (dispatch 7 (2 * hour) policy false reserved_rows).1

run : Reach same [] dispatched_rows
run =
    next (next here (reserves 7 hour policy search [] tt))
      (dispatches 7 (2 * hour) policy false reserved_rows)

Reach-IsSound_example : All IsSound dispatched_rows
Reach-IsSound_example = Reach-IsSound same run

abbrev budgeted_run : Reach same [] dispatched_rows
budgeted_run =
    next (next here (reserves 7 hour policy search [] tt))
      (dispatches 7 (2 * hour) policy false reserved_rows)

budgeted : AllBudgeted "job:1" "company_discovery" 4 1 budgeted_run
budgeted = ((tt, λ a b. (omega arith, omega arith)), tt)

Reach-charged_example : 1 + charged "job:1" "company_discovery" dispatched_rows ≤ 4
Reach-charged_example =
    Reach-charged "job:1" "company_discovery" 4 1 budgeted_run (omega arith) budgeted

found_key : find_key (call_key same search) ledger ≡ some row
unfolding find_key new_row call_key
found_key = refl

reserve_replay_example :
    ((reserve same 8 (3 * hour) policy search ledger).1 ≡ ledger)
    × (((e : Error) × ((reserve same 8 (3 * hour) policy search ledger).0 ≡ err e))
        ⊎ (((reserve same 8 (3 * hour) policy search ledger).0 ≡ ok row)
            × (row.usage_state ≡ reserved)
            × (same_call search row ≡ true)))
reserve_replay_example = reserve_replay same 8 (3 * hour) policy search ledger row found_key

abbrev settled_rows : List Row
settled_rows = (settle 7 (some 2) none none none (3 * hour) sent).1

settles_search : settle 7 (some 2) none none none (3 * hour) sent ≡ (ok tt, settled_rows)
unfolding settle settle_found settled_row find_id send_row new_row settled_cost over_reservation
    over_cost
settles_search = refl

settle_once_example :
    (settle 7 (some 2) none none none (4 * hour) settled_rows ≡ (ok tt, settled_rows))
    × (settle 7 (some 1) none none none (4 * hour) settled_rows
        ≡ (err (invalid conflicting_settlement), settled_rows))
    × (settle 7 (some 1) none none none (4 * hour) settled_rows
        ≡ (err (invalid conflicting_settlement), settled_rows))
settle_once_example =
    settle_once 7 2 none none none (3 * hour) sent settled_rows settles_search (4 * hour) 1
      (λ e. omega arith)

recover_outcome_example :
    ((recover "job:1" (4 * hour) false sent).0
      ≡ any
          (λ r. is_task "job:1" r && is_uncertain r.usage_state)
          (recover "job:1" (4 * hour) false sent).1)
    × All (IsRecovered "job:1" false) (recover "job:1" (4 * hour) false sent).1
recover_outcome_example = recover_outcome "job:1" (4 * hour) false sent

abbrev operator : Operator
operator = record { id = 1; is_active = true; is_platform_admin = true }

abbrev statement : Statement
statement = record {
  usage_id = 7;
  calls = some 2;
  actual_cost = millionths 150;
  reference = "invoice";
  reason = "checked";
}

abbrev platform : Platform
platform = record { rows = sent; jobs = []; requests = [] }

reconcile_lem_example :
    IsOutcome operator statement platform
      (reconcile (λ s. 0) operator statement (5 * hour) platform)
reconcile_lem_example = reconcile_lem (λ s. 0) operator statement (5 * hour) platform
