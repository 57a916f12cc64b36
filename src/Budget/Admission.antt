-- ===== src/Budget/Admission.antt =====
-- `_check`: the limits that a reservation has to meet, and the errors that it raises. The policies
-- are those of backend/app/config.py, as far as this module reads them.
use dealflow_radar.Common.{
  ℕ, ◌+◌, String, Option, none, some, Bool, true, false, ◌&&◌, ◌||◌, List, leb, ◌==◌, is_text,
  sql_eq, is_none, if◌then◌else◌, Result, ok, err, ◌>>◌, guard,
}
use dealflow_radar.Common.Calendar.{start_of_day, start_of_week, start_of_month}
use dealflow_radar.Budget.Rows.{
  UsageState, Row, scope, is_search, is_search_provider, platform_usage, in_window, sum_calls,
  sum_amounts, other,
}

-- `WebResearchCostPolicy`
pub record CostPolicy : Type 0 where
  pub version : String
  pub unknown_price_upper_bound : Option ℕ
  pub task_limit : ℕ
  pub company_daily_limit : ℕ
  pub company_weekly_limit : ℕ
  pub system_weekly_limit : ℕ
  pub system_monthly_limit : ℕ

-- `WebResearchPolicy`
pub record Policy : Type 0 where
  pub daily_search_call_limit : ℕ
  pub monthly_search_call_limit : ℕ
  pub cost : CostPolicy

pub data Label : Type 0 where
  task company_daily company_weekly system_weekly system_monthly : Label

-- `WebResearchBudgetDeferred`, by its message.
pub data Deferral : Type 0 where
  task_call_limit daily_search_limit monthly_search_limit price_unknown cancelled : Deferral
  needs_reconciliation : Label → Deferral
  money_limit : Label → Deferral
  already : UsageState → Deferral

-- `ValueError`, by its message.
pub data Invalid : Type 0 where
  reservation_counts key_reused unit_price settlement_counts conflicting_settlement : Invalid
  only_dispatched reference_required valid_cost usage_not_found recover_first : Invalid
  conflicting_reconciliation confirmed_calls : Invalid

-- An exception; `missing_row` is that of `session.refresh` for a row that is not there.
pub data Error : Type 0 where
  deferred : Deferral → Error
  invalid : Invalid → Error
  permission missing_row type_error : Error

-- `UsageLedger.company_id == row.company_id if row.company_id else False`, or NULL.
unfoldable pub same_company : Option ℕ → Option ℕ → Bool
same_company mine none = true
same_company none (some c) = false
same_company (some m) (some c) = c == m

-- The rows of the task's budget of calls.
unfoldable pub is_task_call : Row → Row → Bool
is_task_call row r =
    is_text scope r.quota_scope
    && sql_eq row.task_key r.task_key
    && is_text row.operation (some r.operation)

-- The rows that `search_call_count` adds up.
unfoldable pub is_search_call : ℕ → Row → Bool
is_search_call since r = is_search_provider r.provider && is_search r.operation && in_window since r

-- `search_call_count`; the limits hold over all tasks and tenants.
unfoldable pub search_call_count : ℕ → Option ℕ → List Row → ℕ
unfolding is_search_call
search_call_count since exclude rows =
    sum_calls (λ r. is_search_call since r && other exclude r) rows

unfoldable pub is_company_cost : Row → Row → Bool
is_company_cost row r =
    sql_eq row.subject_key r.subject_key
    || (is_none r.quota_scope && same_company row.company_id r.company_id)

-- The instants that `_check` counts from.
unfoldable pub since : Label → ℕ → ℕ
since task now = 0
since company_daily now = start_of_day now
since company_weekly now = start_of_week now
since system_weekly now = start_of_week now
since system_monthly now = start_of_month now

-- The rows whose cost counts against a limit of money.
unfoldable pub is_cost : Label → ℕ → Row → Row → Bool
is_cost task now row r = platform_usage r && sql_eq row.task_key r.task_key
is_cost company_daily now row r =
    platform_usage r && is_company_cost row r && in_window (since company_daily now) r
is_cost company_weekly now row r =
    platform_usage r && is_company_cost row r && in_window (since company_weekly now) r
is_cost system_weekly now row r = platform_usage r && in_window (since system_weekly now) r
is_cost system_monthly now row r = platform_usage r && in_window (since system_monthly now) r

unfoldable pub cost_limit : Label → CostPolicy → ℕ
cost_limit task c = c.task_limit
cost_limit company_daily c = c.company_daily_limit
cost_limit company_weekly c = c.company_weekly_limit
cost_limit system_weekly c = c.system_weekly_limit
cost_limit system_monthly c = c.system_monthly_limit

-- One round of the loop over the limits: `total` is `none` where an entry is unpriced.
within_money : Label → ℕ → ℕ → Option ℕ → Result Error (Unit {0})
within_money label limit cost none = err (deferred (needs_reconciliation label))
within_money label limit cost (some total) =
    guard (leb (total + cost) limit) (deferred (money_limit label))

-- What `_check` is called with, beside the row and the ledger.
pub record Limits : Type 0 where
  pub now : ℕ
  pub policy : Policy
  pub task_limit : ℕ
  pub task_baseline : ℕ

unfoldable pub check_money :
    Limits → Row → Option ℕ → List Row → ℕ → Label → Result Error (Unit {0})
unfolding within_money
check_money l row self rows cost label =
    within_money label (cost_limit label l.policy.cost) cost
      (sum_amounts (λ r. is_cost label l.now row r && other self r) rows)

unfoldable pub check_costs : Limits → Row → Option ℕ → List Row → Option ℕ → Result Error (Unit {0})
check_costs l row self rows none = err (deferred price_unknown)
check_costs l row self rows (some cost) = if cost == 0 then ok tt else do
  check_money l row self rows cost task
  check_money l row self rows cost company_daily
  check_money l row self rows cost company_weekly
  check_money l row self rows cost system_weekly
  check_money l row self rows cost system_monthly

unfoldable pub check_searches : Limits → Row → Option ℕ → List Row → Result Error (Unit {0})
check_searches l row self rows =
    if is_search row.operation
    then (do
      guard
          (leb (search_call_count (start_of_day l.now) self rows + row.reserved_calls)
            l.policy.daily_search_call_limit)
          (deferred daily_search_limit)
      guard
          (leb (search_call_count (start_of_month l.now) self rows + row.reserved_calls)
            l.policy.monthly_search_call_limit)
          (deferred monthly_search_limit))
    else ok tt

-- `_check`; `self` is the row's id where it is in the ledger.
unfoldable pub check : Limits → Row → Option ℕ → List Row → Result Error (Unit {0})
check l row self rows = do
  guard
      (leb
        (l.task_baseline
          + sum_calls (λ r. is_task_call row r && other self r) rows
          + row.reserved_calls)
        l.task_limit)
      (deferred task_call_limit)
  check_searches l row self rows
  check_costs l row self rows row.reserved_cost
