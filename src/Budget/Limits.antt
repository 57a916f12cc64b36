-- ===== src/Budget/Limits.antt =====
-- `_check` of backend/app/web_research_budget.py, against the totals that it compares.
use dealflow_radar.Common.{
  ℕ, ◌+◌, ◌≤◌, ◌≡◌, ◌≢◌, ◌↔◌, Option, some, Bool, true, List, ◌==◌, arith, Bool-cases, Option-cases,
  inl, inr, ok, sym, ◌∙◌,
}
use dealflow_radar.Common.Calendar.{start_of_day, start_of_month}
use dealflow_radar.Budget.Rows.{Row, sum_calls, sum_amounts, is_search}
use dealflow_radar.Budget.Admission.{
  Label, task, company_daily, company_weekly, system_weekly, system_monthly, Limits, is_task_call,
  is_search_call, search_call_count, is_cost, cost_limit, check_money, check_costs, check_searches,
  check,
}
use dealflow_radar.Budget.Sums.{without}

-- The total of the rows that pass a test is known, and at most `bound`.
abbrev pub Within : (Row → Bool) → List Row → ℕ → ℕ → Type 0
Within p rows extra bound =
    (total : ℕ) × (sum_amounts p rows ≡ some total) × (total + extra ≤ bound)

-- The ledger keeps every limit that `_check` reads, with `calls` more calls and `cost` more money.
pub record IsWithin (l : Limits) (row : Row) (self : Option ℕ) (rows : List Row) (calls cost : ℕ)
    : Type 0 where
  pub task_calls :
      l.task_baseline + sum_calls (without self (is_task_call row)) rows + calls ≤ l.task_limit
  pub daily_searches :
      is_search row.operation ≡ true
      → sum_calls (without self (is_search_call (start_of_day l.now))) rows + calls
        ≤ l.policy.daily_search_call_limit
  pub monthly_searches :
      is_search row.operation ≡ true
      → sum_calls (without self (is_search_call (start_of_month l.now))) rows + calls
        ≤ l.policy.monthly_search_call_limit
  pub money :
      row.reserved_cost ≢ some 0
      → (b : Label)
      → Within (without self (is_cost b l.now row)) rows cost (cost_limit b l.policy.cost)

-- A round of the money loop passes exactly where the total is known and leaves room.
check_money_iff :
    (l : Limits) (row : Row) (self : Option ℕ) (rows : List Row) (cost : ℕ) (b : Label)
    → (check_money l row self rows cost b ≡ ok tt)
      ↔ Within (without self (is_cost b l.now row)) rows cost (cost_limit b l.policy.cost)
unfolding check_money
check_money_iff l row self rows cost b =
    elim (Option-cases (sum_amounts (without self (is_cost b l.now row)) rows)) [
      | inl e ↦ (λ h. ground arith, λ w. ground arith)
      | inr (n, e) ↦ (λ h. (n, e, ground arith), λ w. ground arith)
    ]

abbrev AllWithin : Limits → Row → Option ℕ → List Row → ℕ → Type 0
AllWithin l row self rows cost =
    (b : Label) → Within (without self (is_cost b l.now row)) rows cost (cost_limit b l.policy.cost)

all_labels :
    (P : Label → Type 0)
    → P task
    → P company_daily
    → P company_weekly
    → P system_weekly
    → P system_monthly
    → (b : Label) → P b
all_labels P a b c d e task = a
all_labels P a b c d e company_daily = b
all_labels P a b c d e company_weekly = c
all_labels P a b c d e system_weekly = d
all_labels P a b c d e system_monthly = e

module _ (l : Limits) (row : Row) (self : Option ℕ) (rows : List Row) where
  ok-check_costs :
      (cost : ℕ)
      → check_costs l row self rows (some cost) ≡ ok tt
      → some cost ≢ some 0
      → AllWithin l row self rows cost
  unfolding check_costs
  ok-check_costs cost h n =
      all_labels
        (λ b. Within (without self (is_cost b l.now row)) rows cost (cost_limit b l.policy.cost))
        ((check_money_iff l row self rows cost task).0 (ground arith))
        ((check_money_iff l row self rows cost company_daily).0 (ground arith))
        ((check_money_iff l row self rows cost company_weekly).0 (ground arith))
        ((check_money_iff l row self rows cost system_weekly).0 (ground arith))
        ((check_money_iff l row self rows cost system_monthly).0 (ground arith))

  check_costs_of_within :
      (cost : ℕ)
      → (some cost ≢ some 0 → AllWithin l row self rows cost)
      → check_costs l row self rows (some cost) ≡ ok tt
  unfolding check_costs
  check_costs_of_within cost w = elim (Bool-cases (cost == 0)) [
    | inl e ↦ rw e
    | inr e ↦
        let a : AllWithin l row self rows cost = w (λ q. ground arith) in
        rw e (
          rw (
            (check_money_iff l row self rows cost task).1 (a task),
            (check_money_iff l row self rows cost company_daily).1 (a company_daily),
            (check_money_iff l row self rows cost company_weekly).1 (a company_weekly),
            (check_money_iff l row self rows cost system_weekly).1 (a system_weekly),
            (check_money_iff l row self rows cost system_monthly).1 (a system_monthly),
          ))
  ]

  -- `_check` passes exactly where the cost is known and the call fits under every limit.
  pub check_iff : (check l row self rows ≡ ok tt) ↔ (
      (cost : ℕ) × (row.reserved_cost ≡ some cost)
      × IsWithin l row self rows row.reserved_calls cost)
  unfolding check check_searches search_call_count
  check_iff = (
    λ h. elim (Option-cases row.reserved_cost) [
      | inl e ↦ absurd (unfold check_costs in ground arith)
      | inr (cost, e) ↦ (
        cost,
        e,
        record {
          task_calls = ground arith;
          daily_searches = λ s. ground arith;
          monthly_searches = λ s. ground arith;
          money = λ n. ok-check_costs cost (ground arith) (ground arith);
        },
      )
    ],
    λ w.
        let c = check_costs_of_within w.0 (λ n. w.2.money (λ q. n (sym w.1 ∙ q))) in
        elim (Bool-cases (is_search row.operation)) [
          | inl e ↦ ground (arith, c, w.2.daily_searches e, w.2.monthly_searches e)
          | inr e ↦ ground (arith, c)
        ],
  )
