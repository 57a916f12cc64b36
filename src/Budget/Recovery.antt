-- ===== src/Budget/Recovery.antt =====
-- `recover` of backend/app/web_research_budget.py: its answer and the rows that it leaves.
use dealflow_radar.Common.{
  ℕ, ◌≡◌, refl, String, none, Bool, true, false, ◌&&◌, ◌||◌, List, [], ◌∷◌, arith, any, All,
}
use dealflow_radar.Budget.Rows.{
  Row, UsageState, reserved, in_flight, uncertain, sum_calls, charged_calls, in_window,
}
use dealflow_radar.Budget.Admission.{is_search_call, search_call_count}
use dealflow_radar.Budget.Calls.{is_sent, is_task, recover_row, recover}
use dealflow_radar.Budget.Sums.{charge}

abbrev pub is_uncertain : UsageState → Bool
is_uncertain uncertain = true
is_uncertain _ = false

abbrev pub is_in_flight : UsageState → Bool
is_in_flight in_flight = true
is_in_flight _ = false

abbrev pub is_reserved : UsageState → Bool
is_reserved reserved = true
is_reserved _ = false

-- Not a row of the task in flight, nor a reserved one where the task is cancelled.
abbrev pub IsRecovered : String → Bool → Row → Type 0
IsRecovered task stop r =
    (is_task task r && (is_in_flight r.usage_state || (stop && is_reserved r.usage_state))) ≡ false

recover_row-IsRecovered :
    (task : String) (now : ℕ) (stop : Bool) (r : Row)
    → IsRecovered task stop (recover_row task now stop r)
unfolding recover_row is_task
recover_row-IsRecovered task now stop r = ground arith

sent-uncertain :
    (task : String) (now : ℕ) (stop : Bool) (r : Row)
    → (is_task task r && is_sent r.usage_state) ≡ (
        is_task task (recover_row task now stop r)
        && is_uncertain (recover_row task now stop r).usage_state)
unfolding recover_row is_task
sent-uncertain task now stop r = ground arith

-- `recover` answers whether calls of unknown outcome are left for the task; it leaves none of the
-- task's calls in flight, and where the task is cancelled none reserved.
pub recover_outcome :
    (task : String) (now : ℕ) (stop : Bool) (rows : List Row)
    → ((recover task now stop rows).0
        ≡ any (λ r. is_task task r && is_uncertain r.usage_state) (recover task now stop rows).1)
      × All (IsRecovered task stop) (recover task now stop rows).1
unfolding recover
recover_outcome task now stop [] = (refl, tt)
recover_outcome task now stop (r ∷ rs) =
    let (e, a) = recover_outcome task now stop rs in
    (rw (← e, ← sent-uncertain task now stop r) refl, (recover_row-IsRecovered task now stop r, a))

-- Neither the count nor the test of a search depends on which of the held states the row is in.
search_charge :
    (task : String) (now since : ℕ) (r : Row)
    → charge (is_search_call since) (recover_row task now false r) ≡ charge (is_search_call since) r
unfolding recover_row charged_calls is_search_call in_window
search_charge task now since r = ground arith

-- Recovering a task that is not cancelled keeps every liability: the platform's search count stays
-- as it was in every window, whatever the clock says.
recover_keeps_searches :
    (task : String) (now since : ℕ) (rows : List Row)
    → search_call_count since none (recover task now false rows).1
      ≡ search_call_count since none rows
unfolding search_call_count recover sum_calls
recover_keeps_searches task now since [] = refl
recover_keeps_searches task now since (r ∷ rs) =
    ground (arith, search_charge task now since r, recover_keeps_searches task now since rs)
