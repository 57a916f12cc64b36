-- ===== src/Budget/Reservations.antt =====
-- `reserve` and `dispatch` of backend/app/web_research_budget.py, and the limits of `_check`.
use dealflow_radar.Common.{
  ℕ, ◌+◌, ◌≤◌, ◌≡◌, refl, String, Option, none, some, Bool, true, false, List, ◌∷◌, ◌==◌, arith,
  eq_refl, Bool-cases, inl, inr, Result, Result-cases, ok, err, sym, ◌∙◌, ap,
}
use mathlib.Core.Path.{subst}
use dealflow_radar.Common.Calendar.{start_of_day, start_of_month}
use dealflow_radar.Budget.Rows.{
  Row, charged_calls, amount, sum_calls, find_key, find_id, store, reserved,
}
use dealflow_radar.Budget.Admission.{
  Policy, Limits, is_task_call, is_search_call, is_cost, cost_limit, check, Error,
}
use dealflow_radar.Budget.Sums.{
  Unique, without, charge, sum_calls-without-none, sum_calls-store, sum_amounts-store,
  sum_amounts-without-none, sum_amounts-cons, find_id-find_key, store-find,
}
use dealflow_radar.Budget.Calls.{
  Call, call_limits, new_row, upper_price, admit_again, admit_new, reserve_key, reserve, add_row,
  call_key, same_call, still_reserved, row_limits, send_row, dispatch, dispatch_row,
}
use dealflow_radar.Budget.Limits.{Within, IsWithin, check_iff}

-- Every limit holds of the ledger as it stands.
abbrev pub IsKept : Limits → Row → List Row → Type 0
IsKept l row rows = IsWithin l row none rows 0 0

Within-cons :
    (p : Row → Bool) (s : Row) (rows : List Row) (cost bound : ℕ)
    → amount s ≡ some cost
    → Within (without none p) rows cost bound
    → Within (without none p) (s ∷ rows) 0 bound
Within-cons p s rows cost bound a (total, e, le) = elim (Bool-cases (p s)) [
  | inl t ↦ (cost + total, rw sum_amounts-cons (rw (e, t, a)), omega arith)
  | inr f ↦ (total, rw sum_amounts-cons (rw (e, f) (ap some (omega arith))), omega arith)
]

Within-store :
    (p : Row → Bool) (s r : Row) (rows : List Row) (cost bound : ℕ)
    → Unique rows
    → find_id s.id rows ≡ some r
    → amount s ≡ some cost
    → Within (without (some s.id) p) rows cost bound
    → Within (without none p) (store s rows) 0 bound
Within-store p s r rows cost bound u f a (total, e, le) = elim (Bool-cases (p s)) [
  | inl t ↦ (
    cost + total,
    sum_amounts-without-none p (store s rows) ∙ sum_amounts-store p rows r s u f ∙ (rw (e, t, a)),
    omega arith,
  )
  | inr n ↦ (
    total,
    sum_amounts-without-none p (store s rows)
        ∙ sum_amounts-store p rows r s u f
        ∙ (rw (e, n) (ap some (omega arith))),
    omega arith,
  )
]

charge-le : (p : Row → Bool) (s : Row) → charge p s ≤ charged_calls s
charge-le p s = ground arith

module _ (l : Limits) (row s : Row) (rows : List Row) (cost : ℕ) (a : amount s ≡ some cost) where
  IsKept-cons : IsWithin l row none rows (charged_calls s) cost → IsKept l row (s ∷ rows)
  unfolding sum_calls
  IsKept-cons w = record {
    task_calls = omega (arith, w.task_calls, charge-le (without none (is_task_call row)) s);
    daily_searches = λ q. omega (
      arith,
      w.daily_searches q,
      charge-le (without none (is_search_call (start_of_day l.now))) s,
    );
    monthly_searches = λ q. omega (
      arith,
      w.monthly_searches q,
      charge-le (without none (is_search_call (start_of_month l.now))) s,
    );
    money = λ n b.
        Within-cons (is_cost b l.now row) s rows cost (cost_limit b l.policy.cost) a (w.money n b);
  }

  module _ (r : Row) (u : Unique rows) (f : find_id s.id rows ≡ some r) where
    stored :
        (p : Row → Bool)
        → sum_calls (without none p) (store s rows)
          ≤ sum_calls (without (some s.id) p) rows + charged_calls s
    stored p = omega (
      arith,
      sum_calls-without-none p (store s rows),
      sum_calls-store p rows r s u f,
      charge-le p s,
    )

    IsKept-store :
        IsWithin l row (some s.id) rows (charged_calls s) cost → IsKept l row (store s rows)
    IsKept-store w = record {
      task_calls = omega (arith, w.task_calls, stored (is_task_call row));
      daily_searches =
          λ q. omega (arith, w.daily_searches q, stored (is_search_call (start_of_day l.now)));
      monthly_searches =
          λ q. omega (arith, w.monthly_searches q, stored (is_search_call (start_of_month l.now)));
      money = λ n b.
          Within-store (is_cost b l.now row) s r rows cost (cost_limit b l.policy.cost) u f a
            (w.money n b);
    }

pub admit_new_ok :
    (fresh now : ℕ) (p : Policy) (c : Call) (key : String) (rows : List Row) (row : Row)
    → admit_new fresh now p c key rows ≡ ok row
    → (upper : ℕ) × (row ≡ new_row fresh now p c key upper)
      × (check (call_limits now p c) (new_row fresh now p c key upper) none rows ≡ ok tt)
unfolding admit_new
admit_new_ok fresh now p c key rows row h = elim (Result-cases (upper_price p c.price)) [
  | inl (upper, e) ↦ (upper, ground arith, ground arith)
  | inr (x, e) ↦ absurd (ground arith)
]

admit_again_ok :
    (l : Limits) (c : Call) (row : Row) (rows : List Row) (row' : Row)
    → admit_again l c row rows ≡ ok row'
    → (same_call c row ≡ true)
      × (row.usage_state ≡ reserved)
      × (check l row (some row.id) rows ≡ ok tt)
      × (row' ≡ row)
unfolding admit_again still_reserved
admit_again_ok l c row rows row' h = ground arith

charged-reserved : (r : Row) → r.usage_state ≡ reserved → charged_calls r ≡ r.reserved_calls
unfolding charged_calls
charged-reserved r e = rw e

amount-reserved : (r : Row) → r.usage_state ≡ reserved → amount r ≡ r.reserved_cost
unfolding amount
amount-reserved r e = rw e

-- A ledger that a reservation leaves: it keeps the limits, and has the row under the call's key.
abbrev pub IsReserved : Limits → Call → String → Row → List Row → Type 0
IsReserved l c key row rows =
    IsKept l row rows
    × (find_key key rows ≡ some row)
    × (row.usage_state ≡ reserved)
    × (row.reserved_calls ≡ c.calls)

new_IsReserved :
    (fresh now : ℕ) (p : Policy) (c : Call) (key : String) (rows : List Row) (row : Row)
    → admit_new fresh now p c key rows ≡ ok row
    → IsReserved (call_limits now p c) c key row (row ∷ rows)
unfolding new_row find_key
new_IsReserved fresh now p c key rows row h =
    let (upper, e, passed) = admit_new_ok fresh now p c key rows row h in
    let (cost, known, w) = (check_iff (call_limits now p c) row none rows).0 (rw e passed) in
    let s : row.usage_state ≡ reserved = rw e refl in
    (
      IsKept-cons (call_limits now p c) row row rows cost (amount-reserved row s ∙ known)
          (rw (charged-reserved row s) w),
      rw e (rw eq_refl),
      s,
      rw e refl,
    )

again_IsReserved :
    (l : Limits) (c : Call) (key : String) (row row' : Row) (rows : List Row)
    → Unique rows
    → find_key key rows ≡ some row
    → admit_again l c row rows ≡ ok row'
    → IsReserved l c key row' rows
unfolding same_call
again_IsReserved l c key row row' rows u f h =
    let (same, s, passed, e) = admit_again_ok l c row rows row' h in
    let (cost, known, w) = (check_iff l row (some row.id) rows).0 passed in
    let found = find_id-find_key key rows row u f in
    let kept : IsKept l row (store row rows) =
      IsKept-store l row row rows cost (amount-reserved row s ∙ known) row u found
        (rw (charged-reserved row s) w) in
    rw e (rw (store-find rows row row.id found).0 at kept, f, s, ground arith)

-- The same of an outcome of `reserve`, where it returns.
abbrev IsAdmitted : Limits → Call → String → Result Error Row × List Row → Type 0
IsAdmitted l c key (ok row, rows) = IsReserved l c key row rows
IsAdmitted l c key (err e, rows) = Unit {0}

again_IsAdmitted :
    (l : Limits) (c : Call) (key : String) (rows : List Row) (r : Result Error Row)
    → ((row : Row) → r ≡ ok row → IsReserved l c key row rows)
    → IsAdmitted l c key (r, rows)
again_IsAdmitted l c key rows (ok row) h = h row refl
again_IsAdmitted l c key rows (err e) h = tt

add_row-IsAdmitted :
    (l : Limits) (c : Call) (key : String) (rows : List Row) (r : Result Error Row)
    → ((row : Row) → r ≡ ok row → IsReserved l c key row (row ∷ rows))
    → IsAdmitted l c key (add_row r rows)
unfolding add_row
add_row-IsAdmitted l c key rows (ok row) h = h row refl
add_row-IsAdmitted l c key rows (err e) h = tt

reserve_key-IsAdmitted :
    (found : Option Row) (fresh now : ℕ) (p : Policy) (c : Call) (key : String) (rows : List Row)
    → find_key key rows ≡ found
    → Unique rows
    → IsAdmitted (call_limits now p c) c key (reserve_key found fresh now p c key rows)
unfolding reserve_key
reserve_key-IsAdmitted (some old) fresh now p c key rows f u =
    again_IsAdmitted (call_limits now p c) c key rows (admit_again (call_limits now p c) c old rows)
      (λ row e. again_IsReserved (call_limits now p c) c key old row rows u f e)
reserve_key-IsAdmitted none fresh now p c key rows f u =
    add_row-IsAdmitted (call_limits now p c) c key rows (admit_new fresh now p c key rows)
      (λ row e. new_IsReserved fresh now p c key rows row e)

reserve-IsAdmitted :
    (sha256 : String → String) (fresh now : ℕ) (p : Policy) (c : Call) (rows : List Row)
    → Unique rows
    → IsAdmitted (call_limits now p c) c (call_key sha256 c) (reserve sha256 fresh now p c rows)
unfolding reserve
reserve-IsAdmitted sha256 fresh now p c rows u = elim (Bool-cases (c.calls == 0)) [
  | inl e ↦ rw e tt
  | inr e ↦ rw e (
      reserve_key-IsAdmitted (find_key (call_key sha256 c) rows) fresh now p c (call_key sha256 c)
        rows refl u)
]

-- Whenever `reserve` returns a row, the ledger that it leaves has that row under the call's key, in
-- state reserved with the call's count, and with it every limit holds: the task's calls, the day's
-- and month's searches of the whole platform, and, unless the call is free, the priced cost of the
-- task, of the company in the day and week, and of the system in the week and month. The ids of the
-- ledger are unique.
pub reserve_keeps_limits :
    (sha256 : String → String) (fresh now : ℕ) (p : Policy) (c : Call) (rows : List Row) {row : Row}
    {rows' : List Row}
    → Unique rows
    → reserve sha256 fresh now p c rows ≡ (ok row, rows')
    → IsReserved (call_limits now p c) c (call_key sha256 c) row rows'
reserve_keeps_limits sha256 fresh now p c rows u h =
    rw h at (reserve-IsAdmitted sha256 fresh now p c rows u)

find_id-id : (k : ℕ) (rows : List Row) (r : Row) → find_id k rows ≡ some r → r.id ≡ k
find_id-id k rows r f = (store-find rows r k f).1

charged-send : (now : ℕ) (r : Row) → charged_calls (send_row now r) ≡ r.reserved_calls
unfolding send_row charged_calls
charged-send now r = refl

amount-send : (now : ℕ) (r : Row) → amount (send_row now r) ≡ r.reserved_cost
unfolding send_row amount
amount-send now r = refl

dispatch_ok :
    (r : Row) (now : ℕ) (p : Policy) (stop : Bool) (rows rows' : List Row)
    → dispatch_row (some r) now p stop rows ≡ (ok tt, rows')
    → (r.usage_state ≡ reserved)
      × (stop ≡ false)
      × (check (row_limits now p r) r (some r.id) rows ≡ ok tt)
      × (rows' ≡ store (send_row now r) rows)
unfolding dispatch_row still_reserved
dispatch_ok r now p stop rows rows' h = ground arith

-- Whenever `dispatch` returns, the row was reserved and not cancelled, the ledger that it leaves has
-- the row in flight, and every limit that admitted it (with the limits stored in the row) holds of
-- that ledger. The ids of the ledger are unique.
pub dispatch_keeps_limits :
    (k now : ℕ) (p : Policy) (stop : Bool) (rows : List Row) {rows' : List Row} {r : Row}
    → Unique rows
    → find_id k rows ≡ some r
    → dispatch k now p stop rows ≡ (ok tt, rows')
    → (r.usage_state ≡ reserved)
      × (stop ≡ false)
      × (rows' ≡ store (send_row now r) rows)
      × IsKept (row_limits now p r) r rows'
unfolding dispatch
dispatch_keeps_limits k now p stop rows {rows'} {r} u f h =
    let (s, go, passed, e) = dispatch_ok r now p stop rows rows' (rw f at h) in
    let (cost, known, w) = (check_iff (row_limits now p r) r (some r.id) rows).0 passed in
    (
      s,
      go,
      e,
      rw e (
          IsKept-store (row_limits now p r) r (send_row now r) rows cost (amount-send now r ∙ known)
            r u
            (unfold send_row in
              subst (λ (j : ℕ). find_id j rows ≡ some r) (sym (find_id-id k rows r f)) f)
            (unfold send_row in rw (charged-send now r) w)),
    )
