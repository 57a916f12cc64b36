-- ===== src/Budget/Once.antt =====
-- Repeated calls of `reserve`, `dispatch` and `settle`.
use dealflow_radar.Common.{
  ℕ, ◌≡◌, refl, ◌≢◌, String, Option, none, some, Bool, true, List, [], ◌∷◌, ◌==◌, arith, Bool-cases,
  Option-cases, inl, inr, ok, err, ◌⊎◌, ◌∙◌, sym, ap, Result-cases, Bool-cases,
}
use mathlib.Core.Path.{subst}
use dealflow_radar.Budget.Rows.{Row, reserved, in_flight, find_id, find_key, store, Audit}
use dealflow_radar.Budget.Admission.{
  Policy, Limits, reservation_counts, Error, deferred, invalid, already, conflicting_settlement,
}
use dealflow_radar.Budget.Sums.{Unique, store-find}
use dealflow_radar.Budget.Calls.{
  Call, Decimal, call_limits, reserve, reserve_key, admit_again, same_call, still_reserved,
  call_key, send_row, dispatch, dispatch_row, settled_row, settle, settle_found, settled_cost,
  settle_row, over_reservation,
}
use dealflow_radar.Budget.Reservations.{dispatch_keeps_limits}

find_id-store :
    (rows : List Row) (r s : Row)
    → find_id s.id rows ≡ some r
    → find_id s.id (store s rows) ≡ some s
unfolding find_id store
find_id-store [] r s f = absurd (ground arith)
find_id-store (x ∷ xs) r s f = elim (Bool-cases (x.id == s.id)) [
  | inl e ↦ rw e (ground arith)
  | inr e ↦ rw e (rw e (find_id-store xs r s (ground arith)))
]

pub find_id-store_of :
    (k : ℕ) (rows : List Row) (r s : Row)
    → find_id k rows ≡ some r
    → s.id ≡ r.id
    → find_id k (store s rows) ≡ some s
find_id-store_of k rows r s f e =
    let q : s.id ≡ k = e ∙ (store-find rows r k f).1 in
    subst (λ (j : ℕ). find_id j (store s rows) ≡ some s) q
      (find_id-store rows r s (subst (λ (j : ℕ). find_id j rows ≡ some r) (sym q) f))

again_cases :
    (l : Limits) (c : Call) (row : Row) (rows : List Row)
    → ((e : Error) × (admit_again l c row rows ≡ err e))
      ⊎ ((admit_again l c row rows ≡ ok row)
          × (row.usage_state ≡ reserved)
          × (same_call c row ≡ true))
again_cases l c row rows = elim (Result-cases (admit_again l c row rows)) [
  | inr (e, h) ↦ inl (e, h)
  | inl (r, h) ↦
      let same : r ≡ row = unfold admit_again still_reserved in ground arith in
      inr (
        unfold admit_again still_reserved in ground arith,
        unfold admit_again still_reserved in ground arith,
        unfold admit_again in ground arith,
      )
]

-- A key that the ledger has: `reserve` never adds a second row, whatever the call, the policy and
-- the time, and returns the row that is there or an error.
pub reserve_replay :
    (sha256 : String → String) (fresh now : ℕ) (p : Policy) (c : Call) (rows : List Row) (row : Row)
    → find_key (call_key sha256 c) rows ≡ some row
    → ((reserve sha256 fresh now p c rows).1 ≡ rows)
      × (((e : Error) × ((reserve sha256 fresh now p c rows).0 ≡ err e))
          ⊎ (((reserve sha256 fresh now p c rows).0 ≡ ok row)
              × (row.usage_state ≡ reserved)
              × (same_call c row ≡ true)))
unfolding reserve reserve_key
reserve_replay sha256 fresh now p c rows row f = elim (Bool-cases (c.calls == 0)) [
  | inl e ↦ (rw e, rw e (inl (invalid reservation_counts, refl)))
  | inr e ↦ rw (e, f) (refl, again_cases (call_limits now p c) c row rows)
]

-- A call that was dispatched is not dispatched again: until the ledger changes, `dispatch` refuses
-- the row as in flight at any time, under any policy, cancelled or not, and changes nothing.
dispatch_once :
    (k now : ℕ) (p : Policy) (stop : Bool) (rows rows' : List Row) {r : Row}
    → Unique rows
    → find_id k rows ≡ some r
    → dispatch k now p stop rows ≡ (ok tt, rows')
    → (now' : ℕ) (p' : Policy) (stop' : Bool)
    → dispatch k now' p' stop' rows' ≡ (err (deferred (already in_flight)), rows')
dispatch_once k now p stop rows rows' {r} u f h now' p' stop' =
    let (s, go, e, kept) = dispatch_keeps_limits k now p stop rows u f h in
    let g : find_id k rows' ≡ some (send_row now r) =
      rw e (find_id-store_of k rows r (send_row now r) f (unfold send_row in refl)) in
    unfold dispatch dispatch_row still_reserved in rw g (unfold send_row in refl)

settled_row_again :
    (n : ℕ) (cost : Option Decimal) (receipt : Option String) (audit : Option Audit) (now now' : ℕ)
    (r r' : Row)
    → settled_row (some n) cost receipt audit now r ≡ ok r'
    → settled_row (some n) cost receipt audit now' r' ≡ ok r'
unfolding settled_row settle_row over_reservation settled_cost
settled_row_again n cost receipt audit now now' r r' h = ground arith

settled_row_other :
    (n m : ℕ) (cost : Option Decimal) (receipt : Option String) (audit : Option Audit)
    (now now' : ℕ) (r r' : Row)
    → settled_row (some n) cost receipt audit now r ≡ ok r'
    → n ≢ m
    → settled_row (some m) cost receipt audit now' r' ≡ err (invalid conflicting_settlement)
unfolding settled_row settle_row over_reservation settled_cost
settled_row_other n m cost receipt audit now now' r r' h d = ground arith

settled_row_conflict :
    (n m : ℕ) (cost : Option Decimal) (receipt : Option String) (audit : Option Audit)
    (now now' : ℕ) (r r' : Row)
    → settled_row (some n) cost receipt audit now r ≡ ok r'
    → n ≢ m
    → settled_row (some m) none none none now' r' ≡ err (invalid conflicting_settlement)
unfolding settled_row settle_row over_reservation settled_cost
settled_row_conflict n m cost receipt audit now now' r r' h d = ground arith

id-settled_row :
    (n : ℕ) (cost : Option Decimal) (receipt : Option String) (audit : Option Audit) (now : ℕ)
    (r r' : Row)
    → settled_row (some n) cost receipt audit now r ≡ ok r'
    → r'.id ≡ r.id
unfolding settled_row settle_row
id-settled_row n cost receipt audit now r r' h = ground arith

settle_ok :
    (k n : ℕ) (cost : Option Decimal) (receipt : Option String) (audit : Option Audit) (now : ℕ)
    (rows rows' : List Row)
    → settle k (some n) cost receipt audit now rows ≡ (ok tt, rows')
    → (r r' : Row) × (settled_row (some n) cost receipt audit now r ≡ ok r')
      × (find_id k rows' ≡ some r')
      × (store r' rows' ≡ rows')
unfolding settle settle_found
settle_ok k n cost receipt audit now rows rows' h = elim (Option-cases (find_id k rows)) [
  | inl e ↦ absurd (ground arith)
  | inr (r, e) ↦ elim (Result-cases (settled_row (some n) cost receipt audit now r)) [
    | inr (x, g) ↦ absurd (ground arith)
    | inl (r', g) ↦
        let f : find_id k (store r' rows) ≡ some r' =
          find_id-store_of k rows r r' e (id-settled_row n cost receipt audit now r r' g) in
        let q : store r' rows ≡ rows' = ground arith in
        (r, r', g, rw q at f, rw q at (store-find (store r' rows) r' k f).0)
  ]
]

-- A settlement that succeeded may be repeated: with the same arguments at any later time it
-- succeeds and changes nothing, and with another count, and the same cost, receipt and audit or none
-- of these, it is refused as conflicting and changes nothing.
pub settle_once :
    (k n : ℕ) (cost : Option Decimal) (receipt : Option String) (audit : Option Audit) (now : ℕ)
    (rows rows' : List Row)
    → settle k (some n) cost receipt audit now rows ≡ (ok tt, rows')
    → (now' m : ℕ) → n ≢ m
    → (settle k (some n) cost receipt audit now' rows' ≡ (ok tt, rows'))
      × (settle k (some m) cost receipt audit now' rows'
          ≡ (err (invalid conflicting_settlement), rows'))
      × (settle k (some m) none none none now' rows'
          ≡ (err (invalid conflicting_settlement), rows'))
unfolding settle settle_found
settle_once k n cost receipt audit now rows rows' h now' m d =
    let (r, r', g, f, same) = settle_ok k n cost receipt audit now rows rows' h in
    (
      rw f (
          rw (settled_row_again n cost receipt audit now now' r r' g)
            (ap (λ (q : List Row). (ok tt, q)) same)),
      rw f (rw (settled_row_other n m cost receipt audit now now' r r' g d)),
      rw f (rw (settled_row_conflict n m cost receipt audit now now' r r' g d)),
    )
