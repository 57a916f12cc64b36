-- ===== src/Budget/Corrections.antt =====
-- The outcome of `reconcile` in backend/app/web_research_budget.py.
use dealflow_radar.Common.{
  ℕ, ◌≡◌, refl, String, Option, none, some, Bool, true, arith, Bool-cases, inl, inr, Result,
  Result-cases, ok, err,
}
use dealflow_radar.Budget.Rows.{Row, actual, find_id, store, platform_usage}
use dealflow_radar.Budget.Admission.{Error}
use dealflow_radar.Budget.Calls.{
  millionths, settled_row, settle_row, over_reservation, settled_cost,
}
use dealflow_radar.Budget.Once.{find_id-store_of}
use dealflow_radar.Budget.Reconcile.{
  platform_row, close_waiting, reconcile_accepted, Operator, Statement, Platform, accepted,
  reconcile_row, reconcile_found, reconcile, written, outcome,
}

-- What a reconciled row says.
abbrev pub IsReconciled : ℕ → ℕ → Row → Type 0
IsReconciled calls cost r =
    (r.external_calls ≡ some calls) × (r.estimated_cost ≡ some cost) × (r.cost_status ≡ actual)

reconcile_row-IsReconciled :
    (calls cost : ℕ) (user : Operator) (s : Statement) (now : ℕ) (r r' : Row) (b : Bool)
    → reconcile_row calls cost user s now r ≡ ok (r', b)
    → IsReconciled calls cost r' × (r'.id ≡ r.id)
unfolding reconcile_row settled_row settle_row over_reservation settled_cost
reconcile_row-IsReconciled calls cost user s now r r' b h = ground arith

accepted_admin :
    (user : Operator) (s : Statement) (calls cost : ℕ)
    → accepted user s ≡ ok (calls, cost)
    → (user.is_active ≡ true)
      × (user.is_platform_admin ≡ true)
      × (s.calls ≡ some calls)
      × (s.actual_cost ≡ millionths cost)
unfolding accepted
accepted_admin user s calls cost h = ground arith

rows-written :
    (uuid : String → ℕ) (r r' : Row) (b : Bool) (p : Platform)
    → (written uuid r (r', b) p).rows ≡ store r' p.rows
unfolding written close_waiting
rows-written uuid r r' b p = ground arith

-- The outcome of a reconciliation, by the row that it is about.
abbrev pub IsOutcome : Operator → Statement → Platform → Result Error Row × Platform → Type 0
IsOutcome user s p (err e, p') = p' ≡ p
IsOutcome user s p (ok r', p') =
    (calls cost : ℕ) × (user.is_active ≡ true)
    × (user.is_platform_admin ≡ true)
    × (s.calls ≡ some calls)
    × (s.actual_cost ≡ millionths cost)
    × IsReconciled calls cost r'
    × (find_id s.usage_id p'.rows ≡ some r')

found_IsOutcome :
    (uuid : String → ℕ) (calls cost : ℕ) (user : Operator) (s : Statement) (now : ℕ) (p : Platform)
    (found : Option Row)
    → find_id s.usage_id p.rows ≡ found
    → accepted user s ≡ ok (calls, cost)
    → IsOutcome user s p (reconcile_found (platform_row found) uuid calls cost user s now p)
unfolding reconcile_found platform_row
found_IsOutcome uuid calls cost user s now p none f a = refl
found_IsOutcome uuid calls cost user s now p (some r) f a = elim (Bool-cases (platform_usage r)) [
  | inr n ↦ rw n refl
  | inl y ↦ rw y (elim (Result-cases (reconcile_row calls cost user s now r)) [
    | inr (e, h) ↦ unfold outcome in rw h refl
    | inl ((r', b), h) ↦
        let (done, same) = reconcile_row-IsReconciled calls cost user s now r r' b h in
        let (active, admin, c, m) = accepted_admin user s calls cost a in
        unfold outcome in
        rw h (
          calls,
          cost,
          active,
          admin,
          c,
          m,
          done,
          rw rows-written (find_id-store_of s.usage_id p.rows r r' f same),
        )
  ])
]

accepted-IsOutcome :
    (uuid : String → ℕ) (user : Operator) (s : Statement) (now : ℕ) (p : Platform)
    (a : Result Error (ℕ × ℕ))
    → accepted user s ≡ a
    → IsOutcome user s p (reconcile_accepted a uuid user s now p)
unfolding reconcile_accepted
accepted-IsOutcome uuid user s now p (err e) h = refl
accepted-IsOutcome uuid user s now p (ok (calls, cost)) h =
    found_IsOutcome uuid calls cost user s now p (find_id s.usage_id p.rows) refl h

-- A reconciliation either raises and changes nothing, or its operator is an active platform
-- administrator and the ledger has, under the statement's id, the returned row with the stated calls
-- and cost as actual.
pub reconcile_lem :
    (uuid : String → ℕ) (user : Operator) (s : Statement) (now : ℕ) (p : Platform)
    → IsOutcome user s p (reconcile uuid user s now p)
unfolding reconcile
reconcile_lem uuid user s now p = accepted-IsOutcome uuid user s now p (accepted user s) refl
