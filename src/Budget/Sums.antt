-- ===== src/Budget/Sums.antt =====
-- Sums over the ledger: leaving a row out, writing a row and adding one. The ledger's ids are unique.
use dealflow_radar.Common.{
  ℕ, ◌+◌, ◌≡◌, refl, ◌≢◌, Option, none, some, Bool, ◌&&◌, List, [], ◌∷◌, ◌==◌, ==_iff, All, arith,
  if◌then◌else◌, Bool-cases, inl, inr, is_text, sym, String,
}
use mathlib.Core.Path.{subst}
use dealflow_radar.Budget.Rows.{
  Row, charged_calls, amount, other, sum_calls, add_amount, sum_amounts, find_key, find_id, store,
}

abbrev pub Absent : ℕ → List Row → Type 0
Absent k rows = All (λ r. r.id ≢ k) rows

abbrev pub Unique : List Row → Type 0
Unique [] = Unit
Unique (r ∷ rs) = Absent r.id rs × Unique rs

-- `p` without the row that is being decided on.
abbrev pub without : Option ℕ → (Row → Bool) → Row → Bool
without self p r = p r && other self r

abbrev pub charge : (Row → Bool) → Row → ℕ
charge p r = if p r then charged_calls r else 0

pub sum_calls-without-none :
    (p : Row → Bool) (rows : List Row) → sum_calls (without none p) rows ≡ sum_calls p rows
unfolding sum_calls
sum_calls-without-none p [] = refl
sum_calls-without-none p (r ∷ rs) = ground (arith, sum_calls-without-none p rs)

sum_calls-without-Absent :
    (k : ℕ) (p : Row → Bool) (rows : List Row)
    → Absent k rows
    → sum_calls (without (some k) p) rows ≡ sum_calls p rows
unfolding sum_calls
sum_calls-without-Absent k p [] a = refl
sum_calls-without-Absent k p (r ∷ rs) a = ground (arith, sum_calls-without-Absent k p rs a.1)

-- Writing a row that is there replaces its charge.
pub sum_calls-store :
    (p : Row → Bool) (rows : List Row) (r s : Row)
    → Unique rows
    → find_id s.id rows ≡ some r
    → sum_calls p (store s rows) ≡ sum_calls (without (some s.id) p) rows + charge p s
unfolding sum_calls find_id store
sum_calls-store p [] r s u f = cc
sum_calls-store p (x ∷ xs) r s u f = elim (Bool-cases (x.id == s.id)) [
  | inl e ↦ ground (arith, sum_calls-without-Absent x.id p xs u.0, (==_iff x.id s.id).0 e)
  | inr e ↦ ground (arith, sum_calls-store p xs r s u.1)
]

pub store-find :
    (rows : List Row) (r : Row) (k : ℕ)
    → find_id k rows ≡ some r
    → (store r rows ≡ rows) × (r.id ≡ k)
unfolding find_id store
store-find [] r k f = cc
store-find (x ∷ xs) r k f = ground (arith, store-find xs r k)

sum_amounts-without-Absent :
    (k : ℕ) (p : Row → Bool) (rows : List Row)
    → Absent k rows
    → sum_amounts (without (some k) p) rows ≡ sum_amounts p rows
unfolding sum_amounts
sum_amounts-without-Absent k p [] a = refl
sum_amounts-without-Absent k p (r ∷ rs) a = ground (arith, sum_amounts-without-Absent k p rs a.1)

pub sum_amounts-without-none :
    (p : Row → Bool) (rows : List Row) → sum_amounts (without none p) rows ≡ sum_amounts p rows
unfolding sum_amounts
sum_amounts-without-none p [] = refl
sum_amounts-without-none p (r ∷ rs) = ground (arith, sum_amounts-without-none p rs)

abbrev pub cost_entry : (Row → Bool) → Row → Option ℕ
cost_entry p r = if p r then amount r else some 0

add_amount-zero : (o : Option ℕ) → add_amount (some 0) o ≡ o
add_amount-zero o = ground arith

pub sum_amounts-cons :
    (p : Row → Bool) (r : Row) (rows : List Row)
    → sum_amounts p (r ∷ rows) ≡ add_amount (cost_entry p r) (sum_amounts p rows)
unfolding sum_amounts
sum_amounts-cons p r rows = elim (Bool-cases (p r)) [
  | inl e ↦ rw e
  | inr e ↦ rw e (sym (add_amount-zero _))
]

add_amount_left_comm :
    (a b c : Option ℕ) → add_amount a (add_amount b c) ≡ add_amount b (add_amount a c)
add_amount_left_comm a b c = ground arith

-- Writing a row that is there replaces its amount.
pub sum_amounts-store :
    (p : Row → Bool) (rows : List Row) (r s : Row)
    → Unique rows
    → find_id s.id rows ≡ some r
    → sum_amounts p (store s rows)
      ≡ add_amount (cost_entry p s) (sum_amounts (without (some s.id) p) rows)
unfolding find_id store
sum_amounts-store p [] r s u f = cc
sum_amounts-store p (x ∷ xs) r s u f = elim (Bool-cases (x.id == s.id)) [
  | inl e ↦ ground (
    arith,
    sum_amounts-cons p s xs,
    sum_amounts-cons (without (some s.id) p) x xs,
    sum_amounts-without-Absent x.id p xs u.0,
    (==_iff x.id s.id).0 e,
    add_amount-zero (sum_amounts p xs),
  )
  | inr e ↦ ground (
    arith,
    sum_amounts-cons p x (store s xs),
    sum_amounts-cons (without (some s.id) p) x xs,
    sum_amounts-store p xs r s u.1,
    add_amount_left_comm (cost_entry p x) (cost_entry p s) (sum_amounts (without (some s.id) p) xs),
  )
]

other_key :
    (j : ℕ) (k : String) (rows : List Row) (r : Row)
    → find_key k rows ≡ some r
    → Absent j rows
    → r.id ≢ j
unfolding find_key
other_key j k [] r f a = cc
other_key j k (x ∷ xs) r f a = elim (Bool-cases (is_text k (some x.idempotency_key))) [
  | inl e ↦ ground arith
  | inr e ↦ other_key j k xs r (ground arith) a.1
]

-- A row that is found by its key is found by its id.
pub find_id-find_key :
    (k : String) (rows : List Row) (r : Row)
    → Unique rows
    → find_key k rows ≡ some r
    → find_id r.id rows ≡ some r
unfolding find_key find_id
find_id-find_key k [] r u f = cc
find_id-find_key k (x ∷ xs) r u f = elim (Bool-cases (is_text k (some x.idempotency_key))) [
  | inl e ↦ ground arith
  | inr e ↦
      ground (
        arith,
        find_id-find_key k xs r u.1 (ground arith),
        other_key x.id k xs r (ground arith) u.0,
      )
]

Absent-store :
    (k : ℕ) (s : Row) (rows : List Row) → Absent k rows → k ≢ s.id → Absent k (store s rows)
unfolding store
Absent-store k s [] a n = tt
Absent-store k s (x ∷ xs) a n = elim (Bool-cases (x.id == s.id)) [
  | inl e ↦ rw e (λ q. n (sym q), a.1)
  | inr e ↦ rw e (a.0, Absent-store k s xs a.1 n)
]

pub Unique-store : (s : Row) (rows : List Row) → Unique rows → Unique (store s rows)
unfolding store
Unique-store s [] u = tt
Unique-store s (x ∷ xs) u = elim (Bool-cases (x.id == s.id)) [
  | inl e ↦ rw e (subst (λ (j : ℕ). Absent j xs) ((==_iff x.id s.id).0 e) u.0, u.1)
  | inr e ↦ rw e (Absent-store x.id s xs u.0 (λ q. ground arith), Unique-store s xs u.1)
]
