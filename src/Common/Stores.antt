-- ===== src/Common/Stores.antt =====
-- A table as a list of rows under a numeric key: reads by key, writes of a changed row, the choice
-- that an ordered query makes, and counts.
use Prim.Native.Nat.{ℕ, ◌+◌}
use mathlib.Core.Path.{◌≡◌, refl, sym, subst}
use mathlib.Core.Logic.{◌≢◌, inl, inr}
use mathlib.Core.Bool.{Bool, true, false}
use mathlib.Core.Option.{Option, none, some}
use mathlib.Core.List.{List, [], ◌∷◌, ◌++◌}
use native.Mathlib.Omega.{arith}
use dealflow_radar.Common.Tests.{◌==◌, ==_iff, if◌then◌else◌, Bool-cases, Option-cases}
use dealflow_radar.Common.Lists.{All, length}

module _ {ℓ} {A : Type ℓ} where
  unfoldable pub prefer : (A → A → Bool) → Option A → A → A
  prefer better none x = x
  prefer better (some y) x = if better y x then y else x

  -- The first row that passes a test, in the order of the query: `better y x` puts `y` before `x`.
  unfoldable pub pick : (A → Bool) → (A → A → Bool) → List A → Option A
  unfolding prefer
  pick p better [] = none
  pick p better (x ∷ xs) =
      let rest = pick p better xs in if p x then some (prefer better rest x) else rest

  pub pick_passes :
      (p : A → Bool) (better : A → A → Bool) (xs : List A) (y : A)
      → pick p better xs ≡ some y
      → p y ≡ true
  unfolding pick
  pick_passes p better [] y h = absurd (ground arith)
  pick_passes p better (x ∷ xs) y h = ground (arith, pick_passes p better xs y)

  pub pick-none :
      (p : A → Bool) (better : A → A → Bool) (xs : List A)
      → pick p better xs ≡ none
      → All (λ x. p x ≡ false) xs
  unfolding pick
  pick-none p better [] h = tt
  pick-none p better (x ∷ xs) h = elim (Bool-cases (p x)) [
    | inl e ↦ absurd (ground arith)
    | inr e ↦ (e, pick-none p better xs (ground arith))
  ]

  -- The number of rows that pass a test.
  unfoldable pub count : (A → Bool) → List A → ℕ
  count p [] = 0
  count p (x ∷ xs) = (if p x then 1 else 0) + count p xs

  unfoldable pub keep : (A → Bool) → List A → List A
  keep p [] = []
  keep p (x ∷ xs) = let rest = keep p xs in if p x then x ∷ rest else rest

  pub count-append : (p : A → Bool) (xs ys : List A) → count p (xs ++ ys) ≡ count p xs + count p ys
  unfolding count
  count-append p [] ys = omega arith
  count-append p (x ∷ xs) ys = omega (arith, count-append p xs ys)

  pub All-keep {κ} :
      (P : A → Type κ) (p : A → Bool) (xs : List A)
      → ((x : A) → p x ≡ true → P x)
      → All P (keep p xs)
  unfolding keep
  All-keep P p [] h = tt
  All-keep P p (x ∷ xs) h = elim (Bool-cases (p x)) [
    | inl e ↦ rw e (h x e, All-keep P p xs h)
    | inr e ↦ rw e (All-keep P p xs h)
  ]

  pub count-eq-zero : (p : A → Bool) (xs : List A) → All (λ x. p x ≡ false) xs → count p xs ≡ 0
  unfolding count
  count-eq-zero p [] a = refl
  count-eq-zero p (x ∷ xs) a = ground (arith, a.0, count-eq-zero p xs a.1)

  module _ (key : A → ℕ) where
    unfoldable pub find_by : ℕ → List A → Option A
    find_by k [] = none
    find_by k (x ∷ xs) = if key x == k then some x else find_by k xs

    unfoldable pub store_by : A → List A → List A
    store_by s [] = []
    store_by s (x ∷ xs) = if key x == key s then s ∷ xs else x ∷ store_by s xs

    pub key-find_by : (k : ℕ) (xs : List A) (x : A) → find_by k xs ≡ some x → key x ≡ k
    unfolding find_by
    key-find_by k [] x f = absurd (ground arith)
    key-find_by k (y ∷ ys) x f = ground (arith, key-find_by k ys x)

    pub find_by-store_by_self :
        (xs : List A) (k : ℕ) (x s : A)
        → find_by k xs ≡ some x
        → key s ≡ k
        → find_by k (store_by s xs) ≡ some s
    unfolding find_by store_by
    find_by-store_by_self [] k x s f e = absurd (ground arith)
    find_by-store_by_self (y ∷ ys) k x s f e = ground (arith, find_by-store_by_self ys k x s)

    pub find_by-store_by_ne :
        (xs : List A) (j : ℕ) (s : A) → key s ≢ j → find_by j (store_by s xs) ≡ find_by j xs
    unfolding find_by store_by
    find_by-store_by_ne [] j s n = refl
    find_by-store_by_ne (y ∷ ys) j s n = ground (arith, find_by-store_by_ne ys j s)

    pub length-store_by : (s : A) (xs : List A) → length (store_by s xs) ≡ length xs
    unfolding store_by
    length-store_by s [] = refl
    length-store_by s (x ∷ xs) = ground (arith, length-store_by s xs)

    pub store_by-All {κ} :
        (P : A → Type κ) (s : A) (xs : List A) → P s → All P xs → All P (store_by s xs)
    unfolding store_by
    store_by-All P s [] h a = tt
    store_by-All P s (x ∷ xs) h a = elim (Bool-cases (key x == key s)) [
      | inl e ↦ rw e (h, a.1)
      | inr e ↦ rw e (a.0, store_by-All P s xs h a.1)
    ]

    pub find_by-All {κ} :
        (P : A → Type κ) (k : ℕ) (xs : List A) (x : A) → All P xs → find_by k xs ≡ some x → P x
    unfolding find_by
    find_by-All P k [] x a f = absurd (ground arith)
    find_by-All P k (y ∷ ys) x a f = elim (Bool-cases (key y == k)) [
      | inl e ↦ subst P (ground arith) a.0
      | inr e ↦ find_by-All P k ys x a.1 (ground arith)
    ]

    pub store_by-same : (x : A) (xs : List A) → find_by (key x) xs ≡ some x → store_by x xs ≡ xs
    unfolding find_by store_by
    store_by-same x [] f = refl
    store_by-same x (y ∷ ys) f = ground (arith, store_by-same x ys)

    -- A query without an order finds the row that was written over the one that it found.
    pub pick-store_by :
        (p : A → Bool) (xs : List A) (x s : A)
        → pick p (λ a b. false) xs ≡ some x
        → key s ≡ key x
        → p s ≡ true
        → pick p (λ a b. false) (store_by s xs) ≡ some s
    unfolding pick store_by prefer
    pick-store_by p [] x s h e q = absurd (ground arith)
    pick-store_by p (y ∷ ys) x s h e q =
        let rest = λ (g : pick p (λ a b. false) ys ≡ some x). pick-store_by p ys x s g e q in
        elim (Bool-cases (key y == key s)) [
          | inl k ↦ rw k (
              rw q (elim (Option-cases (pick p (λ a b. false) ys)) [
                | inl n ↦ rw n refl
                | inr (z, n) ↦ rw n refl
              ]))
          | inr k ↦ elim (Option-cases (pick p (λ a b. false) ys)) [
            | inl n ↦ absurd (ground (arith, n, k, e))
            | inr (z, n) ↦ elim (Bool-cases (p y)) [
              | inl c ↦ absurd (ground (arith, n, k, e, c))
              | inr c ↦ rw k (rw c (rest (ground (arith, n, c))))
            ]
          ]
        ]

    -- Replacing a row changes a count by the tests of the two rows.
    pub count-store_by :
        (p : A → Bool) (xs : List A) (x s : A)
        → find_by (key s) xs ≡ some x
        → count p (store_by s xs) + (if p x then 1 else 0) ≡ count p xs + (if p s then 1 else 0)
    unfolding count find_by store_by
    count-store_by p [] x s f = absurd (ground arith)
    count-store_by p (y ∷ ys) x s f = ground (arith, count-store_by p ys x s)

    abbrev pub UniqueBy : List A → Type 0
    UniqueBy [] = Unit
    UniqueBy (x ∷ xs) = All (λ y. key y ≢ key x) xs × UniqueBy xs

    absent_of_pick :
        (p : A → Bool) (better : A → A → Bool) (j : ℕ) (xs : List A) (y : A)
        → pick p better xs ≡ some y
        → All (λ x. key x ≢ j) xs
        → key y ≢ j
    unfolding pick
    absent_of_pick p better j [] y h a = absurd (ground arith)
    absent_of_pick p better j (x ∷ xs) y h a = λ e.
        let rest = λ (g : pick p better xs ≡ some y). absent_of_pick p better j xs y g a.1 e in
        absurd (ground (arith, rest, a.0))

    -- The row that a query picks is the one under its key.
    pub find_by-pick :
        (p : A → Bool) (better : A → A → Bool) (xs : List A) (y : A)
        → UniqueBy xs
        → pick p better xs ≡ some y
        → find_by (key y) xs ≡ some y
    unfolding pick find_by
    find_by-pick p better [] y u h = absurd (ground arith)
    find_by-pick p better (x ∷ xs) y u h =
        let rest = λ (g : pick p better xs ≡ some y). find_by-pick p better xs y u.1 g in
        let apart = λ (g : pick p better xs ≡ some y). absent_of_pick p better (key x) xs y g u.0 in
        ground (arith, rest, apart)

    absent_store :
        (j : ℕ) (s : A) (xs : List A)
        → All (λ x. key x ≢ j) xs
        → key s ≢ j
        → All (λ x. key x ≢ j) (store_by s xs)
    absent_store j s xs a n = store_by-All (λ x. key x ≢ j) s xs n a

    pub store_by-UniqueBy : (s : A) (xs : List A) → UniqueBy xs → UniqueBy (store_by s xs)
    unfolding store_by
    store_by-UniqueBy s [] u = tt
    store_by-UniqueBy s (x ∷ xs) u = elim (Bool-cases (key x == key s)) [
      | inl e ↦
          rw e (subst (λ (j : ℕ). All (λ y. key y ≢ j) xs) ((==_iff (key x) (key s)).0 e) u.0, u.1)
      | inr e ↦ rw e (absent_store (key x) s xs u.0 (λ q. ground arith), store_by-UniqueBy s xs u.1)
    ]

    Absent-append_one :
        (j : ℕ) (s : A) (xs : List A)
        → All (λ x. key x ≢ j) xs
        → key s ≢ j
        → All (λ x. key x ≢ j) (xs ++ s ∷ [])
    Absent-append_one j s [] a n = (n, tt)
    Absent-append_one j s (x ∷ xs) a n = (a.0, Absent-append_one j s xs a.1 n)

    -- A row with a fresh key goes to the end of the table.
    pub UniqueBy-append_one :
        (s : A) (xs : List A) → All (λ x. key x ≢ key s) xs → UniqueBy xs → UniqueBy (xs ++ s ∷ [])
    UniqueBy-append_one s [] a u = (tt, tt)
    UniqueBy-append_one s (x ∷ xs) a u =
        (Absent-append_one (key x) s xs u.0 (λ e. a.0 (sym e)), UniqueBy-append_one s xs a.1 u.1)
