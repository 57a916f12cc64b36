-- ===== src/Common/Members.antt =====
-- The rows that a query finds are rows of its table, and what holds of all of them.
use Prim.Native.Nat.{ℕ}
use mathlib.Core.Path.{◌≡◌, refl, subst}
use mathlib.Core.Logic.{inl, inr}
use mathlib.Core.Bool.{Bool, true, false}
use mathlib.Core.Option.{Option, none, some}
use mathlib.Core.List.{List, [], ◌∷◌, ◌++◌, Mem, mem-cons_self, mem-cons_of_mem}
use native.Mathlib.Omega.{arith}
use dealflow_radar.Common.Tests.{Bool-cases, Option-cases}
use dealflow_radar.Common.Lists.{All}
use dealflow_radar.Common.Stores.{prefer, pick, pick-none, keep, find_by}
use dealflow_radar.Common.Sorting.{All-map}

module _ {ℓ} {A : Type ℓ} where
  pub All-self : (xs : List A) → All (λ x. Mem x xs) xs
  All-self [] = tt
  All-self (x ∷ xs) =
      (mem-cons_self, All-map _ (λ y. Mem y (x ∷ xs)) xs (λ y m. mem-cons_of_mem x m) (All-self xs))

  pub All-append {κ} : (P : A → Type κ) (xs ys : List A) → All P xs → All P ys → All P (xs ++ ys)
  All-append P [] ys a b = b
  All-append P (x ∷ xs) ys a b = (a.0, All-append P xs ys a.1 b)

  pub All-keep_of {κ μ} :
      (P : A → Type κ) (Q : A → Type μ) (p : A → Bool) (xs : List A)
      → ((x : A) → P x → p x ≡ true → Q x)
      → All P xs
      → All Q (keep p xs)
  unfolding keep
  All-keep_of P Q p [] f a = tt
  All-keep_of P Q p (x ∷ xs) f a = elim (Bool-cases (p x)) [
    | inl e ↦ rw e (f x a.0 e, All-keep_of P Q p xs f a.1)
    | inr e ↦ rw e (All-keep_of P Q p xs f a.1)
  ]

  pub pick-All {κ} :
      (P : A → Type κ) (p : A → Bool) (better : A → A → Bool) (xs : List A) (y : A)
      → All P xs
      → pick p better xs ≡ some y
      → P y
  unfolding pick prefer
  pick-All P p better [] y a h = absurd (ground arith)
  pick-All P p better (x ∷ xs) y a h = elim (Bool-cases (p x)) [
    | inr e ↦ pick-All P p better xs y a.1 (ground arith)
    | inl e ↦ elim (Option-cases (pick p better xs)) [
      | inl n ↦ subst P (ground arith) a.0
      | inr (z, n) ↦ elim (Bool-cases (better z x)) [
        | inl b ↦ subst P (ground arith) (pick-All P p better xs z a.1 n)
        | inr b ↦ subst P (ground arith) a.0
      ]
    ]
  ]

  pub pick-Mem :
      (p : A → Bool) (better : A → A → Bool) (xs : List A) (y : A)
      → pick p better xs ≡ some y
      → Mem y xs
  pick-Mem p better xs y h = pick-All (λ x. Mem x xs) p better xs y (All-self xs) h

  prefer_first : (o : Option A) (x : A) → prefer (λ a b. false) o x ≡ x
  unfolding prefer
  prefer_first none x = refl
  prefer_first (some y) x = refl

  -- A query without an order finds the same row when a row is added.
  pub pick-append :
      (p : A → Bool) (xs ys : List A) (y : A)
      → pick p (λ a b. false) xs ≡ some y
      → pick p (λ a b. false) (xs ++ ys) ≡ some y
  unfolding pick prefer
  pick-append p [] ys y h = absurd (ground arith)
  pick-append p (x ∷ xs) ys y h = elim (Bool-cases (p x)) [
    | inr e ↦ rw e (pick-append p xs ys y (ground arith))
    | inl e ↦ rw e (
        rw (prefer_first (pick p (λ a b. false) (xs ++ ys)) x) (
          subst (λ (z : A). some z ≡ some y) (prefer_first (pick p (λ a b. false) xs) x)
            (ground arith)))
  ]

  -- The row that a query picks is one that no row of the query beats.
  pub pick-best {κ} :
      (R : A → A → Type κ) (p : A → Bool) (better : A → A → Bool)
      → ((x : A) → R x x)
      → ((x y z : A) → R x y → R y z → R x z)
      → ((x y : A) → better x y ≡ true → R x y)
      → ((x y : A) → better x y ≡ false → R y x)
      → (xs : List A) (y : A) → pick p better xs ≡ some y
      → All (λ x. p x ≡ true → R y x) xs
  unfolding pick prefer
  pick-best R p better here trans wins loses [] y h = tt
  pick-best R p better here trans wins loses (x ∷ xs) y h = elim (Bool-cases (p x)) [
    | inr e ↦
        (λ q. absurd (ground arith), pick-best R p better here trans wins loses xs y (ground arith))
    | inl e ↦ elim (Option-cases (pick p better xs)) [
      | inl n ↦
          let same : x ≡ y = ground arith in
          subst (λ (w : A). All (λ x'. p x' ≡ true → R w x') (x ∷ xs)) same
            (
              λ q. here x,
              All-map _ _ xs (λ x' f q. absurd (ground arith)) (pick-none p better xs n),
            )
      | inr (z, n) ↦ elim (Bool-cases (better z x)) [
        | inl b ↦
            let same : z ≡ y = ground arith in
            subst (λ (w : A). All (λ x'. p x' ≡ true → R w x') (x ∷ xs)) same
              (λ q. wins z x b, pick-best R p better here trans wins loses xs z n)
        | inr b ↦
            let same : x ≡ y = ground arith in
            subst (λ (w : A). All (λ x'. p x' ≡ true → R w x') (x ∷ xs)) same
              (
                λ q. here x,
                All-map _ _ xs (λ x' f q. trans x z x' (loses z x b) (f q))
                    (pick-best R p better here trans wins loses xs z n),
              )
      ]
    ]
  ]

  module _ (key : A → ℕ) where
    pub find_by-append :
        (k : ℕ) (xs ys : List A) (x : A)
        → find_by key k xs ≡ some x
        → find_by key k (xs ++ ys) ≡ some x
    unfolding find_by
    find_by-append k [] ys x h = absurd (ground arith)
    find_by-append k (y ∷ xs) ys x h = ground (arith, find_by-append k xs ys x)

    pub find_by-append_new :
        (k : ℕ) (xs : List A) (y : A)
        → find_by key k xs ≡ none
        → key y ≡ k
        → find_by key k (xs ++ y ∷ []) ≡ some y
    unfolding find_by
    find_by-append_new k [] y h e = ground arith
    find_by-append_new k (x ∷ xs) y h e = ground (arith, find_by-append_new k xs y)
