-- ===== src/Common/Sorting.antt =====
-- Sorting keeps the items and puts them in order; counts under comparison of the tests.
use Prim.Native.Nat.{◌≤◌}
use mathlib.Core.Path.{◌≡◌, refl}
use mathlib.Core.Logic.{inl, inr}
use mathlib.Core.Bool.{Bool, true, false}
use mathlib.Core.List.{List, [], ◌∷◌}
use native.Mathlib.Omega.{arith}
use dealflow_radar.Common.Tests.{Bool-cases}
use dealflow_radar.Common.Lists.{All, insert_by, sort_by, insert_by-All}
use dealflow_radar.Common.Stores.{count}

module _ {ℓ} {A : Type ℓ} where
  pub All-map {κ μ} :
      (P : A → Type κ) (Q : A → Type μ) (xs : List A) → ((x : A) → P x → Q x) → All P xs → All Q xs
  All-map P Q [] f a = tt
  All-map P Q (x ∷ xs) f a = (f x a.0, All-map P Q xs f a.1)

  pub All-of {κ} : (P : A → Type κ) (xs : List A) → ((x : A) → P x) → All P xs
  All-of P [] f = tt
  All-of P (x ∷ xs) f = (f x, All-of P xs f)

  -- Fewer rows pass a test that asks more of the rows of the list.
  pub count_mono :
      (p q : A → Bool) (xs : List A)
      → All (λ x. p x ≡ true → q x ≡ true) xs
      → count p xs ≤ count q xs
  unfolding count
  count_mono p q [] a = omega arith
  count_mono p q (x ∷ xs) a = ground (arith, a.0, count_mono p q xs a.1)

  module _ (le : A → A → Bool) where
    count-insert_by :
        (p : A → Bool) (a : A) (xs : List A) → count p (insert_by le a xs) ≡ count p (a ∷ xs)
    unfolding count insert_by
    count-insert_by p a [] = refl
    count-insert_by p a (x ∷ xs) = ground (arith, count-insert_by p a xs)

    pub count-sort_by : (p : A → Bool) (xs : List A) → count p (sort_by le xs) ≡ count p xs
    unfolding count sort_by
    count-sort_by p [] = refl
    count-sort_by p (x ∷ xs) =
        ground (arith, count-insert_by p x (sort_by le xs), count-sort_by p xs)

    -- No item comes after one that it goes before.
    abbrev pub IsSorted : List A → Type 0
    IsSorted [] = Unit
    IsSorted (x ∷ xs) = All (λ y. le x y ≡ true) xs × IsSorted xs

    abbrev pub IsTotalOrder : Type ℓ
    IsTotalOrder =
        ((a b : A) → le a b ≡ false → le b a ≡ true)
        × ((a b c : A) → le a b ≡ true → le b c ≡ true → le a c ≡ true)

    insert_by-IsSorted :
        IsTotalOrder → (a : A) (xs : List A) → IsSorted xs → IsSorted (insert_by le a xs)
    unfolding insert_by
    insert_by-IsSorted o a [] s = (tt, tt)
    insert_by-IsSorted o a (x ∷ xs) s = elim (Bool-cases (le a x)) [
      | inl e ↦ rw e ((e, All-map _ _ xs (λ y h. o.1 a x y e h) s.0), s)
      | inr e ↦ rw e (
        insert_by-All le (λ y. le x y ≡ true) a xs (o.0 a x e) s.0,
        insert_by-IsSorted o a xs s.1,
      )
    ]

    pub sort_by-IsSorted : IsTotalOrder → (xs : List A) → IsSorted (sort_by le xs)
    unfolding sort_by
    sort_by-IsSorted o [] = tt
    sort_by-IsSorted o (x ∷ xs) = insert_by-IsSorted o x (sort_by le xs) (sort_by-IsSorted o xs)
