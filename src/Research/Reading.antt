-- ===== src/Research/Reading.antt =====
-- The loop of `order_candidates`.
use dealflow_radar.Common.{
  ℕ, zero, suc, ◌+◌, ◌≤◌, ◌<◌, ◌≡◌, refl, sym, ap, subst, ◌∙◌, ◌⊎◌, inl, inr, String, Option, none,
  some, Bool, true, false, List, [], ◌∷◌, ◌++◌, length, All, Bool-cases, arith, count, count-append,
  sort_by, count-sort_by, All-of,
}
use dealflow_radar.Research.Data.{Texts, Candidate}
use dealflow_radar.Research.Candidates.{
  has_reason, mark, reason_last, is_next, take_next, Pass, add_next, is_empty, unchanged, pass,
  rotate, start,
}

-- What taking the next item leaves.
module _ {ℓ} {A : Type ℓ} (p : A → Bool) where
  abbrev IsTaken : List A → A → List A → Type ℓ
  IsTaken xs c rest =
      (take_next p xs ≡ some (c, rest))
      × (p c ≡ true)
      × ((q : A → Bool) → count q xs ≡ count q (c ∷ rest))
      × (length xs ≡ suc (length rest))

  take_next-cases :
      (xs : List A)
      → ((take_next p xs ≡ none) × All (λ c. p c ≡ false) xs)
        ⊎ ((c : A) × (rest : List A) × IsTaken xs c rest)
  unfolding take_next count
  take_next-cases [] = inl (refl, tt)
  take_next-cases (x ∷ xs) = elim (Bool-cases (p x)) [
    | inl e ↦ inr (x, xs, (rw e refl, e, λ q. refl, refl))
    | inr e ↦ elim (take_next-cases xs) [
      | inl (n, a) ↦ inl (rw e (rw n refl), (e, a))
      | inr (c, rest, (n, h, q, l)) ↦
          inr (c, x ∷ rest, (rw e (rw n refl), h, λ r. ground (arith, q r), ground (arith, l)))
    ]
  ]

-- The candidates of the two lists of a pass.
abbrev of_pass : (Candidate → Bool) → Pass → ℕ
of_pass q s = count q s.ordered + count q s.remaining

-- What a pass over some categories keeps: the candidates, and that none in order is deferred.
abbrev Kept : Pass → Pass → Type 0
Kept s t =
    ((q : Candidate → Bool) → of_pass q t ≡ of_pass q s)
    × (All (λ c. has_reason c ≡ false) s.ordered → All (λ c. has_reason c ≡ false) t.ordered)
    × (length t.remaining ≤ length s.remaining)
    × ((t.changed ≡ s.changed) ⊎ (length t.remaining < length s.remaining))

Kept-trans : (s t u : Pass) → Kept s t → Kept t u → Kept s u
Kept-trans s t u a b =
    (λ q. ground (arith, a.0 q, b.0 q), λ h. b.1 (a.1 h), ground arith, ground arith)

no_reason_next :
    (x : Texts) (k : String) (c : Candidate) → is_next x k c ≡ true → has_reason c ≡ false
unfolding is_next
no_reason_next x k c h = ground arith

All-append {ℓ κ} :
    {A : Type ℓ} (P : A → Type κ) (xs ys : List A) → All P xs → All P ys → All P (xs ++ ys)
All-append P [] ys a b = b
All-append P (x ∷ xs) ys a b = (a.0, All-append P xs ys a.1 b)

add_next-Kept :
    (x : Texts) (k : String) (s : Pass) → Kept s (add_next (take_next (is_next x k) s.remaining) s)
unfolding add_next count
add_next-Kept x k s = elim (take_next-cases (is_next x k) s.remaining) [
  | inl (n, a) ↦ rw n (λ q. refl, λ h. h, omega arith, inl refl)
  | inr (c, rest, (n, h, q, l)) ↦ rw n (
    λ r. ground (arith, q r, count-append r s.ordered (c ∷ [])),
    λ a. All-append (λ c. has_reason c ≡ false) s.ordered (c ∷ []) a (no_reason_next x k c h, tt),
    omega (arith, l),
    inr (omega (arith, l)),
  )
]

pass-Kept : (x : Texts) (ks : List String) (s : Pass) → Kept s (pass x ks s)
unfolding pass
pass-Kept x [] s = (λ q. refl, λ h. h, omega arith, inl refl)
pass-Kept x (k ∷ ks) s =
    let t = add_next (take_next (is_next x k) s.remaining) s in
    Kept-trans s t (pass x ks t) (add_next-Kept x k s) (pass-Kept x ks t)

changed-add_next :
    (o : Option (Candidate × List Candidate)) (s : Pass)
    → s.changed ≡ true
    → (add_next o s).changed ≡ true
unfolding add_next
changed-add_next none s h = h
changed-add_next (some r) s h = refl

pass_changed :
    (x : Texts) (ks : List String) (s : Pass) → s.changed ≡ true → (pass x ks s).changed ≡ true
unfolding pass
pass_changed x [] s h = h
pass_changed x (k ∷ ks) s h =
    pass_changed x ks _ (changed-add_next (take_next (is_next x k) s.remaining) s h)

-- A pass that changes nothing found no candidate in any category.
pass_unchanged :
    (x : Texts) (ks : List String) (s : Pass)
    → (pass x ks s).changed ≡ false
    → (pass x ks s ≡ s) × All (λ k. All (λ c. is_next x k c ≡ false) s.remaining) ks
unfolding pass add_next
pass_unchanged x [] s h = (refl, tt)
pass_unchanged x (k ∷ ks) s h = elim (take_next-cases (is_next x k) s.remaining) [
  | inl (n, a) ↦
      let g = subst (λ o. (pass x ks (add_next o s)).changed ≡ false) n h in
      let rest = pass_unchanged x ks s g in
      (subst (λ o. pass x ks (add_next o s) ≡ s) (sym n) rest.0, (a, rest.1))
  | inr (c, rest, (n, f, q, l)) ↦
      let g = subst (λ o. (pass x ks (add_next o s)).changed ≡ false) n h in
      absurd (ground (arith, pass_changed x ks (add_next (some (c, rest)) s) refl))
]

-- Where the loop of a pass ends: with no fuel wasted, the same candidates, those without a reason to be
-- deferred first, and none left that a category could take.
abbrev HasEnded : ℕ → Texts → List String → Pass → Type 0
HasEnded n x ks s =
    ((extra : ℕ) → rotate (n + extra) x ks s ≡ rotate n x ks s)
    × ((q : Candidate → Bool) → of_pass q (rotate n x ks s) ≡ of_pass q s)
    × (All (λ c. has_reason c ≡ false) s.ordered
        → All (λ c. has_reason c ≡ false) (rotate n x ks s).ordered)
    × All (λ k. All (λ c. is_next x k c ≡ false) (rotate n x ks s).remaining) ks

All-empty :
    (x : Texts) (ks : List String) (cs : List Candidate)
    → is_empty cs ≡ true
    → All (λ k. All (λ c. is_next x k c ≡ false) cs) ks
unfolding is_empty
All-empty x ks [] e = All-of _ ks (λ k. tt)
All-empty x ks (c ∷ cs) e = absurd (ground arith)

length_empty : (cs : List Candidate) → length cs ≤ 0 → is_empty cs ≡ true
unfolding is_empty
length_empty [] h = refl
length_empty (c ∷ cs) h = absurd (omega (arith, h))

rotate_empty :
    (n : ℕ) (x : Texts) (ks : List String) (s : Pass)
    → is_empty s.remaining ≡ true
    → rotate n x ks s ≡ s
unfolding rotate
rotate_empty zero x ks s e = refl
rotate_empty (suc n) x ks s e = ground arith

HasEnded-empty :
    (n : ℕ) (x : Texts) (ks : List String) (s : Pass)
    → is_empty s.remaining ≡ true
    → HasEnded n x ks s
HasEnded-empty n x ks s e =
    rw (rotate_empty n x ks s e)
      (λ extra. rotate_empty (n + extra) x ks s e, λ q. refl, λ a. a, All-empty x ks s.remaining e)

rotate_on :
    (n : ℕ) (x : Texts) (ks : List String) (s : Pass)
    → is_empty s.remaining ≡ false
    → (pass x ks (unchanged s)).changed ≡ true
    → rotate (suc n) x ks s ≡ rotate n x ks (pass x ks (unchanged s))
unfolding rotate
rotate_on n x ks s e c = ground arith

rotate_off :
    (n : ℕ) (x : Texts) (ks : List String) (s : Pass)
    → is_empty s.remaining ≡ false
    → (pass x ks (unchanged s)).changed ≡ false
    → rotate (suc n) x ks s ≡ pass x ks (unchanged s)
unfolding rotate
rotate_off n x ks s e c = ground arith

plus : (n extra : ℕ) → suc n + extra ≡ suc (n + extra)
plus n extra = omega arith

rotate-HasEnded :
    (n : ℕ) (x : Texts) (ks : List String) (s : Pass) → length s.remaining ≤ n → HasEnded n x ks s
unfolding unchanged
rotate-HasEnded zero x ks s l = HasEnded-empty zero x ks s (length_empty s.remaining l)
rotate-HasEnded (suc n) x ks s l = elim (Bool-cases (is_empty s.remaining)) [
  | inl e ↦ HasEnded-empty (suc n) x ks s e
  | inr e ↦
      let next = pass x ks (unchanged s) in
      let kept = pass-Kept x ks (unchanged s) in
      elim (Bool-cases next.changed) [
        | inl c ↦
            let h = rotate-HasEnded n x ks next (ground arith) in
            rw (rotate_on n x ks s e c) (
              λ extra. rw (plus n extra) (rotate_on (n + extra) x ks s e c ∙ h.0 extra),
              λ q. h.1 q ∙ kept.0 q,
              λ a. h.2 (kept.1 a),
              h.3,
            )
        | inr c ↦
            let same = pass_unchanged x ks (unchanged s) c in
            rw (rotate_off n x ks s e c) (
              λ extra. rw (plus n extra) (rotate_off (n + extra) x ks s e c),
              kept.0,
              kept.1,
              subst (λ (t : Pass). All (λ k. All (λ d. is_next x k d ≡ false) t.remaining) ks)
                  (sym same.0) same.1,
            )
      ]
]

length-mark :
    (x : Texts) (seen : List String) (slots : ℕ) (cs : List Candidate)
    → length (mark x seen slots cs) ≡ length cs
unfolding mark
length-mark x seen slots [] = refl
length-mark x seen slots (c ∷ cs) = ap suc (length-mark x _ _ cs)

length-count {ℓ} : {A : Type ℓ} (xs : List A) → length xs ≡ count (λ y. true) xs
unfolding count
length-count [] = refl
length-count (y ∷ ys) = omega (arith, length-count ys)

length-start : (x : Texts) (cs : List Candidate) → length (start x cs).remaining ≡ length cs
unfolding start
length-start x cs = omega (
  arith,
  length-count (sort_by reason_last (mark x [] 0 cs)),
  length-count (mark x [] 0 cs),
  count-sort_by reason_last (λ y. true) (mark x [] 0 cs),
  length-mark x [] 0 cs,
)

-- The loop of `order_candidates` ends within one round for each candidate: with more rounds allowed it
-- does the same, and at its end no candidate that remains could be taken for any of the categories.
pub rotate_ends :
    (x : Texts) (cs : List Candidate) (ks : List String)
    → ((extra : ℕ)
        → rotate (length cs + extra) x ks (start x cs) ≡ rotate (length cs) x ks (start x cs))
      × All
          (λ k. All (λ c. is_next x k c ≡ false) (rotate (length cs) x ks (start x cs)).remaining)
          ks
rotate_ends x cs ks =
    let h = rotate-HasEnded (length cs) x ks (start x cs) (omega (arith, length-start x cs)) in
    (h.0, h.3)
