-- ===== src/Research/FullScope.antt =====
-- `full_scope_topics`: the plan of a refresh of all topics.
use Prim.Native.String.{◌++◌ as text_append}
use dealflow_radar.Common.{
  ◌+◌, ◌≤◌, ◌≡◌, refl, ◌∙◌, inl, inr, String, Bool, true, false, not, ◌&&◌, List, [], ◌∷◌, ◌++◌,
  map, any, take, All, All-map, All-of, same_text, if◌then◌else◌, Bool-cases, arith, count, keep,
  count-sort_by, count_mono, count-eq-zero, eq_iff,
}
use dealflow_radar.Research.Data.{Coverage, topics, is_in}
use dealflow_radar.Research.Plan.{
  no_later, attempt_order, groups, zip, plan_topics, full_order, drop_two, full_scope_topics,
}

count-zip :
    (q : String → Bool) (f : String → String) (cs : List String)
    → count (λ p. q p.1) (zip (map f cs) cs) ≡ count q cs
unfolding zip count
count-zip q f [] = refl
count-zip q f (c ∷ cs) = omega (arith, count-zip q f cs)

count-keep :
    (p q : String → Bool) (xs : List String) → count p (keep q xs) ≡ count (λ t. q t && p t) xs
unfolding count keep
count-keep p q [] = refl
count-keep p q (x ∷ xs) = ground (arith, count-keep p q xs)

-- The topics that come after the first two, the same as the topic.
abbrev after : String → String → String → String → Bool
after p q c t = not (is_in (p ∷ q ∷ []) t) && same_text t c

after_same :
    (p q c t : String)
    → same_text p c ≡ false
    → same_text q c ≡ false
    → same_text t c ≡ true
    → after p q c t ≡ true
unfolding is_in
after_same p q c t a b h = let e : t ≡ c = (eq_iff t c).0 h in rw e (ground arith)

after_first :
    (p q c t : String) → any (λ s. same_text s c) (p ∷ q ∷ []) ≡ true → after p q c t ≡ false
unfolding is_in
after_first p q c t a = elim (Bool-cases (same_text t c)) [
  | inr e ↦ ground arith
  | inl e ↦ let s : t ≡ c = (eq_iff t c).0 e in rw s (ground arith)
]

-- How often a plan with these first two topics takes the topic after them.
left_over :
    (p q c : String)
    → count (λ t. same_text t c) topics ≡ 1
    → (if same_text p c then 1 else 0) + (if same_text q c then 1 else 0) ≤ 1
    → (if same_text p c then 1 else 0)
        + ((if same_text q c then 1 else 0)
            + count (λ t. same_text t c) (keep (λ t. not (is_in (p ∷ q ∷ []) t)) topics))
      ≡ 1
left_over p q c one few =
    let k = count-keep (λ t. same_text t c) (λ t. not (is_in (p ∷ q ∷ []) t)) topics in
    elim (Bool-cases (any (λ s. same_text s c) (p ∷ q ∷ []))) [
      | inl e ↦
          let z =
            count-eq-zero (after p q c) topics (All-of _ topics (λ t. after_first p q c t e)) in
          ground (arith, k, z)
      | inr e ↦
          let up =
            count_mono (λ t. same_text t c) (after p q c) topics
              (All-of (λ t. same_text t c ≡ true → after p q c t ≡ true) topics
                (λ t h. after_same p q c t (ground arith) (ground arith) h)) in
          let down =
            count_mono (after p q c) (λ t. same_text t c) topics
              (All-of (λ t. after p q c t ≡ true → same_text t c ≡ true) topics
                (λ t h. ground arith)) in
          ground (arith, k, up, down)
    ]

assigned_once :
    (c : String) (order : List String)
    → count (λ t. true) order ≡ 8
    → count (λ t. same_text t c) order ≡ 1
    → count (λ t. same_text t c) topics ≡ 1
    → let full = full_order (map (λ p. p.1) (zip groups (take 2 order))) in
      count (λ p. same_text p.1 c) (zip (groups ++ map (text_append "scope_") (drop_two full)) full)
      ≡ 1
unfolding zip full_order count
assigned_once c [] l n one = absurd (omega (arith, l))
assigned_once c (p ∷ []) l n one = absurd (omega (arith, l))
assigned_once c (p ∷ q ∷ rest) l n one =
    let others = keep (λ t. not (is_in (p ∷ q ∷ []) t)) topics in
    omega (
      arith,
      count-zip (λ t. same_text t c) (text_append "scope_") others,
      left_over p q c one (omega (arith, n)),
    )

-- A refresh of the full scope assigns every topic to exactly one search group, whatever was attempted
-- before.
pub full_scope_topics_once :
    (hs : List Coverage) → All (λ c. count (λ p. same_text p.1 c) (full_scope_topics hs) ≡ 1) topics
unfolding full_scope_topics plan_topics attempt_order count
full_scope_topics_once hs =
    All-map (λ c. count (λ t. same_text t c) topics ≡ 1) _ topics
      (λ c h.
        assigned_once c (attempt_order hs) (count-sort_by (no_later hs) (λ t. true) topics)
          (count-sort_by (no_later hs) (λ t. same_text t c) topics ∙ h) h)
      (ground arith)
