-- ===== src/Research/Rotation.antt =====
-- `plan_topics` over the rounds of a company's research.
use dealflow_radar.Common.{
  ℕ, suc, ◌+◌, ◌*◌, ◌≤◌, ◌<◌, ◌≡◌, refl, ap, inl, inr, String, Bool, true, false, not, ◌&&◌, List,
  [], ◌∷◌, ◌++◌, any, take, length, All, leb, same_text, if◌then◌else◌, Bool-cases, and_parts,
  arith, count, count-sort_by, count_mono, All-of, All-map, IsSorted, IsTotalOrder,
  sort_by-IsSorted, eq_iff,
}
use dealflow_radar.Research.Data.{Coverage, topics}
use dealflow_radar.Research.Plan.{
  attempts, last_attempt, attempt_key, no_later, attempt_order, groups, zip, plan_topics,
}

last_attempt-le :
    (t : String) (last seq : ℕ) (hs : List Coverage)
    → last ≤ seq
    → last_attempt t last seq hs ≤ seq + length hs
unfolding last_attempt
last_attempt-le t last seq [] h = omega arith
last_attempt-le t last seq (x ∷ hs) h = elim (Bool-cases (attempts t x)) [
  | inl e ↦ rw e (omega (arith, last_attempt-le t (suc seq) (suc seq) hs (omega arith)))
  | inr e ↦ rw e (omega (arith, last_attempt-le t last (suc seq) hs (omega arith)))
]

last_attempt-append_one :
    (t : String) (last seq : ℕ) (hs : List Coverage) (r : Coverage)
    → last_attempt t last seq (hs ++ r ∷ [])
      ≡ (if attempts t r then suc (seq + length hs) else last_attempt t last seq hs)
unfolding last_attempt
last_attempt-append_one t last seq [] r = elim (Bool-cases (attempts t r)) [
  | inl e ↦ rw e (omega arith)
  | inr e ↦ rw e refl
]
last_attempt-append_one t last seq (x ∷ hs) r =
    ground
      (arith, last_attempt-append_one t (if attempts t x then suc seq else last) (suc seq) hs r)

-- The topics that come no later than a topic.
abbrev lag : (String → ℕ) → String → List String → ℕ
lag key c xs = count (λ t. leb (key t) (key c) && not (same_text t c)) xs

sorted_le :
    (key : String → ℕ) (p c : String) (xs : List String)
    → All (λ y. leb (key p) (key y) ≡ true) xs
    → 1 ≤ count (λ t. same_text t c) xs
    → leb (key p) (key c) ≡ true
unfolding count
sorted_le key p c [] a n = absurd (omega arith)
sorted_le key p c (x ∷ xs) a n = elim (Bool-cases (same_text x c)) [
  | inl e ↦ let s : x ≡ c = (eq_iff x c).0 e in rw (← s) a.0
  | inr e ↦ sorted_le key p c xs a.1 (ground arith)
]

lag_drop :
    (key key' : String → ℕ) (c p q : String) (rest : List String)
    → IsSorted (λ a b. leb (key a) (key b)) (p ∷ q ∷ rest)
    → 1 ≤ count (λ t. same_text t c) rest
    → same_text p c ≡ false
    → same_text q c ≡ false
    → key' c < key' p
    → key' c < key' q
    → key' c ≡ key c
    → ((t : String) → key t ≤ key' t)
    → lag key' c (p ∷ q ∷ rest) + 2 ≤ lag key c (p ∷ q ∷ rest)
unfolding count
lag_drop key key' c p q rest s n pc qc lp lq e up =
    let below = sorted_le key p c rest (s.0).1 n in
    let below' = sorted_le key q c rest (s.1).0 n in
    let less =
      count_mono (λ t. leb (key' t) (key' c) && not (same_text t c))
        (λ t. leb (key t) (key c) && not (same_text t c)) rest
        (All-of _ rest (λ t h. still t (up t) h)) in
    ground (arith, below, below', less)
  where
    still :
        (t : String)
        → key t ≤ key' t
        → (leb (key' t) (key' c) && not (same_text t c)) ≡ true
        → (leb (key t) (key c) && not (same_text t c)) ≡ true
    still t u h = ground arith

no_later-order : (hs : List Coverage) → IsTotalOrder (no_later hs)
unfolding no_later
no_later-order hs = (λ a b h. ground arith, λ a b c h k. ground arith)

order_length : (hs : List Coverage) → count (λ t. true) (attempt_order hs) ≡ 8
unfolding attempt_order count
order_length hs = count-sort_by (no_later hs) (λ t. true) topics

attempted_key :
    (hs : List Coverage) (r : Coverage) (t : String)
    → attempts t r ≡ true
    → attempt_key (hs ++ r ∷ []) t ≡ suc (length hs)
attempted_key hs r t a = ground (arith, last_attempt-append_one t 0 0 hs r)

kept_key :
    (hs : List Coverage) (r : Coverage) (t : String)
    → attempts t r ≡ false
    → attempt_key (hs ++ r ∷ []) t ≡ attempt_key hs t
kept_key hs r t a = ground (arith, last_attempt-append_one t 0 0 hs r)

key_grows :
    (hs : List Coverage) (r : Coverage) (t : String)
    → attempt_key hs t ≤ attempt_key (hs ++ r ∷ []) t
key_grows hs r t =
    ground (arith, last_attempt-append_one t 0 0 hs r, last_attempt-le t 0 0 hs (omega arith))

differs :
    (r : Coverage) (p c : String)
    → attempts p r ≡ true
    → attempts c r ≡ false
    → same_text p c ≡ false
differs r p c a u = elim (Bool-cases (same_text p c)) [
  | inr e ↦ e
  | inl e ↦
      let s : p ≡ c = (eq_iff p c).0 e in
      let t : attempts p r ≡ attempts c r = ap (λ (x : String). attempts x r) s in
      absurd (ground arith)
]

-- A round that attempts the first two topics of an order, and not this topic.
lag_round :
    (hs : List Coverage) (r : Coverage) (c : String) (order : List String)
    → IsSorted (no_later hs) order
    → count (λ t. true) order ≡ 8
    → 1 ≤ count (λ t. same_text t c) order
    → All (λ p. attempts p.1 r ≡ true) (zip groups (take 2 order))
    → attempts c r ≡ false
    → lag (attempt_key (hs ++ r ∷ [])) c order + 2 ≤ lag (attempt_key hs) c order
unfolding count zip no_later
lag_round hs r c [] s l n a u = absurd (omega (arith, l))
lag_round hs r c (p ∷ []) s l n a u = absurd (omega (arith, l))
lag_round hs r c (p ∷ q ∷ rest) s l n a u =
    let pc = differs r p c a.0 u in
    let qc = differs r q c a.1.0 u in
    let kp = attempted_key hs r p a.0 in
    let kq = attempted_key hs r q a.1.0 in
    let kc = kept_key hs r c u in
    let bound = last_attempt-le c 0 0 hs (omega arith) in
    lag_drop (attempt_key hs) (attempt_key (hs ++ r ∷ [])) c p q rest s (ground (arith, n, pc, qc))
      pc qc (omega (arith, kp, kc, bound)) (omega (arith, kq, kc, bound)) kc (key_grows hs r)

lag_step :
    (hs : List Coverage) (r : Coverage) (c : String)
    → 1 ≤ count (λ t. same_text t c) topics
    → All (λ p. attempts p.1 r ≡ true) (plan_topics hs)
    → attempts c r ≡ false
    → lag (attempt_key (hs ++ r ∷ [])) c topics + 2 ≤ lag (attempt_key hs) c topics
unfolding plan_topics attempt_order
lag_step hs r c n a u =
    let key' = attempt_key (hs ++ r ∷ []) in
    let key = attempt_key hs in
    let order = attempt_order hs in
    let step =
      lag_round hs r c order (sort_by-IsSorted (no_later hs) (no_later-order hs) topics)
        (order_length hs) (rw (count-sort_by (no_later hs) (λ t. same_text t c) topics) n) a u in
    omega (
      arith,
      step,
      count-sort_by (no_later hs) (λ t. leb (key' t) (key' c) && not (same_text t c)) topics,
      count-sort_by (no_later hs) (λ t. leb (key t) (key c) && not (same_text t c)) topics,
    )

-- Each round attempts at least the topics that are planned from the rounds before it.
unfoldable pub Follows : List Coverage → List Coverage → Type 0
Follows hs [] = Unit
Follows hs (r ∷ rs) = All (λ p. attempts p.1 r ≡ true) (plan_topics hs) × Follows (hs ++ r ∷ []) rs

attempted_soon :
    (hs rs : List Coverage) (c : String)
    → 1 ≤ count (λ t. same_text t c) topics
    → Follows hs rs
    → lag (attempt_key hs) c topics + 1 ≤ 2 * length rs
    → any (attempts c) rs ≡ true
unfolding Follows
attempted_soon hs [] c n f l = absurd (omega (arith, l))
attempted_soon hs (r ∷ rs) c n f l = elim (Bool-cases (attempts c r)) [
  | inl e ↦ rw e refl
  | inr e ↦
      rw e (attempted_soon (hs ++ r ∷ []) rs c n f.1 (omega (arith, l, lag_step hs r c n f.0 e)))
]

others : String → ℕ
others c = count (λ t. not (same_text t c)) topics

second : (a b : Bool) → (a && b) ≡ true → b ≡ true
second a b h = (and_parts a b h).1

lag-le : (hs : List Coverage) (c : String) → others c ≡ 7 → lag (attempt_key hs) c topics ≤ 7
unfolding others
lag-le hs c e =
    let key = attempt_key hs in
    let less =
      count_mono (λ t. leb (key t) (key c) && not (same_text t c)) (λ t. not (same_text t c)) topics
        (All-of _ topics (λ t. second (leb (key t) (key c)) (not (same_text t c)))) in
    omega (arith, less, e)

-- Each topic is one of eight.
each : All (λ c. (others c ≡ 7) × (1 ≤ count (λ t. same_text t c) topics)) topics
unfolding others count
each = ground arith

-- In any four rounds or more that follow each other, each of which attempts at least the topics that
-- the plan takes from the rounds before it, every topic is attempted, whatever was attempted before
-- them.
pub every_topic_attempted :
    (hs rs : List Coverage)
    → Follows hs rs
    → 4 ≤ length rs
    → All (λ c. any (attempts c) rs ≡ true) topics
unfolding others count
every_topic_attempted hs rs f n =
    let at = λ (c : String) (o : others c ≡ 7) (m : 1 ≤ count (λ t. same_text t c) topics).
      attempted_soon hs rs c m f (omega (arith, n, lag-le hs c o)) in
    All-map (λ c. (others c ≡ 7) × (1 ≤ count (λ t. same_text t c) topics)) _ topics
      (λ c h. at c h.0 h.1) each
