-- ===== src/Evidence/Chains.antt =====
-- What the loop of `usable_matter_evidence` finds: the trail of citations from an evidence to the
-- one that cites nothing.
use text.Mathlib.Text.{starts_with}
use text.Mathlib.TextEquality.{starts_with_iff}
use text.Mathlib.TextBridge.{IsPrefix}
use text.Mathlib.TextLemmas.{append-nil, append_assoc}
use Prim.Native.String.{◌++◌ as text_append}
use dealflow_radar.Common.{
  ℕ, zero, suc, ◌<◌, String, ◌≡◌, refl, sym, ap, ◌∙◌, ◌↔◌, inl, inr, none, some, true, false, ◌&&◌,
  List, [], ◌∷◌, ◌==◌, any, same_text, eq_iff, Bool-cases, and_parts, Option-cases, arith, length,
}
use dealflow_radar.Evidence.Data.{Evidence, Session, Env, get_evidence}
use dealflow_radar.Evidence.Integrity.{
  excerpt_hash_status, is_legacy, is_authentic, is_readable, quotes, walk, usable_matter_evidence,
}

-- Each evidence of the list is the stored one that the evidence before it cites and quotes; the last
-- cites nothing.
abbrev pub IsTrail : Session → Evidence → List Evidence → Type 0
IsTrail s e [] = e.source_event_evidence_id ≡ none
IsTrail s e (o ∷ os) =
    (k : ℕ) × (e.source_event_evidence_id ≡ some k)
    × (get_evidence k s ≡ some o)
    × (quotes e o ≡ true)
    × IsTrail s o os

-- No evidence has an id that was met before.
abbrev pub IsFresh : List ℕ → Evidence → List Evidence → Type 0
IsFresh visited e [] = any (λ k. k == e.id) visited ≡ false
IsFresh visited e (o ∷ os) = (any (λ k. k == e.id) visited ≡ false) × IsFresh (e.id ∷ visited) o os

abbrev pub AllReadable : Session → Evidence → List Evidence → Type 0
AllReadable s e [] = is_readable s e ≡ true
AllReadable s e (o ∷ os) = (is_readable s e ≡ true) × AllReadable s o os

abbrev pub last_of : Evidence → List Evidence → Evidence
last_of e [] = e
last_of e (o ∷ os) = last_of o os

-- The evidence is traced in fewer than `n` citations to one whose excerpt has its hash.
abbrev pub Traced : Env → Session → ℕ → List ℕ → Evidence → Type 0
Traced x s n visited e =
    (os : List Evidence) × (length os < n)
    × IsTrail s e os
    × AllReadable s e os
    × IsFresh visited e os
    × (is_authentic (excerpt_hash_status x none (last_of e os)) ≡ true)

-- One round of the loop, for an evidence that is readable and was not visited.
module _ (x : Env) (s : Session) (n : ℕ) (visited : List ℕ) (e : Evidence)
    (v : any (λ k. k == e.id) visited ≡ false) (r : is_readable s e ≡ true) where
  walk_origin :
      e.source_event_evidence_id ≡ none
      → walk x s (suc n) visited e ≡ is_authentic (excerpt_hash_status x none e)
  unfolding walk excerpt_hash_status is_legacy
  walk_origin c = rw (v, r, c) refl

  walk_lost :
      (k : ℕ)
      → e.source_event_evidence_id ≡ some k
      → get_evidence k s ≡ none
      → walk x s (suc n) visited e ≡ false
  unfolding walk
  walk_lost k c f = rw (v, r, c, f) refl

  walk_next :
      (k : ℕ) (o : Evidence)
      → e.source_event_evidence_id ≡ some k
      → get_evidence k s ≡ some o
      → walk x s (suc n) visited e ≡ (quotes e o && walk x s n (e.id ∷ visited) o)
  unfolding walk quotes
  walk_next k o c f = rw (v, r, c, f) refl

walk_first :
    (x : Env) (s : Session) (n : ℕ) (visited : List ℕ) (e : Evidence)
    → walk x s (suc n) visited e ≡ true
    → (any (λ k. k == e.id) visited ≡ false) × (is_readable s e ≡ true)
unfolding walk
walk_first x s n visited e h = elim (Bool-cases (any (λ k. k == e.id) visited)) [
  | inl v ↦ absurd (ground arith)
  | inr v ↦ elim (Bool-cases (is_readable s e)) [ inl r ↦ (v, r) | inr r ↦ absurd (ground arith) ]
]

lost_true : false ≡ true → ⊥
lost_true h = ground arith

extend_trail :
    (x : Env) (s : Session) (n : ℕ) (visited : List ℕ) (e : Evidence) (k : ℕ) (o : Evidence)
    → any (λ k. k == e.id) visited ≡ false
    → is_readable s e ≡ true
    → e.source_event_evidence_id ≡ some k
    → get_evidence k s ≡ some o
    → quotes e o ≡ true
    → Traced x s n (e.id ∷ visited) o
    → Traced x s (suc n) visited e
extend_trail x s n visited e k o v r c f q (os, l, t, a, fresh, h) =
    (o ∷ os, omega arith, (k, c, f, q, t), (r, a), (v, fresh), h)

walk-Traced :
    (x : Env) (s : Session) (n : ℕ) (visited : List ℕ) (e : Evidence)
    → walk x s n visited e ≡ true
    → Traced x s n visited e
unfolding walk
walk-Traced x s zero visited e h = absurd (ground arith)
walk-Traced x s (suc n) visited e h =
    let (v, r) = walk_first x s n visited e h in
    elim (Option-cases e.source_event_evidence_id) [
      | inl c ↦ ([], omega arith, c, r, v, sym (walk_origin x s n visited e v r c) ∙ h)
      | inr (k, c) ↦ elim (Option-cases (get_evidence k s)) [
        | inl f ↦ absurd (lost_true (sym (walk_lost x s n visited e v r k c f) ∙ h))
        | inr (o, f) ↦
            let (q, w) =
              and_parts (quotes e o) (walk x s n (e.id ∷ visited) o)
                (sym (walk_next x s n visited e v r k o c f) ∙ h) in
            extend_trail x s n visited e k o v r c f q (walk-Traced x s n (e.id ∷ visited) o w)
      ]
    ]

Traced-walk :
    (x : Env) (s : Session) (n : ℕ) (visited : List ℕ) (e : Evidence) (os : List Evidence)
    → length os < n
    → IsTrail s e os
    → AllReadable s e os
    → IsFresh visited e os
    → is_authentic (excerpt_hash_status x none (last_of e os)) ≡ true
    → walk x s n visited e ≡ true
Traced-walk x s zero visited e os l t r v h = absurd (omega arith)
Traced-walk x s (suc n) visited e [] l c r v h = walk_origin x s n visited e v r c ∙ h
Traced-walk x s (suc n) visited e (o ∷ os) l (k, c, f, q, t) (r, a) (v, fresh) h =
    walk_next x s n visited e v r k o c f
    ∙ rw (q, Traced-walk x s n (e.id ∷ visited) o os (omega arith) t a fresh h) refl

-- An evidence is usable if and only if following its citations leads, after seven at most, to an
-- evidence that cites nothing and whose excerpt has its hash, where each evidence on the way is
-- displayed, public and healthy and its event neither retracted nor rejected, each is stored, has
-- the hash of the one that cites it and begins with its excerpt, and none is met twice.
pub usable_iff :
    (x : Env) (s : Session) (e : Evidence)
    → (usable_matter_evidence x s e ≡ true) ↔ Traced x s 8 [] e
unfolding usable_matter_evidence
usable_iff x s e =
    (walk-Traced x s 8 [] e, λ (os, l, t, a, fresh, h). Traced-walk x s 8 [] e os l t a fresh h)

prefix_trans : (r s t : String) → IsPrefix r s → IsPrefix s t → IsPrefix r t
prefix_trans r s t (u, p) (v, q) =
    (text_append u v, sym (append_assoc r u v) ∙ ap (λ z. text_append z v) p ∙ q)

trail_origin :
    (s : Session) (e : Evidence) (os : List Evidence)
    → IsTrail s e os
    → AllReadable s e os
    → ((last_of e os).source_event_evidence_id ≡ none)
      × (is_readable s (last_of e os) ≡ true)
      × (e.span_hash ≡ (last_of e os).span_hash)
      × IsPrefix e.evidence_excerpt (last_of e os).evidence_excerpt
unfolding quotes
trail_origin s e [] c r = (c, r, refl, ("", append-nil e.evidence_excerpt))
trail_origin s e (o ∷ os) (k, c, f, q, t) (r, a) =
    let (same, prefix) =
      and_parts (same_text e.span_hash o.span_hash)
        (starts_with o.evidence_excerpt e.evidence_excerpt) q in
    let (end, readable, hash, rest) = trail_origin s o os t a in
    (
      end,
      readable,
      (eq_iff e.span_hash o.span_hash).0 same ∙ hash,
      prefix_trans e.evidence_excerpt o.evidence_excerpt (last_of o os).evidence_excerpt
          ((starts_with_iff o.evidence_excerpt e.evidence_excerpt).0 prefix) rest,
    )

-- Usable evidence rests on an origin: following its citations in the tables leads, after seven at
-- most, to an evidence that cites nothing and whose excerpt is the one that its hash was taken of. Each
-- evidence on the way is displayed, public and healthy, and its event stands; the origin has the hash
-- of the usable evidence, and its excerpt begins with that of the usable evidence.
pub usable_matter_evidence_origin :
    (x : Env) (s : Session) (e : Evidence)
    → usable_matter_evidence x s e ≡ true
    → (os : List Evidence) × (length os < 8)
      × IsTrail s e os
      × AllReadable s e os
      × (is_authentic (excerpt_hash_status x none (last_of e os)) ≡ true)
      × ((last_of e os).source_event_evidence_id ≡ none)
      × (e.span_hash ≡ (last_of e os).span_hash)
      × IsPrefix e.evidence_excerpt (last_of e os).evidence_excerpt
usable_matter_evidence_origin x s e h =
    let (os, l, t, a, fresh, authentic) = (usable_iff x s e).0 h in
    let (end, readable, hash, prefix) = trail_origin s e os t a in
    (os, l, t, a, authentic, end, hash, prefix)
