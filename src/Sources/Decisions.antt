-- ===== src/Sources/Decisions.antt =====
-- Repeated decisions on a candidate document (backend/app/source_monitoring.py).
use mathlib.Core.Path.{subst}
use dealflow_radar.Common.{
  ℕ, ◌≡◌, refl, ap, ◌∙◌, String, Option, none, some, Bool, true, false, ◌&&◌, ◌==◌, arith, ok, err,
  Bool-cases, inl, inr, pick, pick_passes, pick-store_by, store_by,
}
use dealflow_radar.Sources.Data.{Db, User, Candidate, Processing, already_processed, unordered}
use dealflow_radar.Sources.Review.{
  same_decision, is_pending, has_source, decided, decide_row, decide_candidate_document,
}

is_asked : User → ℕ → Candidate → Bool
is_asked user k c = c.id == k && c.tenant_id == user.tenant_id

same_decision_refl : (d : Processing) → same_decision d d ≡ true
unfolding same_decision
same_decision_refl d = ground arith

decide_again :
    (user : User) (known : ℕ → Bool) (d : Processing) (reason : String) (now : ℕ) (db : Db)
    (c : Candidate)
    → is_pending c.processing_status ≡ false
    → same_decision c.processing_status d ≡ true
    → decide_row user known d reason now db (some c) ≡ (ok c, db)
unfolding decide_row
decide_again user known d reason now db c n e = rw (n, e) refl

decide_other :
    (user : User) (known : ℕ → Bool) (d : Processing) (reason : String) (now : ℕ) (db : Db)
    (c : Candidate)
    → is_pending c.processing_status ≡ false
    → same_decision c.processing_status d ≡ false
    → decide_row user known d reason now db (some c) ≡ (err already_processed, db)
unfolding decide_row
decide_other user known d reason now db c n e = rw (n, e) refl

same_decision_eq : (a b : Processing) → same_decision a b ≡ true → a ≡ b
unfolding same_decision
same_decision_eq a b h = ground arith

-- What a decision that was accepted leaves: the candidate that it answers is found, is no longer
-- pending, and has the decision.
decided_row :
    (user : User) (known : ℕ → Bool) (k : ℕ) (d : Processing) (reason : String) (now : ℕ)
    (db db' : Db) (c : Candidate) (o : Option Candidate)
    → pick (is_asked user k) unordered db.candidates ≡ o
    → decide_row user known d reason now db o ≡ (ok c, db')
    → (pick (is_asked user k) unordered db'.candidates ≡ some c) × (c.processing_status ≡ d)
unfolding decide_row
decided_row user known k d reason now db db' c none f h = absurd (ground arith)
decided_row user known k d reason now db db' c (some x) f h =
    elim (Bool-cases (is_pending x.processing_status)) [
      | inl p ↦ elim (Bool-cases (known x.company_id && has_source x.trusted_source_id db)) [
        | inr n ↦ absurd (ground arith)
        | inl y ↦
            let passes : is_asked user k (decided user d reason now x) ≡ true =
              unfold decided is_asked in
              pick_passes (is_asked user k) unordered db.candidates x f in
            let kept : pick (is_asked user k) unordered
                  (store_by (λ (z : Candidate). z.id) (decided user d reason now x) db.candidates)
                ≡ some (decided user d reason now x) =
              pick-store_by (λ (z : Candidate). z.id) (is_asked user k) db.candidates x
                (decided user d reason now x) f (unfold decided in refl) passes in
            let same : decided user d reason now x ≡ c = ground arith in
            let after : record db {
              candidates =
                  store_by (λ (z : Candidate). z.id) (decided user d reason now x) db.candidates;
            }
                ≡ db' =
              ground arith in
            (
              subst (λ (e : Db). pick (is_asked user k) unordered e.candidates ≡ some c) after
                  (kept ∙ ap some same),
              subst (λ (e : Candidate). e.processing_status ≡ d) same (unfold decided in refl),
            )
      ]
      | inr n ↦ elim (Bool-cases (same_decision x.processing_status d)) [
        | inr m ↦ absurd (ground arith)
        | inl m ↦
            let same : x ≡ c = ground arith in
            let after : db ≡ db' = ground arith in
            (
              subst (λ (e : Db). pick (is_asked user k) unordered e.candidates ≡ some c) after
                  (f ∙ ap some same),
              subst (λ (e : Candidate). e.processing_status ≡ d) same
                  (same_decision_eq x.processing_status d m),
            )
      ]
    ]

-- A decision other than "pending" that is accepted is final: the candidate has it, the same decision
-- again answers the same candidate and any other is refused, both without a change.
pub decide_candidate_document_final :
    (user : User) (known known' : ℕ → Bool) (k : ℕ) (d d' : Processing) (reason reason' : String)
    (now now' : ℕ) (db db' : Db) (c : Candidate)
    → is_pending d ≡ false
    → same_decision d d' ≡ false
    → decide_candidate_document user known k d reason now db ≡ (ok c, db')
    → (c.processing_status ≡ d)
      × (decide_candidate_document user known' k d reason' now' db' ≡ (ok c, db'))
      × (decide_candidate_document user known' k d' reason' now' db' ≡ (err already_processed, db'))
unfolding decide_candidate_document is_asked
decide_candidate_document_final user known known' k d d' reason reason' now now' db db' c n m h =
    elim (Bool-cases user.is_platform_admin) [
      | inr a ↦ absurd (ground arith)
      | inl a ↦
          let (f, e) =
            decided_row user known k d reason now db db' c
              (pick (is_asked user k) unordered db.candidates) refl (ground arith) in
          let n' : is_pending c.processing_status ≡ false = rw e n in
          let s : same_decision c.processing_status d ≡ true = rw e (same_decision_refl d) in
          let s' : same_decision c.processing_status d' ≡ false = rw e m in
          (
            e,
            simp a (rw f (decide_again user known' d reason' now' db' c n' s)),
            simp a (rw f (decide_other user known' d' reason' now' db' c n' s')),
          )
    ]
