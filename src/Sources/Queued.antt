-- ===== src/Sources/Queued.antt =====
-- What a list of requests adds to the runs (backend/app/source_monitoring.py).
use dealflow_radar.Common.{
  ℕ, suc, ◌≤◌, ◌≡◌, refl, sym, ap, ◌∙◌, subst, inl, inr, String, List, [], ◌∷◌, ◌++◌, arith, All,
  length, length-append, Result, ok, err, Result-cases, Option-cases, pick, pick_passes, ◌>>=◌,
  All-append,
}
use mathlib.Core.List.{append-nil, append_assoc}
use dealflow_radar.Sources.Data.{Db, User, Source, Run, Policy, Error, is_mine, unordered}
use dealflow_radar.Sources.Queue.{
  Request, queueable, new_run, existing_run, queue_found, add_run, queue_source_check, queue_each,
}

queueable-id :
    (user : User) (q : Request) (db : Db) (s : Source)
    → queueable user q db ≡ ok s
    → s.id ≡ q.source_id
unfolding queueable
queueable-id user q db s h =
    elim (Option-cases (pick (is_mine user q.source_id) unordered db.sources)) [
      | inl n ↦ absurd (ground arith)
      | inr (u, n) ↦
          let e : u ≡ s = ground arith in
          let m = pick_passes (is_mine user q.source_id) unordered db.sources u n in
          let i : u.id ≡ q.source_id = ground (arith, m) in
          subst (λ (x : Source). x.id ≡ q.source_id) e i
    ]

-- The runs that are added, for sources of which this holds.
abbrev pub Adds : (ℕ → Type 0) → ℕ → List Run → List Run → Type 0
Adds P n before after =
    (rs : List Run) × (after ≡ before ++ rs) × (length rs ≤ n) × All (λ r. P r.trusted_source_id) rs

queue_source_check-Adds :
    (P : ℕ → Type 0) (run_key : ℕ → String) (run_id now : ℕ) (user : User) (p : Policy)
    (q : Request) (db : Db)
    → P q.source_id
    → Adds P 1 db.runs (queue_source_check run_key run_id now user p q db).1.runs
unfolding queue_source_check queue_found add_run
queue_source_check-Adds P run_key run_id now user p q db h =
    elim (Result-cases (queueable user q db)) [
      | inr (e, f) ↦ rw f ([], sym (append-nil db.runs), omega arith, tt)
      | inl (s, f) ↦ elim (Option-cases (existing_run q s db)) [
        | inr (r, g) ↦ rw (f, g) ([], sym (append-nil db.runs), omega arith, tt)
        | inl g ↦
            rw (f, g)
              (
                new_run run_key run_id now user p q s ∷ [],
                refl,
                omega arith,
                (unfold new_run in subst P (sym (queueable-id user q db s f)) h, tt),
              )
      ]
    ]

Adds-then :
    (P : ℕ → Type 0) (n : ℕ) (a b c : List Run) → Adds P 1 a b → Adds P n b c → Adds P (suc n) a c
Adds-then P n a b c (rs, e, l, h) (ss, f, m, g) = (
  rs ++ ss,
  f ∙ ap (λ (x : List Run). x ++ ss) e ∙ append_assoc a rs ss,
  omega (arith, l, m, length-append rs ss),
  All-append _ rs ss h g,
)

by_answer :
    (P : ℕ → Type 0) (n : ℕ) (before : List Run) (o : Result Error Run) (db : Db)
    (rest : Result Error (List Run) × Db)
    → Adds P n before db.runs
    → Adds P n before rest.1.runs
    → Adds P n before
        (elim o as (λ x. Result Error (List Run) × Db) [
          | err e ↦ (err e, db)
          | ok r ↦ (rest.0 >>= (λ rs. ok (r ∷ rs)), rest.1)
        ]).1.runs
by_answer P n before (ok r) db rest failed done = done
by_answer P n before (err e) db rest failed done = failed

pub queue_each-Adds :
    (P : ℕ → Type 0) (run_key : ℕ → String) (ids : ℕ → ℕ) (now : ℕ) (user : User) (p : Policy)
    (qs : List Request) (n : ℕ) (db : Db)
    → All (λ q. P q.source_id) qs
    → Adds P (length qs) db.runs (queue_each run_key ids now user p qs n db).1.runs
unfolding queue_each
queue_each-Adds P run_key ids now user p [] n db h = ([], sym (append-nil db.runs), omega arith, tt)
queue_each-Adds P run_key ids now user p (q ∷ qs) n db h =
    let first = queue_source_check run_key (ids n) now user p q db in
    let added = queue_source_check-Adds P run_key (ids n) now user p q db h.0 in
    let rest = queue_each-Adds P run_key ids now user p qs (suc n) first.1 h.1 in
    let both = Adds-then P (length qs) db.runs first.1.runs _ added rest in
    let failed : Adds P (suc (length qs)) db.runs first.1.runs =
      (added.0, added.1, omega (arith, added.2), added.3) in
    by_answer P (suc (length qs)) db.runs first.0 first.1
      (queue_each run_key ids now user p qs (suc n) first.1) failed both
