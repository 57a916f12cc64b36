-- ===== src/Sources/Active.antt =====
-- The active runs of a source (backend/app/source_monitoring.py).
use mathlib.Core.Path.{subst}
use dealflow_radar.Common.{
  ℕ, ◌≤◌, ◌≡◌, refl, ◌≢◌, sym, ◌∙◌, String, Option, none, some, Bool, true, false, ◌||◌, not, List,
  [], ◌∷◌, ◌++◌, arith, All, ==_iff, if◌then◌else◌, Bool-cases, Option-cases, Result-cases, inl,
  inr, ◌⊎◌, pick, pick-append, Result, ok, err, pick-none, pick_passes, count, count-append,
  count-eq-zero, count-store_by, find_by-pick, store_by-UniqueBy, UniqueBy, UniqueBy-append_one,
  key-find_by,
}
use dealflow_radar.Sources.Data.{
  Error, Db, User, Source, Run, Policy, is_active, is_active_of, is_running, is_mine, unordered,
}
use dealflow_radar.Sources.Queue.{
  Request, queueable, queue_found, add_run, new_run, existing_run, active_run, queue_source_check,
}
use dealflow_radar.Sources.Lease.{
  Lease, leased, take_run, lease_next_run, is_leasable, earlier, store_run, find_run, dry_row,
  complete_run, complete_dry_run, holds, load_locked, held_run, held_source, pair_up, is_free,
}
use dealflow_radar.Sources.Fetch.{Batch, finished_run, collect, store_source}
use dealflow_radar.Sources.Worker.{
  apply_fetch_result, FetchError, failed_run, record_fetch_failure, Settings, World, run_lease,
  check_source, finish_check, calls_disabled, Fetched, fetched, refused, run_worker_once,
}

-- The ids of runs are unique, and a source has one active run at most.
pub record IsSingle (db : Db) : Type 0 where
  pub unique : UniqueBy (λ (r : Run). r.id) db.runs
  pub single : (k : ℕ) → count (is_active_of k) db.runs ≤ 1

pub queue_cases :
    (run_key : ℕ → String) (run_id now : ℕ) (user : User) (p : Policy) (q : Request) (db : Db)
    → ((queue_source_check run_key run_id now user p q db).1 ≡ db)
      ⊎ ((s : Source) × (active_run s.id db ≡ none)
          × ((queue_source_check run_key run_id now user p q db).1
              ≡ record db { runs = db.runs ++ new_run run_key run_id now user p q s ∷ [] }))
unfolding queue_source_check existing_run
queue_cases run_key run_id now user p q db = elim (Result-cases (queueable user q db)) [
  | inr (e, h) ↦ inl (rw h)
  | inl (s, h) ↦ elim (Option-cases (existing_run q s db)) [
    | inr (r, f) ↦ inl (rw (h, f))
    | inl f ↦ inr (s, ground arith, rw (h, f))
  ]
]

-- A run id that no run has.
abbrev pub IsFresh : ℕ → Db → Type 0
IsFresh k db = All (λ (r : Run). r.id ≢ k) db.runs

queued-IsSingle :
    (run_key : ℕ → String) (run_id now : ℕ) (user : User) (p : Policy) (q : Request) (db : Db)
    → IsFresh run_id db
    → IsSingle db
    → IsSingle (queue_source_check run_key run_id now user p q db).1
queued-IsSingle run_key run_id now user p q db fresh h =
    elim (queue_cases run_key run_id now user p q db) [
      | inl e ↦ rw e h
      | inr (s, free, e) ↦
          let r : Run = new_run run_key run_id now user p q s in
          let none_active : count (is_active_of s.id) db.runs ≡ 0 =
            count-eq-zero (is_active_of s.id) db.runs
              (pick-none (is_active_of s.id) unordered db.runs (unfold active_run in free)) in
          rw e (record {
            unique =
                UniqueBy-append_one (λ (x : Run). x.id) r db.runs (unfold new_run in fresh)
                  h.unique;
            single = λ k.
                unfold new_run count in
                ground (
                  arith,
                  count-append (is_active_of k) db.runs (r ∷ []),
                  none_active,
                  h.single k,
                  ==_iff s.id k,
                );
          })
    ]

-- A queueing leaves the active run of each source the one that it was.
active_kept :
    (run_key : ℕ → String) (run_id now : ℕ) (user : User) (p : Policy) (q : Request) (db : Db)
    (k : ℕ)
    → (active_run k db ≡ none)
      ⊎ (active_run k (queue_source_check run_key run_id now user p q db).1 ≡ active_run k db)
unfolding active_run unordered
active_kept run_key run_id now user p q db k =
    elim (Option-cases (pick (is_active_of k) (λ a b. false) db.runs)) [
      | inl n ↦ inl n
      | inr (r, n) ↦ elim (queue_cases run_key run_id now user p q db) [
        | inl e ↦ inr (rw e refl)
        | inr (s, free, e) ↦ inr (
            rw e (
              rw n (
                pick-append (is_active_of k) db.runs (new_run run_key run_id now user p q s ∷ []) r
                  n)))
      ]
    ]

existing_active :
    (q : Request) (s : Source) (db : Db) (r : Run)
    → active_run s.id db ≡ some r
    → existing_run q s db ≡ some r
unfolding existing_run
existing_active q s db r n =
    let first : pick (is_active_of s.id) unordered db.runs ≡ some r = unfold active_run in n in
    rw (first, existing_run) refl

-- A request for a source that has an active run is refused, or answered by that run.
active_answers :
    (run_key : ℕ → String) (run_id now : ℕ) (user : User) (p : Policy) (q : Request) (db : Db)
    → ((e : Error) × (queue_source_check run_key run_id now user p q db ≡ (err e, db)))
      ⊎ ((s : Source) × (queueable user q db ≡ ok s)
          × ((active_run s.id db ≡ none)
              ⊎ ((r : Run) × (active_run s.id db ≡ some r)
                  × (queue_source_check run_key run_id now user p q db ≡ (ok r, db)))))
unfolding queue_source_check queue_found add_run
active_answers run_key run_id now user p q db = elim (Result-cases (queueable user q db)) [
  | inr (e, h) ↦ inl (e, rw h refl)
  | inl (s, h) ↦ elim (Option-cases (active_run s.id db)) [
    | inl n ↦ inr (s, h, inl n)
    | inr (r, n) ↦
        let existing : existing_run q s db ≡ some r = existing_active q s db r n in
        inr (s, h, inr (r, n, rw (h, existing) refl))
  ]
]

-- What a queueing answers and leaves, by the active run of its source and of every other.
abbrev pub KeepsActive : User → Request → Db → Result Error Run × Db → Type 0
KeepsActive user q db x =
    ((k : ℕ) → (active_run k db ≡ none) ⊎ (active_run k x.1 ≡ active_run k db))
    × (((e : Error) × (x ≡ (err e, db)))
        ⊎ ((s : Source) × (queueable user q db ≡ ok s)
            × ((active_run s.id db ≡ none)
                ⊎ ((r : Run) × (active_run s.id db ≡ some r) × (x ≡ (ok r, db))))))

-- Queueing a check under a fresh run id keeps the ids of runs unique and every source at one active
-- run at most; a source that has an active run keeps that run as it is; and a request is refused and
-- changes nothing, or is for a source that has no active run, or is answered by the active run of its
-- source and changes nothing.
pub queue_source_check-IsSingle :
    (run_key : ℕ → String) (run_id now : ℕ) (user : User) (p : Policy) (q : Request) (db : Db)
    → IsFresh run_id db
    → IsSingle db
    → IsSingle (queue_source_check run_key run_id now user p q db).1
      × KeepsActive user q db (queue_source_check run_key run_id now user p q db)
queue_source_check-IsSingle run_key run_id now user p q db fresh h = (
  queued-IsSingle run_key run_id now user p q db fresh h,
  (active_kept run_key run_id now user p q db, active_answers run_key run_id now user p q db),
)

-- Writing a run that is active only if it was.
store_run-IsSingle :
    (db : Db) (r s : Run)
    → find_run s.id db ≡ some r
    → s.trusted_source_id ≡ r.trusted_source_id
    → (is_active s.status ≡ true → is_active r.status ≡ true)
    → IsSingle db
    → IsSingle (store_run s db)
unfolding store_run find_run
store_run-IsSingle db r s f e keeps h = record {
  unique = store_by-UniqueBy (λ (x : Run). x.id) s db.runs h.unique;
  single = λ k.
      ground (arith, count-store_by (λ (x : Run). x.id) (is_active_of k) db.runs r s f, h.single k);
}

is_leasable_active :
    (user : User) (now : ℕ) (db : Db) (r : Run)
    → is_leasable user now db r ≡ true
    → is_active r.status ≡ true
unfolding is_leasable is_free
is_leasable_active user now db r h = ground arith

lease_next_run-IsSingle :
    (user : User) (p : Policy) (now : ℕ) (db : Db)
    → IsSingle db
    → IsSingle (lease_next_run user p now db).1
unfolding lease_next_run
lease_next_run-IsSingle user p now db h =
    elim (Option-cases (pick (is_leasable user now db) earlier db.runs)) [
      | inl e ↦ unfold take_run in rw e h
      | inr (r, e) ↦
          let f : find_run r.id db ≡ some r =
            unfold find_run in
            find_by-pick (λ (x : Run). x.id) (is_leasable user now db) earlier db.runs r h.unique
              e in
          let active =
            is_leasable_active user now db r
              (pick_passes (is_leasable user now db) earlier db.runs r e) in
          unfold take_run in
          rw e (
            store_run-IsSingle db r (leased p now r) (unfold leased in f) (unfold leased in refl)
              (λ _. active) h)
    ]

pub find_run-id : (k : ℕ) (db : Db) (r : Run) → find_run k db ≡ some r → r.id ≡ k
unfolding find_run
find_run-id k db r f = key-find_by (λ (x : Run). x.id) k db.runs r f

self_found : (k : ℕ) (db : Db) (r : Run) → find_run k db ≡ some r → find_run r.id db ≡ some r
self_found k db r f = subst (λ (j : ℕ). find_run j db ≡ some r) (sym (find_run-id k db r f)) f

complete_dry_run-IsSingle :
    (lease : Lease) (now : ℕ) (db : Db) → IsSingle db → IsSingle (complete_dry_run lease now db).1
unfolding complete_dry_run
complete_dry_run-IsSingle lease now db h = elim (Option-cases (find_run lease.run_id db)) [
  | inl e ↦ unfold complete_run in rw e h
  | inr (r, e) ↦ elim (Bool-cases (is_running r.status)) [
    | inr n ↦ unfold complete_run in rw e (rw n h)
    | inl y ↦
        let kept =
          store_run-IsSingle db r (dry_row now r) (unfold dry_row in self_found lease.run_id db r e)
            (unfold dry_row in refl) (λ _. ground arith) h in
        unfold complete_run in rw e (rw y (record { unique = kept.unique; single = kept.single }))
  ]
]

pub load_locked_found :
    (lease : Lease) (now : ℕ) (db : Db) (r : Run) (s : Source)
    → load_locked lease now db ≡ some (r, s)
    → (find_run lease.run_id db ≡ some r) × (is_running r.status ≡ true)
unfolding load_locked held_run held_source pair_up holds
load_locked_found lease now db r s h = ground arith

-- Ending a held run, with whatever else is written to other tables.
end_run-IsSingle :
    (lease : Lease) (now : ℕ) (db db' : Db) (r r' : Run) (s : Source)
    → load_locked lease now db ≡ some (r, s)
    → (r'.id ≡ r.id) × (r'.trusted_source_id ≡ r.trusted_source_id)
    → db'.runs ≡ (store_run r' db).runs
    → IsSingle db
    → IsSingle db'
end_run-IsSingle lease now db db' r r' s held (i, t) e h =
    let (f, active) = load_locked_found lease now db r s held in
    let found : find_run r'.id db ≡ some r =
      subst (λ (j : ℕ). find_run j db ≡ some r) (sym (i ∙ find_run-id lease.run_id db r f)) f in
    let kept = store_run-IsSingle db r r' found t (λ _. ground arith) h in
    record {
      unique = subst (λ (rs : List Run). UniqueBy (λ (x : Run). x.id) rs) (sym e) kept.unique;
      single =
          λ k. subst (λ (rs : List Run). count (is_active_of k) rs ≤ 1) (sym e) (kept.single k);
    }

apply_fetch_result-IsSingle :
    (known : Bool) (fresh : ℕ) (lease : Lease) (b : Batch) (now : ℕ) (db : Db)
    → IsSingle db
    → IsSingle (apply_fetch_result known fresh lease b now db).1
unfolding apply_fetch_result
apply_fetch_result-IsSingle known fresh lease b now db h =
    elim (Option-cases (load_locked lease now db)) [
      | inl e ↦ rw e h
      | inr ((r, s), e) ↦ elim (Bool-cases known) [
        | inr n ↦ rw (e, n) h
        | inl y ↦
            rw (e, y)
              (end_run-IsSingle lease now db _ r
                (finished_run now b (collect fresh now s r.id b db.candidates) r) s e
                (unfold finished_run in (refl, refl)) (unfold store_source in refl) h)
      ]
    ]

record_fetch_failure-IsSingle :
    (lease : Lease) (x : FetchError) (now : ℕ) (db : Db)
    → IsSingle db
    → IsSingle (record_fetch_failure lease x now db).1
unfolding record_fetch_failure
record_fetch_failure-IsSingle lease x now db h = elim (Option-cases (load_locked lease now db)) [
  | inl e ↦ rw e h
  | inr ((r, s), e) ↦ rw e (
      end_run-IsSingle lease now db _ r (failed_run x now r) s e (unfold failed_run in (refl, refl))
        (unfold store_source in refl) h)
]

either-IsSingle :
    {A : Type 0} (b : Bool) (x y : A × Db)
    → IsSingle x.1
    → IsSingle y.1
    → IsSingle (if b then x else y).1
either-IsSingle true x y hx hy = hx
either-IsSingle false x y hx hy = hy

check_source-IsSingle :
    (found : Option Source) (w : World) (lease : Lease) (db : Db)
    → IsSingle db
    → IsSingle (check_source found w lease db).1
unfolding check_source
check_source-IsSingle none w lease db h = h
check_source-IsSingle (some s) w lease db h = finish (w.check lease s db)
  where
    finish : (f : Fetched) → IsSingle (finish_check f w lease s db).1
    finish (fetched b) =
        apply_fetch_result-IsSingle (w.company_known s.company_id) w.fresh lease b w.completed_at db
          h
    finish (refused e) = record_fetch_failure-IsSingle lease e w.completed_at db h

run_lease-IsSingle :
    (lease : Option Lease) (user : User) (t : Settings) (w : World) (now : ℕ) (db : Db)
    → IsSingle db
    → IsSingle (run_lease lease user t w now db).1
unfolding run_lease
run_lease-IsSingle none user t w now db h = h
run_lease-IsSingle (some lease) user t w now db h =
    either-IsSingle lease.dry_run _ _ (complete_dry_run-IsSingle lease now db h) (
      either-IsSingle (not t.external_calls_enabled || not t.trusted_source_calls_enabled) _ _
        (record_fetch_failure-IsSingle lease calls_disabled now db h)
        (check_source-IsSingle (pick (is_mine user lease.trusted_source_id) unordered db.sources) w
          lease db h))

-- A round of the worker, whatever the fetcher answers, keeps the ids of runs unique and every source
-- at one active run at most.
pub run_worker_once-IsSingle :
    (user : User) (t : Settings) (w : World) (now : ℕ) (db : Db)
    → IsSingle db
    → IsSingle (run_worker_once user t w now db).1
unfolding run_worker_once
run_worker_once-IsSingle user t w now db h =
    either-IsSingle user.is_platform_admin _ _
      (run_lease-IsSingle (lease_next_run user t.policy now db).0 user t w now
        (lease_next_run user t.policy now db).1 (lease_next_run-IsSingle user t.policy now db h))
      h
