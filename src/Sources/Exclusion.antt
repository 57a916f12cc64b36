-- ===== src/Sources/Exclusion.antt =====
-- A leased run among the other runs (backend/app/source_monitoring.py): what workers and
-- administrators may do while a worker holds it.
use mathlib.Core.Path.{subst}
use mathlib.Core.Bool.{false≢true}
use dealflow_radar.Common.{
  ℕ, ◌<◌, ◌≡◌, refl, ◌≢◌, sym, ap, ◌∙◌, String, some, Bool, [], ◌∷◌, Option-cases, Bool-cases, inl,
  inr, All, pick, pick_passes, find_by-pick, find_by-append, find_by-store_by_ne, store_by-UniqueBy,
  UniqueBy, UniqueBy-append_one,
}
use dealflow_radar.Sources.Data.{Db, User, Source, Run, Policy, is_running}
use dealflow_radar.Sources.Queue.{Request, new_run, queue_source_check}
use dealflow_radar.Sources.Lease.{
  Lease, leased, lease_of, lease_end, take_run, lease_next_run, is_leasable, earlier, store_run,
  find_run, load_locked, complete_run, complete_dry_run, dry_row,
}
use dealflow_radar.Sources.Fetch.{Batch, finished_run, collect, store_source}
use dealflow_radar.Sources.Worker.{apply_fetch_result, FetchError, failed_run, record_fetch_failure}
use dealflow_radar.Sources.Active.{queue_cases, find_run-id, load_locked_found}
use dealflow_radar.Sources.Leases.{lease_kept, lease_picked, leased_not_leasable, same_run}

-- What others do to the tables before this time, while a run is leased: they queue checks under fresh
-- ids, take leases, and write the results and failures of other runs.
pub data Step (leased_id until : ℕ) : Db → Db → Type 0 where
  queues :
      (run_key : ℕ → String) (run_id now : ℕ) (user : User) (p : Policy) (q : Request) (db : Db)
      → All (λ (x : Run). x.id ≢ run_id) db.runs
      → Step leased_id until db (queue_source_check run_key run_id now user p q db).1
  leases :
      (user : User) (p : Policy) (now : ℕ) (db : Db)
      → now < until
      → Step leased_id until db (lease_next_run user p now db).1
  finishes :
      (known : Bool) (fresh : ℕ) (other : Lease) (b : Batch) (now : ℕ) (db : Db)
      → other.run_id ≢ leased_id
      → Step leased_id until db (apply_fetch_result known fresh other b now db).1
  fails :
      (other : Lease) (e : FetchError) (now : ℕ) (db : Db)
      → other.run_id ≢ leased_id
      → Step leased_id until db (record_fetch_failure other e now db).1
  finishes_dry :
      (other : Lease) (now : ℕ) (db : Db)
      → other.run_id ≢ leased_id
      → Step leased_id until db (complete_dry_run other now db).1

pub data Steps (leased_id until : ℕ) : Db → Db → Type 0 where
  here : (db : Db) → Steps leased_id until db db
  next :
      (a b c : Db)
      → Step leased_id until a b
      → Steps leased_id until b c
      → Steps leased_id until a c

-- The leased run is in the table as it was leased, and ids are unique.
abbrev Stays : Policy → ℕ → Run → Db → Type 0
Stays p now r db = (find_run r.id db ≡ some (leased p now r)) × UniqueBy (λ (x : Run). x.id) db.runs

store_run-Stays :
    (p : Policy) (now : ℕ) (r s : Run) (db db' : Db)
    → db'.runs ≡ (store_run s db).runs
    → s.id ≢ r.id
    → Stays p now r db
    → Stays p now r db'
unfolding find_run store_run
store_run-Stays p now r s db db' e n (f, u) = (
  rw e (find_by-store_by_ne (λ (x : Run). x.id) db.runs r.id s n ∙ f),
  rw e (store_by-UniqueBy (λ (x : Run). x.id) s db.runs u),
)

queues-Stays :
    (p : Policy) (t : ℕ) (r : Run) (run_key : ℕ → String) (run_id now : ℕ) (user : User)
    (p' : Policy) (q : Request) (db : Db)
    → All (λ (x : Run). x.id ≢ run_id) db.runs
    → Stays p t r db
    → Stays p t r (queue_source_check run_key run_id now user p' q db).1
queues-Stays p t r run_key run_id now user p' q db fresh (f, u) =
    elim (queue_cases run_key run_id now user p' q db) [
      | inl e ↦ rw e (f, u)
      | inr (s, _, e) ↦
          let added : Run = new_run run_key run_id now user p' q s in
          rw e (
            unfold find_run in
                find_by-append (λ (x : Run). x.id) r.id db.runs (added ∷ []) (leased p t r) f,
            UniqueBy-append_one (λ (x : Run). x.id) added db.runs (unfold new_run in fresh) u,
          )
    ]

leases-Stays :
    (p : Policy) (t : ℕ) (r : Run) (user : User) (p' : Policy) (now : ℕ) (db : Db)
    → now < lease_end p t
    → Stays p t r db
    → Stays p t r (lease_next_run user p' now db).1
unfolding lease_next_run take_run
leases-Stays p t r user p' now db lt (f, u) =
    elim (Option-cases (pick (is_leasable user now db) earlier db.runs)) [
      | inl e ↦ rw e (f, u)
      | inr (q, e) ↦
          let found : find_run q.id db ≡ some q =
            unfold find_run in
            find_by-pick (λ (x : Run). x.id) (is_leasable user now db) earlier db.runs q u e in
          let apart : q.id ≢ r.id = λ same.
            let mine : find_run r.id db ≡ some q =
              subst (λ (k : ℕ). find_run k db ≡ some q) same found in
            let is_r : leased p t r ≡ q = same_run (leased p t r) q (sym f ∙ mine) in
            absurd (
              false≢true (
                sym (leased_not_leasable user p t now db r lt)
                ∙ ap (is_leasable user now db) is_r
                ∙ pick_passes (is_leasable user now db) earlier db.runs q e)) in
          rw e (store_run-Stays p t r (leased p' now q) db _ refl (unfold leased in apart) (f, u))
    ]

-- The end of a held run, with whatever else is written to other tables.
held_id :
    (other : Lease) (now : ℕ) (db : Db) (q : Run) (s : Source) (k : ℕ)
    → load_locked other now db ≡ some (q, s)
    → other.run_id ≢ k
    → q.id ≢ k
held_id other now db q s k h n same =
    n (sym (find_run-id other.run_id db q (load_locked_found other now db q s h).0) ∙ same)

finishes-Stays :
    (p : Policy) (t : ℕ) (r : Run) (known : Bool) (fresh : ℕ) (other : Lease) (b : Batch) (now : ℕ)
    (db : Db)
    → other.run_id ≢ r.id
    → Stays p t r db
    → Stays p t r (apply_fetch_result known fresh other b now db).1
unfolding apply_fetch_result
finishes-Stays p t r known fresh other b now db n h =
    elim (Option-cases (load_locked other now db)) [
      | inl e ↦ rw e h
      | inr ((q, s), e) ↦ elim (Bool-cases known) [
        | inr k ↦ rw (e, k) h
        | inl k ↦
            rw (e, k)
              (store_run-Stays p t r
                (finished_run now b (collect fresh now s q.id b db.candidates) q) db _
                (unfold store_source in refl)
                (unfold finished_run in held_id other now db q s r.id e n) h)
      ]
    ]

fails-Stays :
    (p : Policy) (t : ℕ) (r : Run) (other : Lease) (x : FetchError) (now : ℕ) (db : Db)
    → other.run_id ≢ r.id
    → Stays p t r db
    → Stays p t r (record_fetch_failure other x now db).1
unfolding record_fetch_failure
fails-Stays p t r other x now db n h = elim (Option-cases (load_locked other now db)) [
  | inl e ↦ rw e h
  | inr ((q, s), e) ↦ rw e (
      store_run-Stays p t r (failed_run x now q) db _ (unfold store_source in refl)
        (unfold failed_run in held_id other now db q s r.id e n) h)
]

finishes_dry-Stays :
    (p : Policy) (t : ℕ) (r : Run) (other : Lease) (now : ℕ) (db : Db)
    → other.run_id ≢ r.id
    → Stays p t r db
    → Stays p t r (complete_dry_run other now db).1
unfolding complete_dry_run
finishes_dry-Stays p t r other now db n h = elim (Option-cases (find_run other.run_id db)) [
  | inl e ↦ unfold complete_run in rw e h
  | inr (q, e) ↦ elim (Bool-cases (is_running q.status)) [
    | inr k ↦ unfold complete_run in rw e (rw k h)
    | inl k ↦
        let kept =
          store_run-Stays p t r (dry_row now q) db (store_run (dry_row now q) db) refl
            (unfold dry_row in (λ same. n (sym (find_run-id other.run_id db q e) ∙ same))) h in
        unfold complete_run in rw e (rw k (unfold find_run in kept.0, kept.1))
  ]
]

Step-Stays :
    (p : Policy) (t : ℕ) (r : Run) {db db' : Db}
    → Step r.id (lease_end p t) db db'
    → Stays p t r db
    → Stays p t r db'
Step-Stays p t r (queues run_key run_id now user p' q db fresh) h =
    queues-Stays p t r run_key run_id now user p' q db fresh h
Step-Stays p t r (leases user p' now db lt) h = leases-Stays p t r user p' now db lt h
Step-Stays p t r (finishes known fresh other b now db n) h =
    finishes-Stays p t r known fresh other b now db n h
Step-Stays p t r (fails other x now db n) h = fails-Stays p t r other x now db n h
Step-Stays p t r (finishes_dry other now db n) h = finishes_dry-Stays p t r other now db n h

Steps-Stays :
    (p : Policy) (t : ℕ) (r : Run) {db db' : Db}
    → Steps r.id (lease_end p t) db db'
    → Stays p t r db
    → Stays p t r db'
Steps-Stays p t r (here db) h = h
Steps-Stays p t r (next a b c s rest) h = Steps-Stays p t r rest (Step-Stays p t r s h)

-- A lease excludes: until it ends, whatever others queue, lease, finish or fail of other runs in the
-- meantime, no worker of any user and policy gets a lease of the same run. The ids of runs are unique.
pub lease_exclusive :
    (user user' : User) (p p' : Policy) (now now' : ℕ) (db : Db) {lease lease' : Lease}
    {db' db'' db3 : Db}
    → UniqueBy (λ (x : Run). x.id) db.runs
    → lease_next_run user p now db ≡ (some lease, db')
    → Steps lease.run_id lease.leased_until db' db''
    → now' < lease.leased_until
    → lease_next_run user' p' now' db'' ≡ (some lease', db3)
    → lease'.run_id ≢ lease.run_id
unfolding lease_of
lease_exclusive user user' p p' now now' db {lease} {lease'} {db'} {db''} u h steps lt h' same =
    let (r, (e, f, u')) = lease_kept user p now db u h in
    let run : lease.run_id ≡ r.id = ap (λ (l : Lease). l.run_id) e in
    let ends : lease.leased_until ≡ lease_end p now = ap (λ (l : Lease). l.leased_until) e in
    let others : Steps r.id (lease_end p now) db' db'' =
      subst (λ (k : ℕ). Steps k (lease_end p now) db' db'') run
        (subst (λ (k : ℕ). Steps lease.run_id k db' db'') ends steps) in
    let (kept, unique) =
      Steps-Stays p now r others
        (subst (λ (k : ℕ). find_run k db' ≡ some (leased p now r)) run f, u') in
    let (r', leasable, i) = lease_picked user' p' now' db'' unique h' in
    let mine : find_run r.id db'' ≡ some r' =
      subst (λ (j : ℕ). find_run j db'' ≡ some r') (same ∙ run) i in
    let is_r : leased p now r ≡ r' = same_run (leased p now r) r' (sym kept ∙ mine) in
    let not_free = leased_not_leasable user' p now now' db'' r (rw⁻¹ ends lt) in
    absurd (false≢true (sym not_free ∙ ap (is_leasable user' now' db'') is_r ∙ leasable))
