-- ===== src/Sources/Leases.antt =====
-- The leases that workers hold on runs (backend/app/source_monitoring.py).
use mathlib.Core.Path.{subst}
use dealflow_radar.Common.{
  ℕ, ◌<◌, ◌≡◌, refl, ◌≢◌, sym, none, some, Bool, true, false, arith, Option-cases, inl, inr, pick,
  pick_passes, find_by-pick, find_by-store_by_self, store_by-UniqueBy, UniqueBy,
}
use dealflow_radar.Sources.Data.{Db, User, Run, Policy}
use dealflow_radar.Sources.Lease.{
  Lease, leased, lease_of, lease_end, take_run, lease_next_run, is_leasable, is_free, is_expired,
  earlier, store_run, find_run, holds, load_locked, held_run, pair_up, lost,
}
use dealflow_radar.Sources.Fetch.{Batch}
use dealflow_radar.Sources.Worker.{apply_fetch_result, FetchError, record_fetch_failure}

pub same_run : (a b : Run) → some a ≡ some b → a ≡ b
same_run a b h = cc

-- The run of a lease, as the table has it after the lease is given.
abbrev pub IsGiven : Policy → ℕ → Lease → Db → Run → Type 0
IsGiven p now lease db' r =
    (lease ≡ lease_of p now r)
    × (find_run lease.run_id db' ≡ some (leased p now r))
    × UniqueBy (λ (x : Run). x.id) db'.runs

pub lease_kept :
    (user : User) (p : Policy) (now : ℕ) (db : Db) {lease : Lease} {db' : Db}
    → UniqueBy (λ (x : Run). x.id) db.runs
    → lease_next_run user p now db ≡ (some lease, db')
    → (r : Run) × IsGiven p now lease db' r
unfolding lease_next_run take_run lease_of
lease_kept user p now db {lease} {db'} u h =
    elim (Option-cases (pick (is_leasable user now db) earlier db.runs)) [
      | inl e ↦ absurd (ground arith)
      | inr (r, e) ↦
          let q : lease_of p now r ≡ lease = ground arith in
          let d : store_run (leased p now r) db ≡ db' = ground arith in
          let found : find_run r.id db ≡ some r =
            unfold find_run in
            find_by-pick (λ (x : Run). x.id) (is_leasable user now db) earlier db.runs r u e in
          let after : find_run r.id (store_run (leased p now r) db) ≡ some (leased p now r) =
            unfold find_run store_run leased in
            find_by-store_by_self (λ (x : Run). x.id) db.runs r.id r (leased p now r)
              (unfold find_run in found) refl in
          (
            r,
            (
              sym q,
              subst (λ (l : Lease). find_run l.run_id db' ≡ some (leased p now r)) q
                  (subst (λ (x : Db). find_run r.id x ≡ some (leased p now r)) d after),
              subst (λ (x : Db). UniqueBy (λ (y : Run). y.id) x.runs) d
                  (unfold store_run in
                    store_by-UniqueBy (λ (x : Run). x.id) (leased p now r) db.runs u),
            ),
          )
    ]

pub lease_picked :
    (user : User) (p : Policy) (now : ℕ) (db : Db) {lease : Lease} {db' : Db}
    → UniqueBy (λ (x : Run). x.id) db.runs
    → lease_next_run user p now db ≡ (some lease, db')
    → (r : Run) × (is_leasable user now db r ≡ true) × (find_run lease.run_id db ≡ some r)
unfolding lease_next_run take_run lease_of
lease_picked user p now db {lease} u h =
    elim (Option-cases (pick (is_leasable user now db) earlier db.runs)) [
      | inl e ↦ absurd (ground arith)
      | inr (r, e) ↦
          let q : r.id ≡ lease.run_id = ground arith in
          (
            r,
            pick_passes (is_leasable user now db) earlier db.runs r e,
            subst (λ (j : ℕ). find_run j db ≡ some r) q
                (unfold find_run in
                  find_by-pick (λ (x : Run). x.id) (is_leasable user now db) earlier db.runs r u e),
          )
    ]

-- A leased run is not leasable before the lease ends.
pub leased_not_leasable :
    (user : User) (p : Policy) (now now' : ℕ) (db : Db) (r : Run)
    → now' < lease_end p now
    → is_leasable user now' db (leased p now r) ≡ false
unfolding is_leasable is_free is_expired leased
leased_not_leasable user p now now' db r lt = ground arith

not_held :
    (lease : Lease) (now : ℕ) (db : Db) (r : Run)
    → find_run lease.run_id db ≡ some r
    → holds lease now r ≡ false
    → load_locked lease now db ≡ none
unfolding load_locked held_run pair_up
not_held lease now db r f h = rw (f, h)

-- A worker whose run was leased again, until another time, has lost its lease: its results and its
-- failures change nothing, at any time.
reassigned_lease_lost :
    (user : User) (p : Policy) (now : ℕ) (db : Db) {lease' : Lease} {db' : Db} (lease : Lease)
    → UniqueBy (λ (x : Run). x.id) db.runs
    → lease_next_run user p now db ≡ (some lease', db')
    → lease'.run_id ≡ lease.run_id
    → lease'.leased_until ≢ lease.leased_until
    → (known : Bool) (fresh : ℕ) (b : Batch) (e : FetchError) (t : ℕ)
    → (apply_fetch_result known fresh lease b t db' ≡ (lost lease, db'))
      × (record_fetch_failure lease e t db' ≡ (lost lease, db'))
unfolding apply_fetch_result record_fetch_failure
reassigned_lease_lost user p now db {lease'} {db'} lease u h same other known fresh b e t =
    let (r, given) = lease_kept user p now db u h in
    let (q, f, _) = given in
    let mine : find_run lease.run_id db' ≡ some (leased p now r) =
      subst (λ (j : ℕ). find_run j db' ≡ some (leased p now r)) same f in
    let gone : load_locked lease t db' ≡ none =
      not_held lease t db' (leased p now r) mine (unfold holds leased lease_of in ground arith) in
    (rw gone, rw gone)
