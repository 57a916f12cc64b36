-- ===== src/Refresh/Completion.antt =====
-- `_complete_job` of backend/app/worker.py.
use dealflow_radar.Common.{
  ℕ, ◌+◌, ◌≡◌, refl, ◌⊎◌, inl, inr, Option, none, some, true, false, List, arith, length,
  Bool-cases, Option-cases, find_by, store_by, find_by-store_by_self, key-find_by, length-store_by,
}
use dealflow_radar.Refresh.Jobs.{
  RefreshJob, Snapshot, Tables, JobLease, lease_lost, is_held, is_running_job, snapshot_of,
  refreshed, completed_job, write_completion, complete_found, complete_job,
}

length-refreshed :
    (now : ℕ) (s : Option Snapshot) (ss : List Snapshot) → length (refreshed now s ss) ≡ length ss
unfolding refreshed
length-refreshed now none ss = refl
length-refreshed now (some s) ss = length-store_by (λ (x : Snapshot). x.id) _ ss

-- Completing a leased job either reports the lease as lost and changes nothing, or the job was held
-- under the lease, one row of usage is added, the tables of jobs and snapshots keep their lengths, and
-- a second completion under the same lease at any time reports the lease as lost and changes nothing.
pub complete_job_once :
    (lease : JobLease) (now now' : ℕ) (db : Tables)
    → (complete_job lease now db ≡ (lease_lost lease.job_id, db))
      ⊎ ((j : RefreshJob) × (find_by (λ (x : RefreshJob). x.id) lease.job_id db.jobs ≡ some j)
          × (is_held lease now j ≡ true)
          × (length (complete_job lease now db).1.usage ≡ length db.usage + 1)
          × (length (complete_job lease now db).1.jobs ≡ length db.jobs)
          × (length (complete_job lease now db).1.snapshots ≡ length db.snapshots)
          × (complete_job lease now' (complete_job lease now db).1
              ≡ (lease_lost lease.job_id, (complete_job lease now db).1)))
unfolding complete_job complete_found write_completion
complete_job_once lease now now' db =
    elim (Option-cases (find_by (λ (x : RefreshJob). x.id) lease.job_id db.jobs)) [
      | inl e ↦ inl (rw e refl)
      | inr (j, e) ↦ elim (Bool-cases (is_held lease now j)) [
        | inr n ↦ inl (rw e (rw n refl))
        | inl y ↦
            let i : j.id ≡ lease.job_id =
              key-find_by (λ (x : RefreshJob). x.id) lease.job_id db.jobs j e in
            let again : find_by (λ (x : RefreshJob). x.id) lease.job_id
                  (store_by (λ (x : RefreshJob). x.id) (completed_job now j) db.jobs)
                ≡ some (completed_job now j) =
              find_by-store_by_self (λ (x : RefreshJob). x.id) db.jobs lease.job_id j
                (completed_job now j) e (unfold completed_job in i) in
            let gone : is_held lease now' (completed_job now j) ≡ false =
              unfold is_held completed_job is_running_job in ground arith in
            inr (
              rw e (
                rw y (
                  j,
                  refl,
                  y,
                  omega arith,
                  length-store_by (λ (x : RefreshJob). x.id) (completed_job now j) db.jobs,
                  length-refreshed now (snapshot_of lease db.snapshots) db.snapshots,
                  rw again (rw gone refl),
                )))
      ]
    ]
