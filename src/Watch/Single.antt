-- ===== src/Watch/Single.antt =====
-- A pass of `queue_due_watch_checks` (backend/app/watchlist_monitoring.py).
use dealflow_radar.Common.{
  ℕ, ◌+◌, ◌≤◌, ◌≡◌, none, some, Bool, true, false, List, [], ◌∷◌, any, length, ◌==◌, ◌⊎◌, count,
  ◌<◌, ◌++◌,
}
use dealflow_radar.Watch.Data.{Schedule, Job}
use dealflow_radar.Watch.Queue.{
  Db, Target, Report, find_schedule, is_active_job, active_job, target_due,
}

-- A company has one active research job at most.
abbrev pub IsSingle : Db → Type 0
IsSingle db = (k : ℕ) → count (is_active_job k) db.jobs ≤ 1

-- The books of a pass: every new job is counted as queued, and a turn counts one company at most.
abbrev Booked : ℕ → Db × Report → Db × Report → Type 0
Booked n x y =
    (length y.0.jobs + x.1.queued_count ≡ length x.0.jobs + y.1.queued_count)
    × (y.1.queued_count + y.1.merged_count ≤ x.1.queued_count + x.1.merged_count + n)

-- The schedule of a company links it to this job, as queued.
abbrev IsLinked : ℕ → ℕ → Db → Type 0
IsLinked company job db =
    (s : Schedule) × (find_schedule company db ≡ some s)
    × (s.last_job_id ≡ some job)
    × (s.last_outcome ≡ "queued")

-- What a turn of a pass does with a target: it passes over a company that does not exist, is no longer
-- a target or is not due; merges a company that has an active job; or queues a new job.
abbrev pub Turn : (ℕ → Bool) → ℕ → List Target → Target → Db → Report → Db × Report → Type 0
Turn company_exists now targets t db r x =
    ((x ≡ (db, r))
      × ((company_exists t.company_id ≡ false)
          ⊎ (any (λ y. y.company_id == t.company_id) targets ≡ false)
          ⊎ (now < target_due db t)))
    ⊎ ((j : Job) × (active_job t.company_id db ≡ some j)
        × (x.0.jobs ≡ db.jobs)
        × (x.1 ≡ record r { merged_count = r.merged_count + 1 })
        × IsLinked t.company_id j.id x.0)
    ⊎ ((j : Job) × (active_job t.company_id db ≡ none)
        × (is_active_job t.company_id j ≡ true)
        × (x.0.jobs ≡ db.jobs ++ j ∷ [])
        × (x.1 ≡ record r { queued_count = r.queued_count + 1 })
        × IsLinked t.company_id j.id x.0)
