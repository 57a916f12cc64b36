-- ===== src/Sources/Scheduling.antt =====
-- What a run of the scheduler queues (backend/app/source_monitoring.py).
use dealflow_radar.Common.{
  any, ◌==◌, ◌&&◌, ℕ, ◌≤◌, ◌≡◌, refl, ◌∙◌, String, true, false, arith, ◌⊎◌, inl, inr, guard, ◌>>◌,
  Result, Result-cases, ok, err, List, [], ◌∷◌, All, length, length-take, keep, All-keep_of,
  All-self, All-take, sort_by-All, Mem, map, Bool,
}
use dealflow_radar.Sources.Data.{Db, User, Source, Run, Policy, Error, access_denied, is_active_of}
use dealflow_radar.Sources.Queue.{queue_each}
use dealflow_radar.Sources.Queued.{Adds, queue_each-Adds}
use dealflow_radar.Sources.Schedule.{
  Switches, permitted, is_due, source_due_at, due_order, due_sources, selected, scheduled_request,
  queue_due_source_checks, schedule_checked, schedule_due, schedule_outcome, record_schedule,
}

-- An enabled source of the table, of the user's tenant and without an active run of it, whose time
-- has come.
abbrev pub IsDue : User → Policy → ℕ → Db → ℕ → Type 0
IsDue user p now db k =
    (s : Source) × Mem s db.sources
    × (s.id ≡ k)
    × (s.tenant_id ≡ user.tenant_id)
    × (s.enabled ≡ true)
    × (any (λ r. (r.tenant_id == user.tenant_id) && is_active_of s.id r) db.runs ≡ false)
    × (source_due_at p s ≤ now)

selected-IsDue :
    (user : User) (p : Policy) (now : ℕ) (db : Db)
    → All (λ s. IsDue user p now db s.id) (selected user p now db)
unfolding selected due_sources
selected-IsDue user p now db =
    All-take _ p.scheduler_max_sources_per_run (due_sources user p now db) (
      unfold due_sources in
      sort_by-All (due_order p) _ (keep (is_due user p now db.runs) db.sources) (
        All-keep_of (λ s. Mem s db.sources) _ (is_due user p now db.runs) db.sources
          (λ s m e. due_parts s m e) (All-self db.sources)))
  where
    due_parts :
        (s : Source)
        → Mem s db.sources
        → is_due user p now db.runs s ≡ true
        → IsDue user p now db s.id
    due_parts s m e =
        unfold is_due in (s, m, refl, ground arith, ground arith, ground arith, ground arith)

requests_of_due :
    (P : ℕ → Type 0) (schedule_key : ℕ → ℕ → String) (p : Policy) (ss : List Source)
    → All (λ s. P s.id) ss
    → All (λ q. P q.source_id) (map (scheduled_request schedule_key p) ss)
unfolding scheduled_request
requests_of_due P schedule_key p [] a = tt
requests_of_due P schedule_key p (s ∷ ss) a = (a.0, requests_of_due P schedule_key p ss a.1)

length-requests :
    (schedule_key : ℕ → ℕ → String) (p : Policy) (ss : List Source)
    → length (map (scheduled_request schedule_key p) ss) ≡ length ss
length-requests schedule_key p [] = refl
length-requests schedule_key p (s ∷ ss) = omega (arith, length-requests schedule_key p ss)

length-selected :
    (user : User) (p : Policy) (now : ℕ) (db : Db)
    → length (selected user p now db) ≤ p.scheduler_max_sources_per_run
unfolding selected
length-selected user p now db =
    omega (arith, length-take p.scheduler_max_sources_per_run (due_sources user p now db))

-- The record of a run does not touch the runs.
schedule_outcome-runs :
    (now due deferred : ℕ) (x : Result Error (List Run) × Db)
    → (schedule_outcome now due deferred x).1.runs ≡ x.1.runs
unfolding schedule_outcome record_schedule
schedule_outcome-runs now due deferred (err e, db) = refl
schedule_outcome-runs now due deferred (ok [], db) = refl
schedule_outcome-runs now due deferred (ok (r ∷ rs), db) = refl

-- What a run of the scheduler leaves: the tables as they were, or at most as many new runs as the
-- policy allows, each of a source that was due, under an administrator and the switches.
abbrev pub Scheduled : Switches → User → Policy → ℕ → Db → Db → Type 0
Scheduled w user p now db db' =
    (db' ≡ db)
    ⊎ ((user.is_platform_admin ≡ true)
        × (w.paid_api_calls_enabled ≡ false)
        × (w.auto_publish_enabled ≡ false)
        × (w.auto_refresh_enabled ≡ true)
        × (w.source_monitor_scheduler_enabled ≡ true)
        × (w.external_calls_enabled ≡ true)
        × (w.trusted_source_calls_enabled ≡ true)
        × Adds (IsDue user p now db) p.scheduler_max_sources_per_run db.runs db'.runs)

permitted_lem :
    (w : Switches)
    → permitted false w ≡ ok tt
    → (w.paid_api_calls_enabled ≡ false)
      × (w.auto_publish_enabled ≡ false)
      × (w.auto_refresh_enabled ≡ true)
      × (w.source_monitor_scheduler_enabled ≡ true)
      × (w.external_calls_enabled ≡ true)
      × (w.trusted_source_calls_enabled ≡ true)
unfolding permitted
permitted_lem w e = ground arith

module _ (run_key : ℕ → String) (schedule_key : ℕ → ℕ → String) (ids : ℕ → ℕ) (user : User)
    (p : Policy) (now : ℕ) (db : Db) where
  schedule_due-Adds :
      Adds
        (IsDue user p now db)
        p.scheduler_max_sources_per_run
        db.runs
        (schedule_due false run_key schedule_key ids user p now db).1.runs
  unfolding schedule_due
  schedule_due-Adds =
      let chosen = selected user p now db in
      let x =
        queue_each run_key ids now user p (map (scheduled_request schedule_key p) chosen) 0 db in
      let (rs, e, l, a) =
        queue_each-Adds (IsDue user p now db) run_key ids now user p
          (map (scheduled_request schedule_key p) chosen) 0 db
          (requests_of_due (IsDue user p now db) schedule_key p chosen
            (selected-IsDue user p now db)) in
      let size = length-requests schedule_key p chosen in
      let most = length-selected user p now db in
      (rs, schedule_outcome-runs now _ _ x ∙ e, omega (arith, l, size, most), a)

  dry_checked :
      (w : Switches) (admin : Bool)
      → (schedule_checked
          (guard admin access_denied >> permitted true w)
          true
          run_key
          schedule_key
          ids
          user
          p
          now
          db).1
        ≡ db
  unfolding schedule_checked schedule_due permitted
  dry_checked w true = refl
  dry_checked w false = refl

  real_checked :
      (w : Switches) (admin : Bool)
      → user.is_platform_admin ≡ admin
      → Scheduled w user p now db
          (schedule_checked
            (guard admin access_denied >> permitted false w)
            false
            run_key
            schedule_key
            ids
            user
            p
            now
            db).1
  unfolding schedule_checked
  real_checked w false a = inl refl
  real_checked w true a = elim (Result-cases (permitted false w)) [
    | inr (x, e) ↦ rw e (inl refl)
    | inl (_, e) ↦
        let q = permitted_lem w e in rw e (inr (a, q.0, q.1, q.2, q.3, q.4, q.5, schedule_due-Adds))
  ]

-- A dry run of the scheduler changes nothing. A real run changes nothing either, or the user is a
-- platform administrator, paid calls and automatic publication are off, the four switches of automatic
-- refresh, the scheduler, external calls and trusted-source calls are on, and it adds at most as many
-- runs as the policy allows in one run and leaves the other runs as they are; each new run is of an
-- enabled source of the tenant in the table that had no active run and whose time had come.
pub schedule_lem :
    (w : Switches) (run_key : ℕ → String) (schedule_key : ℕ → ℕ → String) (ids : ℕ → ℕ)
    (user : User) (p : Policy) (now : ℕ) (db : Db)
    → ((queue_due_source_checks true w run_key schedule_key ids user p now db).1 ≡ db)
      × Scheduled w user p now db
          (queue_due_source_checks false w run_key schedule_key ids user p now db).1
unfolding queue_due_source_checks
schedule_lem w run_key schedule_key ids user p now db = (
  dry_checked run_key schedule_key ids user p now db w user.is_platform_admin,
  real_checked run_key schedule_key ids user p now db w user.is_platform_admin refl,
)
