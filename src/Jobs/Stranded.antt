-- ===== src/Jobs/Stranded.antt =====
-- The step of `_run_web_research_worker_once` for a job whose company is not public any more.
use dealflow_radar.Common.{
  ℕ, ◌≡◌, refl, ◌∙◌, ◌⊎◌, inl, inr, Option, none, some, false, List, ◌==◌, All, All-of, Bool-cases,
  Option-cases, arith, find_by-store_by_self,
}
use dealflow_radar.Personal.Data.{CompanyRequest}
use dealflow_radar.Watch.Data.{is_active, Schedule, Job as WatchJob}
use dealflow_radar.Jobs.Data.{
  Job, Tables, Env, find_job, store_job, is_linked, is_active_linked, compared, write_watch,
  watch_outcome, record_watch_outcome,
}
use dealflow_radar.Jobs.Ending.{fail_company, failed_company, write_job}
use dealflow_radar.Jobs.Served.{
  is_served, served_by, has_active, is_open_manual, has_active-found, has_active-store_again,
}

write_watch-stored :
    (k : ℕ) (w : Option (Schedule × WatchJob)) (j : Job) (db : Tables) (js : List Job)
    → (has_active k (write_watch w j (record db { jobs = store_job j js })).jobs
        ≡ has_active k (store_job j js))
      × ((write_watch w j (record db { jobs = store_job j js })).requests ≡ db.requests)
unfolding write_watch compared
write_watch-stored k none j db js = (refl, refl)
write_watch-stored k (some w) j db js = (has_active-store_again k _ j js refl refl refl, refl)

failed-inactive :
    (j : Job) (js : List Job)
    → find_job j.id js ≡ some j
    → has_active j.id (store_job (failed_company j) js) ≡ false
unfolding find_job store_job failed_company is_open_manual is_active
failed-inactive j js f =
    has_active-found j.id _ _ (find_by-store_by_self (λ (x : Job). x.id) js j.id j _ f refl) ∙ refl

stranded :
    (j : Job) (js : List Job) (r : CompanyRequest)
    → has_active j.id js ≡ false
    → (is_active_linked j.id r ≡ false) ⊎ (is_served js r ≡ false)
unfolding is_active_linked is_linked is_served served_by
stranded j js r h = elim (Option-cases r.research_job_id) [
  | inl n ↦ inl (ground arith)
  | inr (i, n) ↦ elim (Bool-cases (j.id == i)) [
    | inl e ↦ let q : has_active i js ≡ false = ground arith in ground arith
    | inr e ↦ inl (ground arith)
  ]
]

-- When a worker finds that the company of its job is not public any more, it ends the job and leaves every
-- request as it was: a request that research is under way for, and that is linked to the job, is from then on
-- linked to a job that has ended. The job is one of the table.
pub fail_company_strands :
    (e : Env) (now : ℕ) (j : Job) (db : Tables)
    → find_job j.id db.jobs ≡ some j
    → ((fail_company e now j db).requests ≡ db.requests)
      × All
          (λ r.
            (is_active_linked j.id r ≡ false)
            ⊎ (is_served (fail_company e now j db).jobs r ≡ false))
          db.requests
unfolding fail_company write_job record_watch_outcome
fail_company_strands e now j db f =
    let s = failed_company j in
    let w = watch_outcome e now s _ in
    let t = write_watch-stored j.id w s db db.jobs in
    (t.1, All-of _ db.requests (λ r. stranded j _ r (t.0 ∙ failed-inactive j db.jobs f)))
