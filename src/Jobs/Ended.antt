-- ===== src/Jobs/Ended.antt =====
-- `_cancel_job`, `_finalize`, `_defer_budget` and the failures: the requests that are linked to the job.
use dealflow_radar.Common.{
  ℕ, ◌≡◌, refl, sym, subst, inl, inr, String, Option, Bool, true, false, ◌&&◌, ◌||◌, if◌then◌else◌,
  List, [], ◌∷◌, Bool-cases, Option-cases, some, arith, All, All-map, UniqueBy,
}
use dealflow_radar.Budget.Calls.{recover}
use dealflow_radar.Personal.Data.{CompanyRequest}
use dealflow_radar.Personal.Requests.{is_researching}
use dealflow_radar.Jobs.Data.{
  Job, Tables, Env, find_job, is_watchlist, is_linked, is_active_linked, update_active, store_job,
}
use dealflow_radar.Jobs.Ending.{
  write_job, cancel_linked, cancelled_request, is_cancel_requested, cancelled_job, cancel_job,
  finalized_job, finalized_request, finalize, deferred_job, deferred_request, defer_budget,
  failed_preflight, failed_request, fail_preflight, failed_step, fail_step,
}
use dealflow_radar.Jobs.Served.{
  IsConsistent, IsServed, Releases, ended-IsConsistent, write_job-IsConsistent, served_by,
  is_served, has_active-store_active, has_active-store_watchlist, is_served-keep,
}
use dealflow_radar.Watch.Data.{is_active}

cancel_linked-Releases : (k now : ℕ) → Releases k (cancel_linked k now)
unfolding Releases cancel_linked cancelled_request is_active_linked is_researching
cancel_linked-Releases k now r =
    elim (Bool-cases (is_linked k r && (is_researching r.status || is_cancel_requested r.status))) [
      | inl e ↦ inl (rw e refl)
      | inr e ↦ inr (rw e refl, ground arith)
    ]

update-Releases :
    (k : ℕ) (f : CompanyRequest → CompanyRequest)
    → ((r : CompanyRequest) → is_researching (f r).status ≡ false)
    → Releases k (λ r. if is_active_linked k r then f r else r)
unfolding Releases
update-Releases k f h r = elim (Bool-cases (is_active_linked k r)) [
  | inl e ↦ inl (rw e (h r))
  | inr e ↦ inr (rw e refl, e)
]

pub cancel_job-IsConsistent :
    (e : Env) (now : ℕ) (j : Job) (db : Tables)
    → IsConsistent db
    → IsConsistent (cancel_job e now j db)
unfolding cancel_job cancelled_job
cancel_job-IsConsistent e now j db s =
    ended-IsConsistent e now _ (cancel_linked j.id now) db _ (cancel_linked-Releases j.id now) s
      refl refl

finalized-not_researching :
    (now : ℕ) (b : Bool) (error : Option String) (r : CompanyRequest)
    → is_researching (finalized_request now b error r).status ≡ false
unfolding finalized_request is_researching
finalized-not_researching now b error r = elim (Bool-cases b) [
  | inl e ↦ rw e refl
  | inr e ↦ rw e refl
]

pub finalize-IsConsistent :
    (e : Env) (now : ℕ) (j : Job) (db : Tables)
    → IsConsistent db
    → IsConsistent (finalize e now j db)
unfolding finalize finalized_job update_active
finalize-IsConsistent e now j db s =
    ended-IsConsistent e now _ _ db _ (update-Releases j.id _ (finalized-not_researching now _ _)) s
      refl refl

-- The job that is stored continues the one under its id.
abbrev pub Continues : Job → Job → List Job → Type 0
Continues j j' js =
    (find_job j.id js ≡ some j') × (j.trigger_type ≡ j'.trigger_type) × (is_active j.status ≡ true)

update-served :
    (j j' : Job) (f : CompanyRequest → CompanyRequest) (js : List Job) (r : CompanyRequest)
    → Continues j j' js
    → (f r).research_job_id ≡ r.research_job_id
    → is_served js r ≡ true
    → is_served (store_job j js) (if is_active_linked j.id r then f r else r) ≡ true
unfolding is_served served_by is_active_linked is_linked
update-served j j' f js r (c, t, a) l h = elim (Option-cases r.research_job_id) [
  | inl n ↦ ground arith
  | inr (i, n) ↦ let stays = has_active-store_active i j j' js c t a in ground (arith, stays)
]

pub updated-served :
    (j j' : Job) (f : CompanyRequest → CompanyRequest) (js : List Job) (rs : List CompanyRequest)
    → Continues j j' js
    → ((r : CompanyRequest) → (f r).research_job_id ≡ r.research_job_id)
    → All (λ r. is_served js r ≡ true) rs
    → All (λ r. is_served (store_job j js) r ≡ true) (update_active j.id f rs)
unfolding update_active
updated-served j j' f js [] a l s = tt
updated-served j j' f js (r ∷ rs) a l s =
    (update-served j j' f js r a (l r) s.0, updated-served j j' f js rs a l s.1)

-- A job that is put off is still open, and so are the requests that wait for it.
kept-IsConsistent :
    (e : Env) (now : ℕ) (j j' : Job) (f : CompanyRequest → CompanyRequest) (db db' : Tables)
    → Continues j j' db.jobs
    → ((r : CompanyRequest) → (f r).research_job_id ≡ r.research_job_id)
    → IsConsistent db
    → db'.jobs ≡ db.jobs
    → db'.requests ≡ update_active j.id f db.requests
    → IsConsistent (write_job e now j db')
unfolding IsConsistent IsServed
kept-IsConsistent e now j j' f db db' a l s ej er =
    write_job-IsConsistent e now j db'
      (subst (λ (js : List Job). UniqueBy (λ (x : Job). x.id) js) (sym ej) s.0)
      (subst (λ (js : List Job). All (λ r. is_served (store_job j js) r ≡ true) db'.requests)
        (sym ej)
        (subst
          (λ (rs : List CompanyRequest). All (λ r. is_served (store_job j db.jobs) r ≡ true) rs)
          (sym er) (updated-served j j' f db.jobs db.requests a l s.1)))

pub defer_budget-IsConsistent :
    (e : Env) (now : ℕ) (j : Job) (db : Tables)
    → find_job j.id db.jobs ≡ some j
    → IsConsistent db
    → IsConsistent (defer_budget e now j db)
unfolding defer_budget deferred_job is_active deferred_request
defer_budget-IsConsistent e now j db f s =
    kept-IsConsistent e now _ j (deferred_request now) db _ (f, refl, refl) (λ r. refl) s refl refl

failed-not_researching :
    (failure : String) (r : CompanyRequest)
    → is_researching (failed_request failure r).status ≡ false
unfolding failed_request is_researching
failed-not_researching failure r = refl

pub fail_preflight-IsConsistent :
    (e : Env) (failure : String) (now : ℕ) (j : Job) (db : Tables)
    → IsConsistent db
    → IsConsistent (fail_preflight e failure now j db)
unfolding fail_preflight failed_preflight update_active
fail_preflight-IsConsistent e failure now j db s =
    ended-IsConsistent e now _ _ db _ (update-Releases j.id _ (failed-not_researching failure)) s
      refl refl

stored-IsConsistent :
    (e : Env) (now : ℕ) (j s : Job) (db : Tables)
    → find_job s.id db.jobs ≡ some j
    → is_watchlist j ≡ true
    → IsConsistent db
    → IsConsistent (write_job e now s db)
unfolding IsConsistent IsServed
stored-IsConsistent e now j s db f w h = write_job-IsConsistent e now s db h.0 (
    All-map _ _ db.requests
      (λ r g.
        is_served-keep db.jobs (store_job s db.jobs) r
          (λ i. has_active-store_watchlist i s j db.jobs f w) g)
      h.1)

pub fail_Step-IsConsistent :
    (e : Env) (now : ℕ) (j : Job) (db : Tables)
    → find_job j.id db.jobs ≡ some j
    → is_watchlist j ≡ true
    → IsConsistent db
    → IsConsistent (fail_step e now j db)
unfolding fail_step IsConsistent IsServed failed_step
fail_Step-IsConsistent e now j db f w s =
    elim (Bool-cases (recover (e.task_key j.id) now false db.ledger).0) [
      | inl u ↦ rw u (defer_budget-IsConsistent e now j (record db { ledger = _ }) f s)
      | inr u ↦
          rw u (stored-IsConsistent e now j (failed_step now j) (record db { ledger = _ }) f w s)
    ]
