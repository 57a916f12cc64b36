-- ===== src/Jobs/Runs.antt =====
-- The runs of the worker and of `prepare_pending_research_requests` on the tables of the jobs.
use dealflow_radar.Common.{
  ℕ, ◌<◌, ◌≡◌, ◌≢◌, refl, sym, subst, ◌∙◌, inl, inr, Option, none, some, Bool, true, false, List,
  [], ◌∷◌, ◌++◌, All, All-map, Bool-cases, or_else, Result, ok, err, ◌>>=◌, arith, pick,
  pick_passes, find_by, UniqueBy-append_one, store_by-All, store_by-same, key-find_by, find_by-pick,
  keep, sort_by,
}
use dealflow_radar.Personal.Data.{CompanyRequest}
use dealflow_radar.Personal.Requests.{is_researching}
use dealflow_radar.Watch.Data.{is_active}
use dealflow_radar.Jobs.Data.{
  Job, Tables, Env, find_job, find_company, public_company, is_watchlist, store_job, should_stop,
}
use dealflow_radar.Jobs.Ending.{cancel_job}
use dealflow_radar.Jobs.Lease.{
  LeasePolicy, is_leasable, is_older, leased_job, leased_request, lease, tell, told, lease_found,
  lease_job,
}
use dealflow_radar.Jobs.Prepare.{
  PreparePolicy, Given, Error, is_active_of, older, active_job, histories, answered, answers,
  fresh_id, new_job, attached, unverified, differs, store_request, prepare_new, prepare_for,
  prepare_request, added, prepare_all, prepare_pending_research_requests, is_pending, by_creation,
}
use dealflow_radar.Jobs.Served.{
  IsConsistent, IsServed, has_active, served_by, is_served, is_open_manual, is_served-keep,
  not_researching, has_active-found, record_watch_outcome-IsConsistent, store_job_unique,
}
use dealflow_radar.Jobs.Ended.{cancel_job-IsConsistent, updated-served}

found_same : (j : Job) (k : ℕ) (js : List Job) → find_job k js ≡ some j → js ≡ store_job j js
unfolding find_job store_job
found_same j k js q =
    let i = key-find_by (λ (x : Job). x.id) k js j q in
    sym (
      store_by-same (λ (x : Job). x.id) j js
        (subst (λ (i : ℕ). find_by (λ (x : Job). x.id) i js ≡ some j) (sym i) q))

tell-IsConsistent :
    (e : Env) (now : ℕ) (o : Option Job) (db : Tables)
    → ((j : Job) → o ≡ some j → db.jobs ≡ store_job j db.jobs)
    → IsConsistent db
    → IsConsistent (tell e now o db)
unfolding tell
tell-IsConsistent e now none db f s = s
tell-IsConsistent e now (some j) db f s =
    record_watch_outcome-IsConsistent e now j db db.jobs (f j refl) s

told-IsConsistent :
    (e : Env) (now k : ℕ) (db : Tables) → IsConsistent db → IsConsistent (told e now k db)
unfolding told
told-IsConsistent e now k db s =
    tell-IsConsistent e now (find_job k db.jobs) db (λ j q. found_same j k db.jobs q) s

lease-IsConsistent :
    (p : LeasePolicy) (now : ℕ) (j : Job) (db : Tables)
    → find_job j.id db.jobs ≡ some j
    → IsConsistent db
    → IsConsistent (lease p now j db).1
unfolding lease IsConsistent IsServed leased_job leased_request is_active
lease-IsConsistent p now j db f s = (
  store_job_unique (leased_job p now j) db.jobs s.0,
  updated-served (leased_job p now j) j (leased_request p now) db.jobs db.requests (f, refl, refl)
      (λ r. refl) s.1,
)

lease_found-IsConsistent :
    (e : Env) (p : LeasePolicy) (now : ℕ) (o : Option Job) (db : Tables)
    → ((j : Job) → o ≡ some j → find_job j.id db.jobs ≡ some j)
    → IsConsistent db
    → IsConsistent (lease_found e p now o db).1
unfolding lease_found
lease_found-IsConsistent e p now none db f s = s
lease_found-IsConsistent e p now (some j) db f s = elim (Bool-cases (should_stop e j db)) [
  | inl t ↦
      rw t (
        told-IsConsistent e now j.id (cancel_job e now j db) (cancel_job-IsConsistent e now j db s))
  | inr t ↦ rw t (lease-IsConsistent p now j db (f j refl) s)
]

pub lease_job-IsConsistent :
    (e : Env) (p : LeasePolicy) (now : ℕ) (db : Tables)
    → IsConsistent db
    → IsConsistent (lease_job e p now db).1
unfolding lease_job find_job IsConsistent
lease_job-IsConsistent e p now db s =
    lease_found-IsConsistent e p now _ db
      (λ j q.
        find_by-pick (λ (x : Job). x.id) (is_leasable p now db.schedules) is_older db.jobs j s.0 q)
      s

-- A request of the table is replaced by one that is served.
stored-IsConsistent :
    (r : CompanyRequest) (db : Tables)
    → is_served db.jobs r ≡ true
    → IsConsistent db
    → IsConsistent (store_request r db)
unfolding store_request IsConsistent IsServed
stored-IsConsistent r db h s = (
  s.0,
  store_by-All (λ (x : CompanyRequest). x.id) (λ x. is_served db.jobs x ≡ true) r db.requests h s.1,
)

has_active-append :
    (k : ℕ) (js ks : List Job) → has_active k js ≡ true → has_active k (js ++ ks) ≡ true
unfolding has_active
has_active-append k [] ks h = absurd (ground arith)
has_active-append k (j ∷ js) ks h = ground (arith, has_active-append k js ks)

fresh_id-above : (js : List Job) → All (λ j. j.id < fresh_id js) js
unfolding fresh_id
fresh_id-above [] = tt
fresh_id-above (j ∷ js) =
    (omega arith, All-map _ _ js (λ x h. omega (arith, h)) (fresh_id-above js))

fresh_id-new : (js : List Job) → All (λ j. j.id ≢ fresh_id js) js
fresh_id-new js = All-map _ _ js (λ j h. λ e. absurd (omega (arith, h, e))) (fresh_id-above js)

has_active-added :
    (j : Job) (js : List Job)
    → All (λ x. x.id ≢ j.id) js
    → is_open_manual j ≡ true
    → has_active j.id (js ++ j ∷ []) ≡ true
unfolding has_active
has_active-added j [] a h = ground (arith)
has_active-added j (x ∷ js) a h = ground (arith, a.0, has_active-added j js a.1 h)

-- The tables with one job more.
added-IsConsistent :
    (j : Job) (db : Tables)
    → All (λ x. x.id ≢ j.id) db.jobs
    → IsConsistent db
    → IsConsistent (record db { jobs = db.jobs ++ j ∷ [] })
unfolding IsConsistent IsServed
added-IsConsistent j db a s = (
  UniqueBy-append_one (λ (x : Job). x.id) j db.jobs a s.0,
  All-map _ _ db.requests
      (λ r h.
        is_served-keep db.jobs (db.jobs ++ j ∷ []) r (λ i. has_active-append i db.jobs (j ∷ [])) h)
      s.1,
)

attached-served :
    (k : ℕ) (js : List Job) (r : CompanyRequest)
    → has_active k js ≡ true
    → is_served js (attached k r) ≡ true
unfolding is_served served_by attached is_researching
attached-served k js r h = ground (arith)

answered-not_researching :
    (j : Job) (r : CompanyRequest) → is_researching (answered j r).status ≡ false
unfolding answered is_researching
answered-not_researching j r = ground arith

new_job-fresh :
    (e : Env) (p : PreparePolicy) (g : Given) (now : ℕ) (r : CompanyRequest) (company : ℕ)
    (db : Tables)
    → All (λ x. x.id ≢ (new_job e p g now r company db).id) db.jobs
unfolding new_job
new_job-fresh e p g now r company db = fresh_id-new db.jobs

new_job-open :
    (e : Env) (p : PreparePolicy) (g : Given) (now : ℕ) (r : CompanyRequest) (company : ℕ)
    (db : Tables)
    → is_open_manual (new_job e p g now r company db) ≡ true
unfolding new_job is_open_manual is_active is_watchlist
new_job-open e p g now r company db = refl

prepare_new-IsConsistent :
    (o : Option Job) (e : Env) (p : PreparePolicy) (g : Given) (now company : ℕ)
    (r : CompanyRequest) (db : Tables)
    → IsConsistent db
    → IsConsistent (prepare_new o e p g now company r db).1
unfolding prepare_new
prepare_new-IsConsistent (some j) e p g now company r db s =
    stored-IsConsistent (answered j r) db
      (not_researching db.jobs (answered j r) (answered-not_researching j r)) s
prepare_new-IsConsistent none e p g now company r db s =
    let j = new_job e p g now r company db in
    stored-IsConsistent (attached j.id r) (record db { jobs = db.jobs ++ j ∷ [] })
      (attached-served j.id (db.jobs ++ j ∷ []) r (
        has_active-added j db.jobs (new_job-fresh e p g now r company db)
          (new_job-open e p g now r company db)))
      (added-IsConsistent j db (new_job-fresh e p g now r company db) s)

active_of-open : (company : ℕ) (j : Job) → is_active_of company j ≡ true → is_active j.status ≡ true
unfolding is_active_of
active_of-open company j h = ground arith

-- Tables that are returned are sound.
unfoldable pub OkConsistent : Result Error (ℕ × Tables) → Type 0
OkConsistent (ok x) = IsConsistent x.1
OkConsistent (err e) = Unit

added-OkConsistent :
    (n : ℕ) (m : Result Error (ℕ × Tables)) → OkConsistent m → OkConsistent (added n m)
unfolding added OkConsistent
added-OkConsistent n (ok x) h = h
added-OkConsistent n (err e) h = tt

open_manual :
    (j : Job) → is_active j.status ≡ true → is_watchlist j ≡ false → is_open_manual j ≡ true
unfolding is_open_manual
open_manual j a w = ground arith

picked :
    (company : ℕ) (j : Job) (db : Tables)
    → IsConsistent db
    → pick (is_active_of company) older db.jobs ≡ some j
    → find_job j.id db.jobs ≡ some j
unfolding IsConsistent find_job
picked company j db s q =
    find_by-pick (λ (x : Job). x.id) (is_active_of company) older db.jobs j s.0 q

unverified-served : (js : List Job) (r : CompanyRequest) → is_served js (unverified r) ≡ true
unfolding is_served unverified is_researching
unverified-served js r = refl

prepare_for-IsConsistent :
    (o : Option Job) (e : Env) (p : PreparePolicy) (g : Given) (now company : ℕ)
    (r : CompanyRequest) (db : Tables)
    → ((j : Job) → o ≡ some j → (find_job j.id db.jobs ≡ some j) × (is_active j.status ≡ true))
    → IsConsistent db
    → OkConsistent (prepare_for o e p g now company r db)
unfolding prepare_for OkConsistent
prepare_for-IsConsistent (some j) e p g now company r db f s = elim (Bool-cases (is_watchlist j)) [
  | inl w ↦ rw w s
  | inr w ↦ rw w (elim (Bool-cases (differs g.reference_at j.coverage.reference_at)) [
    | inl d ↦ rw d tt
    | inr d ↦ rw d (
        stored-IsConsistent (attached j.id r) db
          (attached-served j.id db.jobs r
            (has_active-found j.id db.jobs j (f j refl).0 ∙ open_manual j (f j refl).1 w))
          s)
  ])
]
prepare_for-IsConsistent none e p g now company r db f s =
    prepare_new-IsConsistent (answers e p now r (histories company db)) e p g now company r db s

prepare_request-IsConsistent :
    (e : Env) (p : PreparePolicy) (g : Given) (now : ℕ) (r : CompanyRequest) (db : Tables)
    → IsConsistent db
    → OkConsistent (prepare_request e p g now r db)
unfolding prepare_request OkConsistent active_job
prepare_request-IsConsistent e p g now r db s =
    elim (Bool-cases (public_company (find_company r.company_id db))) [
      | inr n ↦ rw n (stored-IsConsistent (unverified r) db (unverified-served db.jobs r) s)
      | inl y ↦ rw y (
          prepare_for-IsConsistent (active_job (or_else r.company_id 0) db) e p g now
            (or_else r.company_id 0) r db
            (λ j q. (
              picked (or_else r.company_id 0) j db s q,
              active_of-open _ j (pick_passes _ _ db.jobs j q),
            ))
            s)
    ]

bind-OkConsistent :
    (m : Result Error (ℕ × Tables)) (k : ℕ × Tables → Result Error (ℕ × Tables))
    → OkConsistent m
    → ((x : ℕ × Tables) → IsConsistent x.1 → OkConsistent (k x))
    → OkConsistent (m >>= k)
unfolding OkConsistent
bind-OkConsistent (ok x) k h f = f x h
bind-OkConsistent (err e) k h f = tt

prepare_all-IsConsistent :
    (e : Env) (p : PreparePolicy) (g : Given) (now : ℕ) (rs : List CompanyRequest) (db : Tables)
    → IsConsistent db
    → OkConsistent (prepare_all e p g now rs db)
unfolding prepare_all OkConsistent
prepare_all-IsConsistent e p g now [] db s = s
prepare_all-IsConsistent e p g now (r ∷ rs) db s =
    bind-OkConsistent (prepare_request e p g now r db) _
      (prepare_request-IsConsistent e p g now r db s)
      (λ x h. added-OkConsistent x.0 _ (prepare_all-IsConsistent e p g now rs x.1 h))

pub prepare-IsConsistent :
    (admin : Bool) (e : Env) (p : PreparePolicy) (g : Given) (now : ℕ) (db : Tables)
    → IsConsistent db
    → OkConsistent (prepare_pending_research_requests admin e p g now db)
unfolding prepare_pending_research_requests OkConsistent
prepare-IsConsistent false e p g now db s = tt
prepare-IsConsistent true e p g now db s =
    prepare_all-IsConsistent e p g now (sort_by by_creation (keep (is_pending p) db.requests)) db s
