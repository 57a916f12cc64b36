-- ===== src/Jobs/Served.antt =====
-- The requests that research is under way for, and the jobs that they are linked to.
use dealflow_radar.Common.{
  ℕ, ◌≡◌, ◌≢◌, refl, sym, subst, ◌∙◌, ◌⊎◌, inl, inr, Option, none, some, Bool, true, false, not,
  ◌&&◌, ◌||◌, List, [], ◌∷◌, map, All, All-map, ◌==◌, if◌then◌else◌, Bool-cases, Option-cases,
  arith, find_by, store_by, UniqueBy, store_by-UniqueBy,
}
use dealflow_radar.Personal.Data.{CompanyRequest}
use dealflow_radar.Personal.Requests.{is_researching}
use dealflow_radar.Watch.Data.{is_active, Schedule, Job as WatchJob}
use dealflow_radar.Jobs.Data.{
  Job, Tables, Env, is_watchlist, find_job, store_job, is_linked, is_active_linked, compared,
  write_watch, record_watch_outcome,
}
use dealflow_radar.Jobs.Ending.{write_job}

-- A job for the requests of people that has not ended.
unfoldable pub is_open_manual : Job → Bool
is_open_manual j = is_active j.status && not (is_watchlist j)

-- There is such a job with this id.
unfoldable pub has_active : ℕ → List Job → Bool
has_active k [] = false
has_active k (j ∷ js) = if j.id == k then is_open_manual j else has_active k js

unfoldable pub served_by : List Job → Option ℕ → Bool
served_by js none = true
served_by js (some k) = has_active k js

-- A request that research is under way for is linked to no job, or to one that has not ended.
unfoldable pub is_served : List Job → CompanyRequest → Bool
is_served js r = not (is_researching r.status) || served_by js r.research_job_id

unfoldable pub IsServed : Tables → Type 0
IsServed db = All (λ r. is_served db.jobs r ≡ true) db.requests

pub has_active-store_ne :
    (k : ℕ) (s : Job) (js : List Job) → s.id ≢ k → has_active k (store_job s js) ≡ has_active k js
unfolding has_active store_job store_by
has_active-store_ne k s [] n = refl
has_active-store_ne k s (j ∷ js) n = ground (arith, has_active-store_ne k s js n)

pub has_active-store_active :
    (k : ℕ) (s j : Job) (js : List Job)
    → find_job s.id js ≡ some j
    → s.trigger_type ≡ j.trigger_type
    → is_active s.status ≡ true
    → has_active k js ≡ true
    → has_active k (store_job s js) ≡ true
unfolding has_active store_job store_by find_job find_by is_open_manual is_watchlist
has_active-store_active k s j [] f t a h = h
has_active-store_active k s j (x ∷ js) f t a h = elim (Bool-cases (x.id == s.id)) [
  | inl e ↦ let q : x.trigger_type ≡ s.trigger_type = ground (arith) in ground (arith)
  | inr e ↦
      let rest = λ (g : find_by (λ (y : Job). y.id) s.id js ≡ some j).
        has_active-store_active k s j js g t a in
      ground (arith, rest)
]

-- Storing over a job of the watchlist changes nothing for the requests of people.
pub has_active-store_watchlist :
    (k : ℕ) (s j : Job) (js : List Job)
    → find_job s.id js ≡ some j
    → is_watchlist j ≡ true
    → has_active k js ≡ true
    → has_active k (store_job s js) ≡ true
unfolding has_active store_job store_by find_job find_by is_open_manual is_watchlist
has_active-store_watchlist k s j [] f w h = h
has_active-store_watchlist k s j (x ∷ js) f w h = elim (Bool-cases (x.id == s.id)) [
  | inl e ↦ let q : x.trigger_type ≡ j.trigger_type = ground (arith) in ground (arith)
  | inr e ↦
      let rest = λ (g : find_by (λ (y : Job). y.id) s.id js ≡ some j).
        has_active-store_watchlist k s j js g w in
      ground (arith, rest)
]

pub has_active-store_again :
    (k : ℕ) (s j : Job) (js : List Job)
    → s.id ≡ j.id
    → s.status ≡ j.status
    → s.trigger_type ≡ j.trigger_type
    → has_active k (store_job s (store_job j js)) ≡ has_active k (store_job j js)
unfolding has_active store_job store_by is_open_manual is_watchlist
has_active-store_again k s j [] e f t = refl
has_active-store_again k s j (x ∷ js) e f t = ground (arith, has_active-store_again k s j js e f t)

pub has_active-found :
    (k : ℕ) (js : List Job) (j : Job) → find_job k js ≡ some j → has_active k js ≡ is_open_manual j
unfolding find_job find_by has_active
has_active-found k [] j f = absurd (ground arith)
has_active-found k (x ∷ js) j f = ground (arith, has_active-found k js j)

-- Where every link that was to an open job still is, except the links to one job.
is_served-except :
    (js js' : List Job) (k : ℕ) (r : CompanyRequest)
    → ((i : ℕ) → i ≢ k → has_active i js ≡ true → has_active i js' ≡ true)
    → is_active_linked k r ≡ false
    → is_served js r ≡ true
    → is_served js' r ≡ true
unfolding is_served served_by is_active_linked is_linked
is_served-except js js' k r keep u h = elim (Option-cases r.research_job_id) [
  | inl n ↦ ground arith
  | inr (i, n) ↦ let at = keep i in ground (arith, at)
]

pub is_served-keep :
    (js js' : List Job) (r : CompanyRequest)
    → ((i : ℕ) → has_active i js ≡ true → has_active i js' ≡ true)
    → is_served js r ≡ true
    → is_served js' r ≡ true
unfolding is_served served_by
is_served-keep js js' r keep h = elim (Option-cases r.research_job_id) [
  | inl n ↦ ground arith
  | inr (i, n) ↦ let at = keep i in ground (arith, at)
]

-- The ids of the jobs are unique, and the requests are served.
unfoldable pub IsConsistent : Tables → Type 0
IsConsistent db = UniqueBy (λ (j : Job). j.id) db.jobs × IsServed db

pub store_job_unique :
    (j : Job) (js : List Job)
    → UniqueBy (λ (x : Job). x.id) js
    → UniqueBy (λ (x : Job). x.id) (store_job j js)
unfolding store_job
store_job_unique j js u = store_by-UniqueBy (λ (x : Job). x.id) j js u

compared-active :
    (w : WatchJob) (j : Job) (xs js : List Job) (i : ℕ)
    → xs ≡ store_job j js
    → has_active i xs ≡ true
    → has_active i (store_job (compared w j) xs) ≡ true
unfolding compared
compared-active w j xs js i q h =
    subst
      (λ (ys : List Job).
        has_active i ys ≡ true → has_active i (store_job (compared w j) ys) ≡ true)
      (sym q) (λ g. has_active-store_again i (compared w j) j js refl refl refl ∙ g) h

-- What the schedule of a company hears changes no request, and no job's status.
write_watch-IsConsistent :
    (w : Option (Schedule × WatchJob)) (j : Job) (db : Tables) (js : List Job)
    → db.jobs ≡ store_job j js
    → IsConsistent db
    → IsConsistent (write_watch w j db)
unfolding write_watch IsConsistent IsServed
write_watch-IsConsistent none j db js q s = s
write_watch-IsConsistent (some w) j db js q s = (
  store_job_unique (compared w.1 j) db.jobs s.0,
  All-map _ _ db.requests
      (λ r h.
        is_served-keep db.jobs (store_job (compared w.1 j) db.jobs) r
          (λ i. compared-active w.1 j db.jobs js i q) h)
      s.1,
)

pub record_watch_outcome-IsConsistent :
    (e : Env) (now : ℕ) (j : Job) (db : Tables) (js : List Job)
    → db.jobs ≡ store_job j js
    → IsConsistent db
    → IsConsistent (record_watch_outcome e now j db)
unfolding record_watch_outcome
record_watch_outcome-IsConsistent e now j db js q s = write_watch-IsConsistent _ j db js q s

pub write_job-IsConsistent :
    (e : Env) (now : ℕ) (j : Job) (db : Tables)
    → UniqueBy (λ (x : Job). x.id) db.jobs
    → All (λ r. is_served (store_job j db.jobs) r ≡ true) db.requests
    → IsConsistent (write_job e now j db)
unfolding write_job IsConsistent IsServed
write_job-IsConsistent e now j db u h =
    record_watch_outcome-IsConsistent e now j (record db { jobs = store_job j db.jobs }) db.jobs
      refl (store_job_unique j db.jobs u, h)

-- A loop over the requests that leaves none under way for the job.
unfoldable pub Releases : ℕ → (CompanyRequest → CompanyRequest) → Type 0
Releases k f =
    (r : CompanyRequest)
    → (is_researching (f r).status ≡ false) ⊎ ((f r ≡ r) × (is_active_linked k r ≡ false))

pub not_researching :
    (js : List Job) (r : CompanyRequest) → is_researching r.status ≡ false → is_served js r ≡ true
unfolding is_served
not_researching js r h = ground arith

released-served :
    (j : Job) (js : List Job) (f : CompanyRequest → CompanyRequest) (rs : List CompanyRequest)
    → Releases j.id f
    → All (λ r. is_served js r ≡ true) rs
    → All (λ r. is_served (store_job j js) r ≡ true) (map f rs)
unfolding Releases
released-served j js f [] free a = tt
released-served j js f (r ∷ rs) free a = (one (free r), released-served j js f rs free a.1)
  where
    one :
        (is_researching (f r).status ≡ false) ⊎ ((f r ≡ r) × (is_active_linked j.id r ≡ false))
        → is_served (store_job j js) (f r) ≡ true
    one (inl h) = not_researching (store_job j js) (f r) h
    one (inr h) =
        subst (λ (x : CompanyRequest). is_served (store_job j js) x ≡ true) (sym h.0)
          (is_served-except js (store_job j js) j.id r
            (λ i n g. has_active-store_ne i j js (λ e. n (sym e)) ∙ g) h.1 a.0)

-- A job that is stored, with the requests under way for it released.
pub ended-IsConsistent :
    (e : Env) (now : ℕ) (j : Job) (f : CompanyRequest → CompanyRequest) (db db' : Tables)
    → Releases j.id f
    → IsConsistent db
    → db'.jobs ≡ db.jobs
    → db'.requests ≡ map f db.requests
    → IsConsistent (write_job e now j db')
unfolding Releases IsConsistent IsServed
ended-IsConsistent e now j f db db' free s ej er =
    write_job-IsConsistent e now j db'
      (subst (λ (js : List Job). UniqueBy (λ (x : Job). x.id) js) (sym ej) s.0)
      (subst (λ (js : List Job). All (λ r. is_served (store_job j js) r ≡ true) db'.requests)
        (sym ej)
        (subst
          (λ (rs : List CompanyRequest). All (λ r. is_served (store_job j db.jobs) r ≡ true) rs)
          (sym er) (released-served j db.jobs f db.requests free s.1)))
