-- ===== src/Jobs/Reach.antt =====
-- The tables that the worker, its preparation and the requests of people lead to.
use dealflow_radar.Common.{
  ℕ, ◌≡◌, subst, String, none, some, Bool, true, List, [], ◌∷◌, ◌++◌, All, ok, arith,
}
use dealflow_radar.Personal.Data.{CompanyRequest}
use dealflow_radar.Jobs.Data.{Job, Tables, Env, find_job, is_watchlist}
use dealflow_radar.Jobs.Ending.{cancel_job, finalize, defer_budget, fail_preflight, fail_step}
use dealflow_radar.Jobs.Lease.{LeasePolicy, lease_job}
use dealflow_radar.Jobs.Prepare.{PreparePolicy, Given, prepare_pending_research_requests}
use dealflow_radar.Jobs.Served.{IsConsistent, IsServed, is_served, served_by}
use dealflow_radar.Jobs.Ended.{
  cancel_job-IsConsistent, finalize-IsConsistent, defer_budget-IsConsistent,
  fail_preflight-IsConsistent, fail_Step-IsConsistent,
}
use dealflow_radar.Jobs.Runs.{OkConsistent, lease_job-IsConsistent, prepare-IsConsistent}

-- One operation on the tables. A job of the step is one of the table; the failed step is a job of the
-- watchlist, as the code asks.
pub data Step (e : Env) : Tables → Tables → Type 0 where
  asks :
      (r : CompanyRequest) (db : Tables)
      → r.research_job_id ≡ none
      → Step e db (record db { requests = db.requests ++ r ∷ [] })
  prepares :
      (admin : Bool) (p : PreparePolicy) (g : Given) (now n : ℕ) (db db' : Tables)
      → prepare_pending_research_requests admin e p g now db ≡ ok (n, db')
      → Step e db db'
  leases : (p : LeasePolicy) (now : ℕ) (db : Tables) → Step e db (lease_job e p now db).1
  cancels :
      (now : ℕ) (j : Job) (db : Tables)
      → find_job j.id db.jobs ≡ some j
      → Step e db (cancel_job e now j db)
  finalizes :
      (now : ℕ) (j : Job) (db : Tables)
      → find_job j.id db.jobs ≡ some j
      → Step e db (finalize e now j db)
  defers :
      (now : ℕ) (j : Job) (db : Tables)
      → find_job j.id db.jobs ≡ some j
      → Step e db (defer_budget e now j db)
  fails_preflight :
      (failure : String) (now : ℕ) (j : Job) (db : Tables)
      → find_job j.id db.jobs ≡ some j
      → Step e db (fail_preflight e failure now j db)
  fails_step :
      (now : ℕ) (j : Job) (db : Tables)
      → find_job j.id db.jobs ≡ some j
      → is_watchlist j ≡ true
      → Step e db (fail_step e now j db)

pub data Reach (e : Env) : Tables → Tables → Type 0 where
  here : (db : Tables) → Reach e db db
  then : (a b c : Tables) → Step e a b → Reach e b c → Reach e a c

asked-served :
    (r : CompanyRequest) (js : List Job) (rs : List CompanyRequest)
    → r.research_job_id ≡ none
    → All (λ x. is_served js x ≡ true) rs
    → All (λ x. is_served js x ≡ true) (rs ++ r ∷ [])
unfolding is_served served_by
asked-served r js [] n a = (ground arith, tt)
asked-served r js (x ∷ rs) n a = (a.0, asked-served r js rs n a.1)

Step-IsConsistent : (e : Env) (a b : Tables) → Step e a b → IsConsistent a → IsConsistent b
unfolding IsConsistent IsServed OkConsistent
Step-IsConsistent e a b (Step.asks r db n) s = (s.0, asked-served r db.jobs db.requests n s.1)
Step-IsConsistent e a b (Step.prepares admin p g now n db db' q) s =
    subst OkConsistent q (prepare-IsConsistent admin e p g now db s)
Step-IsConsistent e a b (Step.leases p now db) s = lease_job-IsConsistent e p now db s
Step-IsConsistent e a b (Step.cancels now j db f) s = cancel_job-IsConsistent e now j db s
Step-IsConsistent e a b (Step.finalizes now j db f) s = finalize-IsConsistent e now j db s
Step-IsConsistent e a b (Step.defers now j db f) s = defer_budget-IsConsistent e now j db f s
Step-IsConsistent e a b (Step.fails_preflight failure now j db f) s =
    fail_preflight-IsConsistent e failure now j db s
Step-IsConsistent e a b (Step.fails_step now j db f w) s = fail_Step-IsConsistent e now j db f w s

-- Whatever requests people make, and however the worker prepares, leases, cancels, finalizes or defers
-- jobs, or fails at the network check or in a step of the watchlist: if job ids are unique and every
-- request that research is under way for is linked to no job, or to a job for people's requests that has not
-- ended, then both hold afterwards.
pub Reach-IsConsistent : (e : Env) (a b : Tables) → Reach e a b → IsConsistent a → IsConsistent b
Reach-IsConsistent e a b (Reach.here db) s = s
Reach-IsConsistent e a b (Reach.then x y z st rest) s =
    Reach-IsConsistent e y z rest (Step-IsConsistent e x y st s)
