-- ===== src/Personal/Cancel.antt =====
-- The outcome of `cancel_personal_company_request` (backend/app/personal_features.py).
use mathlib.Core.Path.{subst}
use dealflow_radar.Common.{
  ℕ, ◌+◌, ◌≤◌, ◌≡◌, refl, sym, ap, ◌∙◌, ok_eq, ◌⊎◌, inl, inr, String, Option, none, some, Bool,
  true, false, ◌&&◌, List, ◌==◌, ==_iff, arith, Result, ok, Bool-cases, Option-cases, pick, find_by,
  find_by-pick, find_by-store_by_self, store_by-same, count, count-store_by, UniqueBy, key-find_by,
}
use dealflow_radar.Personal.Data.{
  Operation, CompanyRequest, RequestStatus, cancelled, cancel_requested, UsageRecord, Job, Db, User,
  Error, is_cancellable,
}
use dealflow_radar.Personal.Usage.{usage_count, counts_in}
use dealflow_radar.Personal.Requests.{
  mine, find_request, job_of, other_requests, is_identity_checking, is_running, shares_job, asked,
  ended, waiting, stop_job, ask_job, cancel_job, cancel_pair, is_cancelled, job_calls, is_usage_of,
  voided, void_first, refund, store_job, write_cancel, cancel_found, cancel_company_request,
}

-- Voiding a record of the table takes no more than that record out of any count.
void_first-count :
    (now user request who : ℕ) (op : Operation) (period : ℕ) (us : List UsageRecord)
    → UniqueBy (λ (u : UsageRecord). u.id) us
    → count
        (counts_in who op period)
        (void_first now (pick (is_usage_of user request) (λ x y. false) us) us)
      ≤ count (counts_in who op period) us
unfolding void_first
void_first-count now user request who op period us u =
    elim (Option-cases (pick (is_usage_of user request) (λ x y. false) us)) [
      | inl e ↦ rw e (omega arith)
      | inr (x, e) ↦
          let found =
            find_by-pick (λ (u : UsageRecord). u.id) (is_usage_of user request) (λ x y. false) us x
              u e in
          rw e (
            unfold counts_in voided in
            ground (
              arith,
              count-store_by (λ (u : UsageRecord). u.id) (counts_in who op period) us x
                  (voided now x) (unfold voided in found),
            ))
    ]

refund-count :
    (now user : ℕ) (r : CompanyRequest) (j : Option Job) (who : ℕ) (op : Operation) (period : ℕ)
    (us : List UsageRecord)
    → UniqueBy (λ (u : UsageRecord). u.id) us
    → count (counts_in who op period) (refund now user r j us) ≤ count (counts_in who op period) us
unfolding refund
refund-count now user r j who op period us u =
    elim (Bool-cases (is_cancelled r.status && ((r.external_calls + job_calls j) == 0))) [
      | inl e ↦ rw e (void_first-count now user r.id who op period us u)
      | inr e ↦ rw e (omega arith)
    ]

refund-called :
    (now user : ℕ) (r : CompanyRequest) (j : Option Job) (us : List UsageRecord)
    → (refund now user r j us ≡ us)
      ⊎ ((r.status ≡ cancelled) × (r.external_calls + job_calls j ≡ 0))
unfolding refund is_cancelled
refund-called now user r j us =
    elim (Bool-cases (is_cancelled r.status && ((r.external_calls + job_calls j) == 0))) [
      | inl e ↦ inr (ground arith, ground arith)
      | inr e ↦ rw e (inl refl)
    ]

-- The status of a request that is being cancelled, and its job, which is left alone where another
-- request needs it.
abbrev Outcome : Db → CompanyRequest → Option Job → CompanyRequest × Option Job → Type 0
Outcome db r j x =
    ((x.0.status ≡ cancelled) ⊎ (x.0.status ≡ cancel_requested))
    × (x.0.id ≡ r.id)
    × (job_calls x.1 ≡ job_calls j)
    × ((x.1 ≡ j) ⊎ ((i : Job) × (j ≡ some i) × (other_requests i r db ≡ 0)))

paired_lem :
    (now : ℕ) (db : Db) (r : CompanyRequest) (j : Option Job) (prior : RequestStatus)
    → Outcome db r j (cancel_pair now db r j prior)
unfolding cancel_pair cancel_job ended waiting job_calls stop_job ask_job
paired_lem now db r none prior = elim (Bool-cases (is_identity_checking prior)) [
  | inl e ↦ rw e (inr refl, refl, refl, inl refl)
  | inr e ↦ rw e (inl refl, refl, refl, inl refl)
]
paired_lem now db r (some j) prior = elim (Bool-cases (is_identity_checking prior)) [
  | inl e ↦ rw e (inr refl, refl, refl, inl refl)
  | inr e ↦ elim (Bool-cases (is_running j.status)) [
    | inl y ↦ elim (Bool-cases (other_requests j r db == 0)) [
      | inl z ↦
          rw (e, y, z) (inr refl, refl, refl, inr (j, refl, (==_iff (other_requests j r db) 0).0 z))
      | inr z ↦ rw (e, y, z) (inl refl, refl, refl, inl refl)
    ]
    | inr y ↦ elim (Bool-cases (other_requests j r db == 0)) [
      | inl z ↦
          rw (e, y, z) (inl refl, refl, refl, inr (j, refl, (==_iff (other_requests j r db) 0).0 z))
      | inr z ↦ rw (e, y, z) (inl refl, refl, refl, inl refl)
    ]
  ]
]

job_kept : (k : Option ℕ) (db : Db) → store_job (job_of k db) db.jobs ≡ db.jobs
unfolding store_job job_of
job_kept none db = refl
job_kept (some k) db = elim (Option-cases (find_by (λ (j : Job). j.id) k db.jobs)) [
  | inl e ↦ rw e refl
  | inr (j, e) ↦
      let i : j.id ≡ k = key-find_by (λ (x : Job). x.id) k db.jobs j e in
      rw e (
        store_by-same (λ (x : Job). x.id) j db.jobs
          (subst (λ (m : ℕ). find_by (λ (x : Job). x.id) m db.jobs ≡ some j) (sym i) e))
]

found_eq :
    (a b : CompanyRequest × Bool × Db)
    → Path (Result Error (CompanyRequest × Bool × Db)) (ok a) (ok b)
    → a ≡ b
found_eq a b h = ok_eq a b h

cancelled_of : (s : RequestStatus) → is_cancelled s ≡ true → s ≡ cancelled
unfolding is_cancelled
cancelled_of s h = ground arith

found_cancel :
    (o : Option CompanyRequest) (user : User) (reason : Option String) (now : ℕ) (db : Db)
    (x : CompanyRequest × Bool × Db)
    → cancel_found o user reason now db ≡ ok x
    → (r : CompanyRequest) × (o ≡ some r)
      × (((r.status ≡ cancelled) × ((r, true, db) ≡ x))
          ⊎ ((is_cancellable r.status ≡ true)
              × (write_cancel now user
                    (cancel_pair now db (asked now reason r) (job_of r.research_job_id db) r.status)
                    db
                  ≡ x)))
unfolding cancel_found
found_cancel none user reason now db x h = absurd (ground arith)
found_cancel (some r) user reason now db x h = elim (Bool-cases (is_cancelled r.status)) [
  | inl e ↦ (r, refl, inl (cancelled_of r.status e, found_eq (r, true, db) x (ground arith)))
  | inr e ↦ elim (Bool-cases (is_cancellable r.status)) [
    | inl y ↦ (
      r,
      refl,
      inr (
        y,
        found_eq
            (write_cancel now user
              (cancel_pair now db (asked now reason r) (job_of r.research_job_id db) r.status) db)
            x (ground arith),
      ),
    )
    | inr y ↦ absurd (ground arith)
  ]
]

-- What a cancellation that succeeds leaves behind.
abbrev pub Cancelled : User → ℕ → Db → CompanyRequest → CompanyRequest × Bool × Db → Type 0
Cancelled user now db r (r', again, db') =
    (r'.id ≡ r.id)
    × (find_request r.id db' ≡ some r')
    × ((r'.status ≡ cancelled) ⊎ (r'.status ≡ cancel_requested))
    × ((db'.jobs ≡ db.jobs)
        ⊎ ((j : Job) × (job_of r.research_job_id db ≡ some j) × (other_requests j r db ≡ 0)))
    × ((db'.usage ≡ db.usage)
        ⊎ ((r'.status ≡ cancelled)
            × (r'.external_calls + job_calls (job_of r.research_job_id db) ≡ 0)))
    × ((who : ℕ) (op : Operation) (period : ℕ)
        → usage_count who op period db' ≤ usage_count who op period db)

written_cancel :
    (user : User) (reason : Option String) (now : ℕ) (db : Db) (r : CompanyRequest)
    → UniqueBy (λ (u : UsageRecord). u.id) db.usage
    → find_request r.id db ≡ some r
    → Cancelled user now db r (
        write_cancel now user
          (cancel_pair now db (asked now reason r) (job_of r.research_job_id db) r.status)
          db)
unfolding write_cancel asked usage_count other_requests shares_job find_request
written_cancel user reason now db r u f =
    let x = cancel_pair now db (asked now reason r) (job_of r.research_job_id db) r.status in
    let (status, id, calls, job) =
      paired_lem now db (asked now reason r) (job_of r.research_job_id db) r.status in
    (
      id,
      find_by-store_by_self (λ (y : CompanyRequest). y.id) db.requests r.id r x.0 f id,
      status,
      elim job [
        | inl e ↦ inl (ap (λ y. store_job y db.jobs) e ∙ job_kept r.research_job_id db)
        | inr (j, e, n) ↦ inr (j, e, n)
      ],
      elim (refund-called now user.id x.0 x.1 db.usage) [
        | inl e ↦ inl e
        | inr (e, n) ↦ inr (e, omega (arith, n, calls))
      ],
      λ who op period. refund-count now user.id x.0 x.1 who op period db.usage u,
    )

own_found :
    (user k : ℕ) (db : Db) (r : CompanyRequest)
    → mine user (find_request k db) ≡ some r
    → find_request r.id db ≡ some r
unfolding mine find_request
own_found user k db r h =
    elim (Option-cases (find_by (λ (y : CompanyRequest). y.id) k db.requests)) [
      | inl e ↦ absurd (ground arith)
      | inr (q, e) ↦
          let same : q ≡ r = ground arith in
          let i : q.id ≡ k = key-find_by (λ (y : CompanyRequest). y.id) k db.requests q e in
          subst
            (λ (y : CompanyRequest).
              find_by (λ (z : CompanyRequest). z.id) y.id db.requests ≡ some y)
            same
            (subst (λ (j : ℕ). find_by (λ (z : CompanyRequest). z.id) j db.requests ≡ some q)
              (sym i) e)
    ]

-- A cancellation that is accepted is of a request of the user's, and the table has the request of that
-- id as cancelled, or marked to be cancelled, afterwards, as the answer has it; it changes
-- research jobs only where the request's job is needed by no other request, and voids usage only
-- where the request is cancelled and neither it nor its job has made an external call. No count of usage grows. The ids of
-- usage records are unique.
pub cancel_company_request_lem :
    (user : User) (k : ℕ) (reason : Option String) (now : ℕ) (db : Db)
    (x : CompanyRequest × Bool × Db)
    → UniqueBy (λ (u : UsageRecord). u.id) db.usage
    → cancel_company_request user k reason now db ≡ ok x
    → (r : CompanyRequest) × (mine user.id (find_request k db) ≡ some r) × Cancelled user now db r x
unfolding cancel_company_request
cancel_company_request_lem user k reason now db x u h =
    let (r, f, cases) = found_cancel (mine user.id (find_request k db)) user reason now db x h in
    elim cases [
      | inl (c, e) ↦ (
        r,
        f,
        subst (λ (y : CompanyRequest × Bool × Db). Cancelled user now db r y) e
            (
              refl,
              own_found user.id k db r f,
              inl c,
              inl refl,
              inl refl,
              λ who op period. omega arith,
            ),
      )
      | inr (_, e) ↦ (
        r,
        f,
        subst (λ (y : CompanyRequest × Bool × Db). Cancelled user now db r y) e
            (written_cancel user reason now db r u (own_found user.id k db r f)),
      )
    ]
