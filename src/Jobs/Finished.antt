-- ===== src/Jobs/Finished.antt =====
-- `_finalize` of a refresh of all topics, and the success that the watchlist's schedule hears of.
use dealflow_radar.Common.{
  ℕ, ◌≤◌, ◌≡◌, ◌↔◌, refl, sym, ap, ◌∙◌, inl, inr, String, Option, none, some, true, List, [], ◌∷◌,
  map, min, All, All-map, keep, same_text, Bool-cases, Option-cases, arith, find_by-store_by_self,
}
use dealflow_radar.Budget.Reconcile.{completed as job_completed}
use dealflow_radar.Research.Data.{Texts, Coverage, topics, is_in}
use dealflow_radar.Research.Completion.{
  Overall, complete, completion_projection, RowStatus, completed, is_completed, Row, Records,
  Outcome, row, row_from, rows, search_group_modules,
}
use dealflow_radar.Research.Checked.{complete_iff}
use dealflow_radar.Watch.Data.{Schedule, CategoryRow, Job as WatchJob}
use dealflow_radar.Watch.Outcome.{
  earliest, earlier_of, checked_at, is_complete as is_watch_complete, success,
}
use dealflow_radar.Jobs.Data.{
  Job, Tables, Env, find_job, store_job, compared, write_watch, watch_outcome, record_watch_outcome,
  watch_job, watch_rows,
}
use dealflow_radar.Jobs.Ending.{
  write_job, is_complete, is_partial, final_coverage, finalized_job, finalize,
}

written_watch :
    (w : Option (Schedule × WatchJob)) (j j' : Job) (db : Tables)
    → find_job j.id db.jobs ≡ some j'
    → (k : Job) × (find_job j.id (write_watch w j (record db { jobs = store_job j db.jobs })).jobs
        ≡ some k)
      × (k.status ≡ j.status)
unfolding write_watch find_job store_job compared
written_watch none j j' db f =
    (j, find_by-store_by_self (λ (x : Job). x.id) db.jobs j.id j' j f refl, refl)
written_watch (some w) j j' db f =
    let g = find_by-store_by_self (λ (x : Job). x.id) db.jobs j.id j' j f refl in
    (compared w.1 j, find_by-store_by_self (λ (x : Job). x.id) _ j.id j _ g refl, refl)

complete_status : (o : Overall) → (is_complete o ≡ true) ↔ (o ≡ complete)
unfolding is_complete
complete_status o = ground arith

-- Of a refresh of the full scope: the job's status, from the completion of its research.
finalized_status :
    (e : Env) (now : ℕ) (j : Job) (db : Tables)
    → same_text j.coverage.research.research_scope "bounded_full_scope_refresh" ≡ true
    → let c = final_coverage e now db.ledger j in
      let done = completion_projection e.texts c.research in
      ((finalized_job now c done j).status ≡ job_completed) ↔ (done.status ≡ complete)
unfolding finalized_job is_partial final_coverage is_complete
finalized_status e now j db s = ground arith

-- When a refresh of the full scope is finalized, its job is stored as completed if and only if the row of
-- every one of the eight topics is completed. The job is one of the table.
pub finalize_complete :
    (e : Env) (now : ℕ) (j j' : Job) (db : Tables)
    → find_job j.id db.jobs ≡ some j'
    → same_text j.coverage.research.research_scope "bounded_full_scope_refresh" ≡ true
    → (k : Job) × (find_job j.id (finalize e now j db).jobs ≡ some k)
      × ((k.status ≡ job_completed)
          ↔ All (λ t. (row e.texts j.coverage.research t).status ≡ completed) topics)
unfolding finalize write_job record_watch_outcome finalized_job final_coverage
finalize_complete e now j j' db f s =
    let c = final_coverage e now db.ledger j in
    let done = completion_projection e.texts c.research in
    let job = finalized_job now c done j in
    let (k, g, h) =
      written_watch (watch_outcome e now job _) job j' (record db { requests = _ }) f in
    let i = finalized_status e now j db s in
    let t = complete_iff e.texts j.coverage.research in
    (k, g, (λ q. t.0 (i.0 (sym h ∙ q)), λ a. h ∙ i.1 (t.1 a)))

row_from-category :
    (x : Texts) (c : Coverage) (k : String) (r : Records) (y : Outcome × Option ℕ)
    → (row_from x c k r y).category ≡ k
unfolding row_from
row_from-category x c k r (o, t) = refl

row-category : (x : Texts) (c : Coverage) (k : String) → (row x c k).category ≡ k
unfolding row
row-category x c k = row_from-category x c k _ _

keep-rows :
    (x : Texts) (c : Coverage) (ms ks : List String)
    → keep (λ r. is_in ms r.category) (map (row x c) ks) ≡ map (row x c) (keep (is_in ms) ks)
unfolding keep row row_from
keep-rows x c ms [] = refl
keep-rows x c ms (k ∷ ks) = rw (row-category x c k) (
    rw (keep-rows x c ms ks)
      (elim (Bool-cases (is_in ms k)) [ inl e ↦ rw e refl | inr e ↦ rw e refl ]))

-- The row is completed, and its last successful check is known and not before an instant.
abbrev pub CheckedBy : Texts → Coverage → ℕ → String → Type 0
CheckedBy x c t k =
    ((row x c k).status ≡ completed)
    × ((u : ℕ) × ((row x c k).last_successful_check_at ≡ some u) × (t ≤ u))

completed_row : (s : RowStatus) → is_completed s ≡ true → s ≡ completed
unfolding is_completed
completed_row s h = ground arith

unfoldable category_row : Row → CategoryRow
category_row r = record {
  is_completed = is_completed r.status;
  last_successful_check_at = r.last_successful_check_at;
}

-- The earliest time of rows is one that each of them has, or is before it.
earliest-each :
    (r : Row) (rs : List Row) (t : ℕ)
    → earliest (category_row r) (map category_row rs) ≡ some t
    → All
        (λ (y : Row).
          (y.status ≡ completed) × ((u : ℕ) × (y.last_successful_check_at ≡ some u) × (t ≤ u)))
        (r ∷ rs)
unfolding earliest category_row earlier_of
earliest-each r [] t h = elim (Bool-cases (is_completed r.status)) [
  | inl e ↦ ((completed_row r.status e, (t, ground arith, omega arith)), tt)
  | inr e ↦ absurd (ground arith)
]
earliest-each r (x ∷ xs) t h = elim (Bool-cases (is_completed r.status)) [
  | inr e ↦ absurd (ground arith)
  | inl e ↦ elim (Option-cases r.last_successful_check_at) [
    | inl n ↦ absurd (ground arith)
    | inr (u, n) ↦ elim (Option-cases (earliest (category_row x) (map category_row xs))) [
      | inl m ↦ absurd (ground arith)
      | inr (v, m) ↦
          let q : min u v ≡ t = ground arith in
          (
            (completed_row r.status e, (u, n, omega (arith, q))),
            All-map _ _ (x ∷ xs) (λ y p. (p.0, (p.1.0, p.1.1, omega (arith, q, p.1.2))))
                (earliest-each x xs v m),
          )
    ]
  ]
]

-- The topics of the watchlist's group.
abbrev pub watched_topics : List String
watched_topics = keep (is_in (search_group_modules "business_capital")) topics

watch_rows-watched :
    (x : Texts) (c : Coverage) → watch_rows x c ≡ map category_row (map (row x c) watched_topics)
unfolding watch_rows rows category_row
watch_rows-watched x c =
    ap (map category_row) (keep-rows x c (search_group_modules "business_capital") topics)

checked_each :
    (x : Texts) (c : Coverage) (t : ℕ)
    → checked_at (map category_row (map (row x c) watched_topics)) ≡ some t
    → All (CheckedBy x c t) watched_topics
unfolding checked_at keep is_in search_group_modules
checked_each x c t h =
    earliest-each (row x c "financing_cap_table")
      (row x c "financial_operation" ∷ row x c "contract_commercial" ∷ []) t h

-- A job that counts as a successful check of a watched company, at a time: each of the three topics of the
-- watchlist's group is completed in it, with a last successful check at or after that time.
pub watched_success :
    (e : Env) (j : Job) (t : ℕ)
    → success (watch_job e j) ≡ some t
    → All (CheckedBy e.texts j.coverage.research t) watched_topics
unfolding success watch_job
watched_success e j t h = elim (Bool-cases (is_watch_complete (watch_job e j))) [
  | inr n ↦ absurd (ground arith)
  | inl y ↦
      let q : checked_at (watch_rows e.texts j.coverage.research) ≡ some t = ground arith in
      checked_each e.texts j.coverage.research t
        (sym (ap checked_at (watch_rows-watched e.texts j.coverage.research)) ∙ q)
]
