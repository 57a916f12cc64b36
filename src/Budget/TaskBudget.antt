-- ===== src/Budget/TaskBudget.antt =====
-- The calls charged to one task and operation over any sequence of transactions.
use mathlib.Core.Path.{subst}
use dealflow_radar.Common.{
  ℕ, ◌+◌, ◌≤◌, ◌≡◌, refl, String, none, some, Bool, true, ◌&&◌, List, [], ◌∷◌, arith, Bool-cases,
  inl, inr, ok, ◌∙◌, sym, map, is_text, sql_eq, eq_iff,
}
use dealflow_radar.Budget.Rows.{Row, reserved, find_id, store, scope, sum_calls, charged_calls}
use dealflow_radar.Budget.Admission.{Policy, check, is_task_call}
use dealflow_radar.Budget.Limits.{check_iff}
use dealflow_radar.Budget.Sums.{
  Unique, Absent, Unique-store, store-find, sum_calls-store, charge, without,
  sum_calls-without-none,
}
use dealflow_radar.Budget.Calls.{
  Call, call_limits, new_row, call_key, release_row, send_row, settled_row, recover_row, recover,
}
use dealflow_radar.Budget.Soundness.{IsSettlement, SameCall, settled_row_ok}
use dealflow_radar.Budget.Traces.{
  Step, reserves, dispatches, settles, recovers, Reach, here, next, reserve_cases, dispatch_cases,
  settle_cases,
}

Absent-map :
    (f : Row → Row) (k : ℕ) (rows : List Row)
    → ((r : Row) → (f r).id ≡ r.id)
    → Absent k rows
    → Absent k (map f rows)
Absent-map f k [] h a = tt
Absent-map f k (x ∷ xs) h a = ((λ e. a.0 (sym (h x) ∙ e)), Absent-map f k xs h a.1)

Unique-map :
    (f : Row → Row) (rows : List Row)
    → ((r : Row) → (f r).id ≡ r.id)
    → Unique rows
    → Unique (map f rows)
Unique-map f [] h u = tt
Unique-map f (x ∷ xs) h u = (rw h (Absent-map f x.id xs h u.0), Unique-map f xs h u.1)

id-recover_row :
    (task : String) (now : ℕ) (stop : Bool) (r : Row) → (recover_row task now stop r).id ≡ r.id
unfolding recover_row
id-recover_row task now stop r = ground arith

pub Step-Unique :
    {sha256 : String → String} {s t : List Row} → Step sha256 s t → Unique s → Unique t
Step-Unique {sha256} (reserves fresh now p c rows f) u =
    elim (reserve_cases sha256 fresh now p c rows) [
      | inl e ↦ rw e u
      | inr (upper, e, _) ↦ rw e (unfold new_row in (f, u))
    ]
Step-Unique (dispatches k now p stop rows) u = elim (dispatch_cases k now p stop rows) [
  | inl e ↦ rw e u
  | inr (r, f, s, inl e) ↦ rw e (Unique-store (release_row now r) rows u)
  | inr (r, f, s, inr e) ↦ rw e (Unique-store (send_row now r) rows u)
]
Step-Unique (settles k calls cost receipt audit now rows) u =
    elim (settle_cases k calls cost receipt audit now rows) [
      | inl e ↦ rw e u
      | inr (r, r', f, g, e) ↦ rw e (Unique-store r' rows u)
    ]
Step-Unique (recovers task now stop rows) u =
    unfold recover in Unique-map (recover_row task now stop) rows (id-recover_row task now stop) u

pub Reach-Unique : {sha256 : String → String} {rows : List Row} → Reach sha256 [] rows → Unique rows
Reach-Unique here = tt
Reach-Unique (next r st) = Step-Unique st (Reach-Unique r)

-- The rows of one task and operation.
abbrev pub is_call_of : String → String → Row → Bool
is_call_of task operation r =
    is_text scope r.quota_scope
    && sql_eq (some task) r.task_key
    && is_text operation (some r.operation)

-- What a step has to respect: the task's limits are the same at each of its reservations, and a
-- settlement reports at most the calls that were reserved.
abbrev pub IsBudgeted :
    {sha256 : String → String} {s t : List Row} → String → String → ℕ → ℕ → Step sha256 s t → Type 0
IsBudgeted task operation limit baseline (reserves fresh now p c rows f) =
    c.task_key ≡ task
    → c.operation ≡ operation
    → (c.task_limit ≤ limit) × (baseline ≤ c.task_baseline)
IsBudgeted task operation limit baseline (settles k calls cost receipt audit now rows) =
    (r : Row) (n : ℕ) → find_id k rows ≡ some r → calls ≡ some n → n ≤ r.reserved_calls
IsBudgeted task operation limit baseline _ = Unit {0}

-- Every step of a run respects the task's limits.
abbrev pub AllBudgeted :
    {sha256 : String → String} {s t : List Row}
    → String
    → String
    → ℕ
    → ℕ
    → Reach sha256 s t
    → Type 0
AllBudgeted task operation limit baseline here = Unit {0}
AllBudgeted task operation limit baseline (next r st) =
    AllBudgeted task operation limit baseline r × IsBudgeted task operation limit baseline st

-- Writing a row that is charged no more than before does not raise a sum.
sum_calls-store-le :
    (p : Row → Bool) (rows : List Row) (r s : Row)
    → Unique rows
    → find_id s.id rows ≡ some r
    → charge p s ≤ charge p r
    → sum_calls p (store s rows) ≤ sum_calls p rows
sum_calls-store-le p rows r s u f h =
    let found = store-find rows r s.id f in
    let same : sum_calls p (store r rows) ≡ sum_calls (without (some r.id) p) rows + charge p r =
      sum_calls-store p rows r r u (subst (λ (j : ℕ). find_id j rows ≡ some r) (sym found.1) f) in
    let old : sum_calls p rows ≡ sum_calls (without (some r.id) p) rows + charge p r =
      rw (found.0) at same in
    let old' : sum_calls p rows ≡ sum_calls (without (some s.id) p) rows + charge p r =
      subst (λ (j : ℕ). sum_calls p rows ≡ sum_calls (without (some j) p) rows + charge p r) found.1
        old in
    omega (arith, sum_calls-store p rows r s u f)

sum_calls-map-le :
    (p : Row → Bool) (f : Row → Row) (rows : List Row)
    → ((r : Row) → charge p (f r) ≤ charge p r)
    → sum_calls p (map f rows) ≤ sum_calls p rows
unfolding sum_calls
sum_calls-map-le p f [] h = omega arith
sum_calls-map-le p f (x ∷ xs) h = omega (arith, h x, sum_calls-map-le p f xs h)

module _ (task operation : String) where
  abbrev pub charged : List Row → ℕ
  charged rows = sum_calls (is_call_of task operation) rows

  charge-release :
      (now : ℕ) (r : Row)
      → charge (is_call_of task operation) (release_row now r)
        ≤ charge (is_call_of task operation) r
  unfolding release_row charged_calls
  charge-release now r = ground arith

  charge-send :
      (now : ℕ) (r : Row)
      → r.usage_state ≡ reserved
      → charge (is_call_of task operation) (send_row now r) ≤ charge (is_call_of task operation) r
  unfolding send_row charged_calls
  charge-send now r s = ground arith

  charge-settlement :
      (n : ℕ) (r r' : Row)
      → IsSettlement n r r'
      → SameCall r r'
      → n ≤ r.reserved_calls
      → charge (is_call_of task operation) r' ≤ charge (is_call_of task operation) r
  unfolding charged_calls
  charge-settlement n r r' s c le = ground arith

  charge-recover :
      (t : String) (now : ℕ) (stop : Bool) (r : Row)
      → charge (is_call_of task operation) (recover_row t now stop r)
        ≤ charge (is_call_of task operation) r
  unfolding recover_row charged_calls
  charge-recover t now stop r = ground arith

  call_of_new_row :
      (fresh now : ℕ) (p : Policy) (c : Call) (key : String) (upper : ℕ)
      → is_call_of task operation (new_row fresh now p c key upper) ≡ true
      → (c.task_key ≡ task) × (c.operation ≡ operation)
  unfolding new_row
  call_of_new_row fresh now p c key upper h =
      ground (arith, eq_iff c.task_key task, eq_iff c.operation operation)

  admitted :
      (fresh now : ℕ) (p : Policy) (c : Call) (key : String) (upper : ℕ) (rows : List Row)
      → c.task_key ≡ task
      → c.operation ≡ operation
      → check (call_limits now p c) (new_row fresh now p c key upper) none rows ≡ ok tt
      → c.task_baseline + charged rows + charged_calls (new_row fresh now p c key upper)
        ≤ c.task_limit
  unfolding new_row is_task_call charged_calls call_limits
  admitted fresh now p c key upper rows t o passed =
      let row : Row = new_row fresh now p c key upper in
      let within = (check_iff (call_limits now p c) row none rows).0 passed in
      let same : sum_calls (is_task_call row) rows ≡ charged rows =
        subst
          (λ (k : String).
            sum_calls (is_task_call row) rows ≡ sum_calls (is_call_of k operation) rows)
          t
          (subst
            (λ (k : String).
              sum_calls (is_task_call row) rows ≡ sum_calls (is_call_of c.task_key k) rows)
            o refl) in
      omega (arith, within.2.task_calls, sum_calls-without-none (is_task_call row) rows, same)

  -- A new row is charged its reserved calls, or is no call of this task and operation.
  charge-new_row :
      (fresh now : ℕ) (p : Policy) (c : Call) (key : String) (upper limit baseline : ℕ)
      (rows : List Row)
      → check (call_limits now p c) (new_row fresh now p c key upper) none rows ≡ ok tt
      → (c.task_key ≡ task
          → c.operation ≡ operation
          → (c.task_limit ≤ limit) × (baseline ≤ c.task_baseline))
      → baseline + charged rows ≤ limit
      → baseline + charged (new_row fresh now p c key upper ∷ rows) ≤ limit
  unfolding sum_calls
  charge-new_row fresh now p c key upper limit baseline rows passed keeps h =
      elim (Bool-cases (is_call_of task operation (new_row fresh now p c key upper))) [
        | inl e ↦
            let (t, o) = call_of_new_row fresh now p c key upper e in
            let (le, ge) = keeps t o in
            rw e (omega (arith, admitted fresh now p c key upper rows t o passed))
        | inr e ↦ rw e (omega arith)
      ]

  charged-store :
      (rows : List Row) (r s : Row) (k : ℕ)
      → Unique rows
      → find_id k rows ≡ some r
      → s.id ≡ r.id
      → charge (is_call_of task operation) s ≤ charge (is_call_of task operation) r
      → charged (store s rows) ≤ charged rows
  charged-store rows r s k u f e h =
      sum_calls-store-le (is_call_of task operation) rows r s u
        (subst (λ (j : ℕ). find_id j rows ≡ some r) (sym (e ∙ (store-find rows r k f).1)) f) h

  Step-charged :
      {sha256 : String → String} {s t : List Row} (limit baseline : ℕ) (st : Step sha256 s t)
      → Unique s
      → IsBudgeted task operation limit baseline st
      → baseline + charged s ≤ limit
      → baseline + charged t ≤ limit
  Step-charged {sha256} limit baseline (reserves fresh now p c rows f) u b h =
      elim (reserve_cases sha256 fresh now p c rows) [
        | inl e ↦ rw e h
        | inr (upper, e, passed) ↦
            rw e (
              charge-new_row fresh now p c (call_key sha256 c) upper limit baseline rows passed b h)
      ]
  Step-charged limit baseline (dispatches k now p stop rows) u b h =
      elim (dispatch_cases k now p stop rows) [
        | inl e ↦ rw e h
        | inr (r, f, s, inl e) ↦ rw e (
            omega (
              arith,
              charged-store rows r (release_row now r) k u f (unfold release_row in refl)
                  (charge-release now r),
            ))
        | inr (r, f, s, inr e) ↦ rw e (
            omega (
              arith,
              charged-store rows r (send_row now r) k u f (unfold send_row in refl)
                  (charge-send now r s),
            ))
      ]
  Step-charged limit baseline (settles k none cost receipt audit now rows) u b h =
      elim (settle_cases k none cost receipt audit now rows) [
        | inl e ↦ rw e h
        | inr (r, r', f, g, e) ↦ absurd (unfold settled_row in ground arith)
      ]
  Step-charged limit baseline (settles k (some n) cost receipt audit now rows) u b h =
      elim (settle_cases k (some n) cost receipt audit now rows) [
        | inl e ↦ rw e h
        | inr (r, r', f, g, e) ↦ elim (settled_row_ok n cost receipt audit now r r' g) [
          | inl (_, same) ↦
              rw e (omega (arith, charged-store rows r r' k u f (rw same) (rw same (omega arith))))
          | inr (s, c) ↦ rw e (
              omega (
                arith,
                charged-store rows r r' k u f c.0 (charge-settlement n r r' s c (b r n f refl)),
              ))
        ]
      ]
  Step-charged limit baseline (recovers t now stop rows) u b h =
      unfold recover in
      omega (
        arith,
        sum_calls-map-le (is_call_of task operation) (recover_row t now stop) rows
            (charge-recover t now stop),
      )

  -- After any sequence of reservations, dispatches, settlements and recoveries from an empty ledger,
  -- the calls charged to the task for the operation stay within the limit less the baseline: whatever
  -- is reserved, in flight, uncertain or settled is counted. The task's reservations are made with a
  -- limit of at most `limit` and a baseline of at least `baseline`, and no settlement reports more
  -- calls than its row reserved.
  pub Reach-charged :
      {sha256 : String → String} {rows : List Row} (limit baseline : ℕ) (run : Reach sha256 [] rows)
      → baseline ≤ limit
      → AllBudgeted task operation limit baseline run
      → baseline + charged rows ≤ limit
  Reach-charged limit baseline here le b = unfold sum_calls in omega arith
  Reach-charged limit baseline (next r st) le b =
      Step-charged limit baseline st (Reach-Unique r) b.1 (Reach-charged limit baseline r le b.0)
