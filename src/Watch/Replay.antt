-- ===== src/Watch/Replay.antt =====
-- Repeated calls of `record_outcome` (backend/app/watchlist_monitoring.py).
use dealflow_radar.Common.{
  ℕ, ◌≡◌, refl, String, Option, none, some, true, arith, ==_iff, Bool-cases, Option-cases, inl, inr,
  is_number, eq_refl,
}
use dealflow_radar.Budget.Reconcile.{JobStatus}
use dealflow_radar.Watch.Data.{Policy, Schedule, Job, status_text, same_status}
use dealflow_radar.Watch.Outcome.{
  same_time, is_key, outcome_key, is_final, success, write_outcome, checking, record_outcome,
  after_success, after_failure, newly_checked, keyed,
}

same_status_refl : (x : JobStatus) → same_status x x ≡ true
unfolding same_status
same_status_refl x = eq_refl (status_text x)

is_key_self : (j : Job) → is_key (outcome_key j) (some (outcome_key j)) ≡ true
unfolding is_key outcome_key same_time
is_key_self j = elim (Option-cases j.heartbeat_at) [
  | inl e ↦ rw e (ground (arith, same_status_refl j.status, ==_iff j.id j.id))
  | inr (t, e) ↦ rw e (ground (arith, same_status_refl j.status, ==_iff j.id j.id, ==_iff t t))
]

write_outcome_key :
    (ok : Option ℕ) (p : Policy) (now : ℕ) (after : String) (j : Job) (s : Schedule)
    → ((write_outcome ok p now after j s).0.last_outcome_key ≡ some (outcome_key j))
unfolding write_outcome after_success after_failure newly_checked keyed
write_outcome_key none p now after j s = refl
write_outcome_key (some t) p now after j s = ground arith

checking_once : (j : Job) (s : Schedule) → checking j (checking j s) ≡ checking j s
unfolding checking
checking_once j s = elim (Bool-cases (is_number j.id s.last_job_id)) [
  | inl e ↦ rw e (rw e refl)
  | inr e ↦ rw e (rw e refl)
]

-- Recording the outcome of a job a second time, at any later clock and whatever was found about the
-- company since, leaves the schedule as the first recording left it.
pub record_outcome_once :
    (p p' : Policy) (now now' : ℕ) (after after' : String) (j : Job) (s : Schedule)
    → let s' = (record_outcome p now after j s).0 in (record_outcome p' now' after' j s').0 ≡ s'
unfolding record_outcome
record_outcome_once p p' now now' after after' j s = elim (Bool-cases (is_final j.status)) [
  | inr n ↦ rw n (checking_once j s)
  | inl y ↦ elim (Bool-cases (is_key (outcome_key j) s.last_outcome_key)) [
    | inl k ↦ rw (y, k) (rw k refl)
    | inr k ↦
        rw (y, k) (rw (write_outcome_key (success j) p now after j s) (rw (is_key_self j) refl))
  ]
]
