-- ===== src/Watch/Waits.antt =====
-- The waits that `record_outcome` sets (backend/app/watchlist_monitoring.py).
use dealflow_radar.Common.{
  ℕ, zero, suc, ◌+◌, ◌*◌, ◌-◌, ◌/◌, ◌^◌, ◌≤◌, ◌≡◌, refl, min, max, String, none, some, true, false,
  arith, ◌⊎◌, Bool-cases, Option-cases, inl, inr,
}
use native.Mathlib.Nat.{pow-suc}
use dealflow_radar.Common.Calendar.{hour, day}
use dealflow_radar.Watch.Data.{Policy, IsValid, Schedule, Job, interval_days}
use dealflow_radar.Watch.Outcome.{
  failure_wait, write_outcome, after_success, after_failure, newly_checked, keyed, is_newer,
  is_final, is_key, outcome_key, success, record_outcome,
}

pow-pos : (n : ℕ) → 1 ≤ 2 ^ n
pow-pos zero = omega arith
pow-pos (suc n) = omega (arith, pow-pos n, pow-suc 2 n)

scaled : (a n : ℕ) → a ≤ a * 2 ^ n
scaled a n = let h = pow-pos n in grind arith

-- The interval between checks lies between the policy's interval and its maximum, and is the former
-- while fewer runs than the policy's step were without a change.
pub interval_days_bounds :
    (p : Policy) (n : ℕ)
    → IsValid p
    → (p.interval_days ≤ interval_days p n) × (interval_days p n ≤ p.max_interval_days)
unfolding interval_days
interval_days_bounds p n v =
    let h = scaled p.interval_days (min (n / p.no_change_backoff_after) 8) in
    (omega arith, omega arith)

failure_wait_bounds :
    (p : Policy) (n : ℕ)
    → IsValid p
    → (min p.cooldown_hours (p.failure_backoff_max_days * 24) ≤ failure_wait p n)
      × (failure_wait p n ≤ p.failure_backoff_max_days * 24)
unfolding failure_wait
failure_wait_bounds p n v =
    let h = scaled p.cooldown_hours (min (n - 1) 10) in (omega arith, omega arith)

-- The schedule after a failure: one failure more, and the next check, which is also the end of the
-- cooldown, is at least the cooldown and at most the maximal backoff away.
abbrev pub Backed : Policy → ℕ → Schedule → Schedule → Type 0
Backed p now s s' =
    (s'.consecutive_failures ≡ s.consecutive_failures + 1)
    × (s'.cooldown_until ≡ some s'.next_check_at)
    × (now + min p.cooldown_hours (p.failure_backoff_max_days * 24) * hour ≤ s'.next_check_at)
    × (s'.next_check_at ≤ now + p.failure_backoff_max_days * 24 * hour)

-- The schedule after a success that was checked at `t`: no failures, and the next check is after the
-- cooldown and one interval at least after `t`, and no later than the cooldown and the maximal interval.
abbrev pub Renewed : Policy → ℕ → ℕ → Schedule → Type 0
Renewed p now t s' =
    (s'.consecutive_failures ≡ 0)
    × (now + p.cooldown_hours * hour ≤ s'.next_check_at)
    × (t + p.interval_days * day ≤ s'.next_check_at)
    × (s'.next_check_at ≤ max (now + p.cooldown_hours * hour) (t + p.max_interval_days * day))

failure_lem :
    (p : Policy) (now : ℕ) (j : Job) (s : Schedule)
    → IsValid p
    → Backed p now s (after_failure p now j (keyed p now j s))
unfolding after_failure keyed
failure_lem p now j s v =
    let b = failure_wait_bounds p (s.consecutive_failures + 1) v in
    (refl, refl, omega (arith, b.0), omega (arith, b.1))

success_lem :
    (p : Policy) (now t : ℕ) (s : Schedule) → IsValid p → Renewed p now t (after_success p now t s)
unfolding after_success
success_lem p now t s v =
    let b = interval_days_bounds p s.consecutive_no_change_runs v in
    (refl, omega arith, omega (arith, b.0), omega (arith, b.1))

-- Recording the outcome of a job that has ended, once per outcome: an unsuccessful job counts a
-- failure and backs off within the policy's bounds; a successful one, checked at `t`, clears the
-- failures and sets the next check within the policy's intervals and after the cooldown.
pub record_outcome_waits :
    (p : Policy) (now : ℕ) (after : String) (j : Job) (s : Schedule)
    → IsValid p
    → is_final j.status ≡ true
    → is_key (outcome_key j) s.last_outcome_key ≡ false
    → ((success j ≡ none) × Backed p now s (record_outcome p now after j s).0)
      ⊎ ((t : ℕ) × (success j ≡ some t) × Renewed p now t (record_outcome p now after j s).0)
unfolding record_outcome write_outcome
record_outcome_waits p now after j s v f k = elim (Option-cases (success j)) [
  | inl e ↦ rw (f, k, e) (inl (refl, failure_lem p now j s v))
  | inr (t, e) ↦ elim (Bool-cases (is_newer t s.last_successful_check_at)) [
    | inl n ↦
        rw (f, k, e)
          (rw n (inr (t, refl, success_lem p now t (newly_checked t after j (keyed p now j s)) v)))
    | inr n ↦ rw (f, k, e) (rw n (inr (t, refl, success_lem p now t (keyed p now j s) v)))
  ]
]
