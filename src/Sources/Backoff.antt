-- ===== src/Sources/Backoff.antt =====
-- When a source is checked again (backend/app/source_monitoring.py).
use dealflow_radar.Common.{ℕ, zero, suc, ◌+◌, ◌*◌, ◌^◌, ◌≤◌, ◌≡◌, refl, min, arith, arith}
use native.Mathlib.Nat.{pow-suc}
use dealflow_radar.Common.Calendar.{minute}
use dealflow_radar.Sources.Data.{Source, Policy}
use dealflow_radar.Sources.Schedule.{due_after, source_due_at}
use dealflow_radar.Sources.Fetch.{Batch, checked_source}
use dealflow_radar.Sources.Worker.{FetchError, failed_source}

pow-pos : (n : ℕ) → 1 ≤ 2 ^ n
pow-pos zero = omega arith
pow-pos (suc n) = omega (arith, pow-pos n, pow-suc 2 n)

min_pos : (n m : ℕ) → 1 ≤ m → 1 ≤ min (2 ^ (n + 1)) m
min_pos n m h = let q = pow-pos (n + 1) in omega arith

first_wait : (f now m : ℕ) → 1 ≤ m → now + f * min (2 ^ 0) m * minute ≡ now + f * minute
first_wait f now m h = let e : min (2 ^ 0) m ≡ 1 = omega arith in rw e (omega arith)

scaled_bounds :
    (f x m : ℕ)
    → 1 ≤ x
    → x ≤ m
    → (f * 1 * minute ≤ f * x * minute) × (f * x * minute ≤ f * m * minute)
scaled_bounds f x m lo hi = (grind arith, grind arith)

-- After a successful check the next one is due one period later; after a failed one the period is
-- multiplied by the doubled factor, never above the policy's maximum and never below one period.
-- The maximum is positive.
pub backoff_bounds :
    (p : Policy) (s : Source) (b : Batch) (e : FetchError) (now : ℕ)
    → 1 ≤ p.failure_backoff_max_multiplier
    → (source_due_at p (checked_source now b s) ≡ now + s.check_frequency_minutes * minute)
      × (now + s.check_frequency_minutes * minute ≤ source_due_at p (failed_source e now s))
      × (source_due_at p (failed_source e now s)
          ≤ now + s.check_frequency_minutes * p.failure_backoff_max_multiplier * minute)
      × (source_due_at p (failed_source e now s)
          ≡ now
            + s.check_frequency_minutes
              * min (2 ^ (s.consecutive_failures + 1)) p.failure_backoff_max_multiplier
              * minute)
unfolding source_due_at due_after checked_source failed_source
backoff_bounds p s b e now h =
    let factor = min (2 ^ (s.consecutive_failures + 1)) p.failure_backoff_max_multiplier in
    let next : source_due_at p (checked_source now b s) ≡ now + s.check_frequency_minutes * minute =
      first_wait s.check_frequency_minutes now p.failure_backoff_max_multiplier h in
    let bounds =
      scaled_bounds s.check_frequency_minutes factor p.failure_backoff_max_multiplier
        (min_pos s.consecutive_failures p.failure_backoff_max_multiplier h) (omega arith) in
    (next, omega (arith, bounds.0), omega (arith, bounds.1), refl)
