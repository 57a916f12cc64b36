-- ===== src/Refresh/Order.antt =====
-- The job that `_lease_next_job` of backend/app/worker.py takes.
use dealflow_radar.Common.{ℕ, ◌≤◌, ◌<◌, ◌≡◌, ◌⊎◌, none, some, false}
use dealflow_radar.Refresh.Jobs.{RefreshJob, queued, running, is_candidate}

-- A job that cannot be leased, or that does not come before the other.
abbrev pub IsBehind : ℕ → ℕ → RefreshJob → RefreshJob → Type 0
IsBehind tenant now y x =
    (is_candidate tenant now x ≡ false)
    ⊎ ((x.priority < y.priority) ⊎ ((x.priority ≡ y.priority) × (y.created_at ≤ x.created_at)))

-- A mock refresh job of the tenant that is queued, or running without a lease or under one that has
-- ended.
abbrev pub IsOpen : ℕ → ℕ → RefreshJob → Type 0
IsOpen tenant now j =
    (j.tenant_id ≡ tenant)
    × (j.job_type ≡ "mock_refresh")
    × ((j.status ≡ queued)
        ⊎ ((j.status ≡ running)
            × ((j.leased_until ≡ none) ⊎ ((t : ℕ) × (j.leased_until ≡ some t) × (t ≤ now)))))
