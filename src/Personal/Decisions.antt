-- ===== src/Personal/Decisions.antt =====
-- Decisions on quota increases and the limits of users (backend/app/personal_features.py).
use dealflow_radar.Common.{ℕ, ◌+◌, ◌≡◌, String, if◌then◌else◌, err}
use dealflow_radar.Personal.Data.{Policy, QuotaIncrease, Db, User, transition}
use dealflow_radar.Personal.Usage.{is_effective, daily_limit, monthly_limit}
use dealflow_radar.Personal.Increases.{Decision, decide_quota_increase}

-- What a decision changes, and that it is final.
abbrev pub Settled :
    Policy → ℕ → ℕ → ℕ → User → Decision → String → ℕ → Db → QuotaIncrease × Db → Type 0
Settled p who t k user d reason now db (q, db') =
    (daily_limit p who t db'
      ≡ daily_limit p who t db + (if is_effective who t q then q.approved_daily_extra else 0))
    × (monthly_limit p who t db'
        ≡ monthly_limit p who t db + (if is_effective who t q then q.approved_monthly_extra else 0))
    × (decide_quota_increase user k d reason now db'
        ≡ err (transition "quota request is already closed"))
