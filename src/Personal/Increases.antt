-- ===== src/Personal/Increases.antt =====
-- `create_quota_increase_request` and `decide_platform_quota_increase_request`, and what is shown of
-- an increase. The texts come stripped.
use dealflow_radar.Common.{
  ℕ, String, Option, none, some, Bool, true, false, ◌&&◌, [], ◌∷◌, ◌++◌, ◌==◌, leb, if◌then◌else◌,
  Result, ok, err, ◌>>◌, guard, pick, find_by, store_by,
}
use dealflow_radar.Personal.Data.{
  QuotaIncrease, IncreaseStatus, awaiting, approved, denied, expired, Db, User, Error, access,
  not_found, transition,
}
use dealflow_radar.Personal.Usage.{is_approved, is_later}

unfoldable pub is_awaiting : IncreaseStatus → Bool
is_awaiting awaiting = true
is_awaiting approved = false
is_awaiting denied = false
is_awaiting expired = false

abbrev pub is_awaiting_of : ℕ → QuotaIncrease → Bool
is_awaiting_of user q = q.owner_user_id == user && is_awaiting q.status

-- `_quota_increase_out`: the status that is shown.
unfoldable pub shown_increase : ℕ → QuotaIncrease → IncreaseStatus
shown_increase now q = elim q.effective_until [
  | none ↦ q.status
  | some t ↦ if is_approved q.status && leb t now then expired else q.status
]

unfoldable pub new_increase : User → ℕ → ℕ → String → ℕ → QuotaIncrease
new_increase user daily monthly reason id = record {
  id = id;
  owner_user_id = user.id;
  requested_daily_extra = daily;
  requested_monthly_extra = monthly;
  request_reason = reason;
  status = awaiting;
  approved_daily_extra = 0;
  approved_monthly_extra = 0;
  effective_until = none;
  reviewed_by_id = none;
  reviewed_at = none;
  decision_reason = none;
}

unfoldable pub increase_found :
    Option QuotaIncrease → User → ℕ → ℕ → String → ℕ → Db → QuotaIncrease × Db
increase_found (some q) user daily monthly reason id db = (q, db)
increase_found none user daily monthly reason id db = (
  new_increase user daily monthly reason id,
  record db { increases = db.increases ++ new_increase user daily monthly reason id ∷ [] },
)

-- `create_quota_increase_request`
unfoldable pub create_quota_increase :
    User → ℕ → ℕ → String → ℕ → Db → Result Error (QuotaIncrease × Db)
create_quota_increase user daily monthly reason id db =
    guard user.is_active access
    >> ok (
        increase_found (pick (is_awaiting_of user.id) (λ x y. false) db.increases) user daily
          monthly reason id db)

-- What an administrator decides.
pub data Decision : Type 0 where
  approve : ℕ → ℕ → Option ℕ → Decision
  reject : Decision

unfoldable pub decided_increase : Decision → User → String → ℕ → QuotaIncrease → QuotaIncrease
decided_increase (approve daily monthly until) user reason now q = record q {
  approved_daily_extra = daily;
  approved_monthly_extra = monthly;
  effective_until = until;
  status = approved;
  reviewed_by_id = some user.id;
  reviewed_at = some now;
  decision_reason = some reason;
}
decided_increase reject user reason now q = record q {
  approved_daily_extra = 0;
  approved_monthly_extra = 0;
  effective_until = none;
  status = denied;
  reviewed_by_id = some user.id;
  reviewed_at = some now;
  decision_reason = some reason;
}

unfoldable pub has_future : Decision → ℕ → Bool
has_future (approve daily monthly until) now = is_later now until
has_future reject now = true

unfoldable pub decide_found :
    Option QuotaIncrease → User → Decision → String → ℕ → Db → Result Error (QuotaIncrease × Db)
decide_found none user d reason now db = err not_found
decide_found (some q) user d reason now db = do
  guard (is_awaiting q.status) (transition "quota request is already closed")
  guard (has_future d now) (transition "approved quota expiry must be in the future")
  ok (
    decided_increase d user reason now q,
    record db {
      increases = store_by (λ x. x.id) (decided_increase d user reason now q) db.increases;
    },
  )

-- `decide_platform_quota_increase_request`
unfoldable pub decide_quota_increase :
    User → ℕ → Decision → String → ℕ → Db → Result Error (QuotaIncrease × Db)
decide_quota_increase user k d reason now db =
    guard user.is_platform_admin access
    >> decide_found (find_by (λ q. q.id) k db.increases) user d reason now db
