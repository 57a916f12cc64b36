-- ===== src/Personal/Usage.antt =====
-- `_usage_count`, `_daily_request_count`, `_active_quota_extras`, `_effective_request_limits` and
-- `_record_usage`. An operation that raises leaves the tables as they were.
use dealflow_radar.Common.{
  ℕ, ◌+◌, ◌-◌, String, Option, none, some, Bool, true, false, ◌&&◌, List, [], ◌∷◌, ◌++◌, ◌==◌, leb,
  ltb, Result, ok, ◌>>◌, guard, count, keep, is_none,
}
use dealflow_radar.Personal.Data.{
  Policy, Zone, Operation, company_search, company_request, company_report, UsageRecord,
  QuotaIncrease, IncreaseStatus, approved, awaiting, denied, expired, Db, User, Error, access,
  limit_reached, same_operation,
}

-- A usage record of a user's operation in a period that is not voided.
unfoldable pub counts_in : ℕ → Operation → ℕ → UsageRecord → Bool
counts_in user op period u =
    u.owner_user_id == user
    && same_operation u.operation op
    && u.period_key == period
    && is_none u.voided_at

-- `_usage_count`
unfoldable pub usage_count : ℕ → Operation → ℕ → Db → ℕ
usage_count user op period db = count (counts_in user op period) db.usage

-- Voided records count for the day.
unfoldable pub counts_today : Zone → ℕ → ℕ → UsageRecord → Bool
counts_today z user now u =
    u.owner_user_id == user
    && same_operation u.operation company_request
    && leb (z.day_start now) u.created_at
    && ltb u.created_at (z.day_end now)

-- `_daily_request_count`
unfoldable pub daily_request_count : Zone → ℕ → ℕ → Db → ℕ
daily_request_count z user now db = count (counts_today z user now) db.usage

unfoldable pub is_approved : IncreaseStatus → Bool
is_approved approved = true
is_approved awaiting = false
is_approved denied = false
is_approved expired = false

unfoldable pub is_later : ℕ → Option ℕ → Bool
is_later now none = false
is_later now (some t) = ltb now t

unfoldable pub is_effective : ℕ → ℕ → QuotaIncrease → Bool
is_effective user now q =
    q.owner_user_id == user && is_approved q.status && is_later now q.effective_until

unfoldable pub daily_extras : List QuotaIncrease → ℕ
daily_extras [] = 0
daily_extras (q ∷ qs) = q.approved_daily_extra + daily_extras qs

unfoldable pub monthly_extras : List QuotaIncrease → ℕ
monthly_extras [] = 0
monthly_extras (q ∷ qs) = q.approved_monthly_extra + monthly_extras qs

-- `_effective_request_limits`, the daily one
unfoldable pub daily_limit : Policy → ℕ → ℕ → Db → ℕ
daily_limit p user now db =
    p.daily_request_limit + daily_extras (keep (is_effective user now) db.increases)

-- and the monthly one
unfoldable pub monthly_limit : Policy → ℕ → ℕ → Db → ℕ
monthly_limit p user now db =
    p.monthly_request_limit + monthly_extras (keep (is_effective user now) db.increases)

unfoldable pub new_usage : Zone → User → Operation → Option ℕ → ℕ → ℕ → UsageRecord
new_usage z user op resource id now = record {
  id = id;
  owner_user_id = user.id;
  operation = op;
  period_key = z.month_key now;
  resource_id = resource;
  voided_at = none;
  void_reason = none;
  created_at = now;
}

unfoldable pub add_usage : UsageRecord → Db → Db
add_usage u db = record db { usage = db.usage ++ u ∷ [] }

-- `_record_usage`
unfoldable pub record_usage :
    Zone → User → Operation → String → ℕ → Option ℕ → ℕ → ℕ → Db → Result Error Db
record_usage z user op name limit resource id now db = do
  guard user.is_active access
  guard (ltb (usage_count user.id op (z.month_key now) db) limit) (limit_reached name limit)
  ok (add_usage (new_usage z user op resource id now) db)

-- `record_company_search`
unfoldable pub record_company_search : Zone → Policy → User → ℕ → ℕ → Db → Result Error Db
record_company_search z p user id now db =
    record_usage z user company_search "company_search" p.monthly_search_limit none id now db

-- `ensure_company_search_available`
unfoldable pub ensure_company_search_available :
    Zone → Policy → User → ℕ → Db → Result Error (Unit {0})
ensure_company_search_available z p user now db =
    guard (ltb (usage_count user.id company_search (z.month_key now) db) p.monthly_search_limit)
      (limit_reached "company_search" p.monthly_search_limit)

-- `PersonalQuotaOut`
pub record Quota : Type 0 where
  pub used : ℕ
  pub limit : ℕ
  pub remaining : ℕ

unfoldable pub quota : ℕ → ℕ → Quota
quota used limit = record { used = used; limit = limit; remaining = limit - used }

-- `PersonalUsageSummaryOut`, without the watchlist and the periods' names.
pub record UsageSummary : Type 0 where
  pub searches : Quota
  pub reports : Quota
  pub daily_company_requests : Quota
  pub company_requests : Quota

-- `get_personal_usage_summary`
unfoldable pub usage_summary : Zone → Policy → User → ℕ → Db → UsageSummary
usage_summary z p user now db = record {
  searches = quota (usage_count user.id company_search (z.month_key now) db) p.monthly_search_limit;
  reports = quota (usage_count user.id company_report (z.month_key now) db) p.monthly_report_limit;
  daily_company_requests =
      quota (daily_request_count z user.id now db) (daily_limit p user.id now db);
  company_requests =
      quota (usage_count user.id company_request (z.month_key now) db)
        (monthly_limit p user.id now db);
}
