-- ===== src/Personal/Data.antt =====
-- The tables of a person's requests: `PersonalCompanyRequest`, `PersonalUsageRecord`,
-- `PersonalQuotaIncreaseRequest` and the `CompanyResearchJob` behind a request.
use dealflow_radar.Common.{ℕ, String, Option, Bool, true, false, List}
use dealflow_radar.Budget.Reconcile.{JobStatus}

-- `PersonalEntitlementPolicy`
pub record Policy : Type 0 where
  pub monthly_search_limit : ℕ
  pub watchlist_company_limit : ℕ
  pub monthly_report_limit : ℕ
  pub daily_request_limit : ℕ
  pub monthly_request_limit : ℕ
  pub request_cooldown_hours : ℕ

-- The calendar of Asia/Shanghai, which the time zone database gives: the key of an instant's month,
-- and the first instants of its day and of the next.
pub record Zone : Type 0 where
  pub month_key : ℕ → ℕ
  pub day_start : ℕ → ℕ
  pub day_end : ℕ → ℕ

pub data Operation : Type 0 where
  company_search company_request company_report : Operation

pub data RequestType : Type 0 where
  inclusion refresh : RequestType

pub data RequestStatus : Type 0 where
  pending in_review identity_queued identity_checking awaiting_confirmation needs_input :
      RequestStatus
  research_queued researching partial budget_deferred : RequestStatus
  cancel_requested cancelled completed rejected failed : RequestStatus

pub record CompanyRequest : Type 0 where
  pub id : ℕ
  pub owner_user_id : ℕ
  pub request_type : RequestType
  pub company_id : Option ℕ
  pub requested_name : Option String
  pub requested_credit_code : Option String
  pub target_key : String
  pub status : RequestStatus
  pub research_job_id : Option ℕ
  pub external_calls : ℕ
  pub cancel_requested_at : Option ℕ
  pub cancelled_at : Option ℕ
  pub cancellation_stage : Option RequestStatus
  pub cancellation_reason : Option String
  pub leased_until : Option ℕ
  pub heartbeat_at : Option ℕ
  pub last_error_code : Option String
  pub reviewed_by_id : Option ℕ
  pub reviewed_at : Option ℕ
  pub decision_reason : Option String
  pub resolved_legal_name : Option String
  pub resolved_credit_code : Option String
  pub resolved_registered_region : Option String
  pub identity_checked_at : Option ℕ
  pub confirmed_at : Option ℕ
  pub created_at : ℕ

pub record UsageRecord : Type 0 where
  pub id : ℕ
  pub owner_user_id : ℕ
  pub operation : Operation
  pub period_key : ℕ
  pub resource_id : Option ℕ
  pub voided_at : Option ℕ
  pub void_reason : Option String
  pub created_at : ℕ

pub data IncreaseStatus : Type 0 where
  awaiting approved denied expired : IncreaseStatus

-- `PersonalQuotaIncreaseRequest`; `awaiting` is its "pending" and `denied` its "rejected".
pub record QuotaIncrease : Type 0 where
  pub id : ℕ
  pub owner_user_id : ℕ
  pub requested_daily_extra : ℕ
  pub requested_monthly_extra : ℕ
  pub request_reason : String
  pub status : IncreaseStatus
  pub approved_daily_extra : ℕ
  pub approved_monthly_extra : ℕ
  pub effective_until : Option ℕ
  pub reviewed_by_id : Option ℕ
  pub reviewed_at : Option ℕ
  pub decision_reason : Option String

-- `CompanyResearchJob`, as far as a cancellation reads and writes it.
pub record Job : Type 0 where
  pub id : ℕ
  pub status : JobStatus
  pub current_stage : String
  pub external_calls : ℕ
  pub cancel_requested_at : Option ℕ
  pub cancelled_at : Option ℕ
  pub leased_until : Option ℕ
  pub heartbeat_at : Option ℕ

pub record Db : Type 0 where
  pub requests : List CompanyRequest
  pub usage : List UsageRecord
  pub increases : List QuotaIncrease
  pub jobs : List Job

pub record User : Type 0 where
  pub id : ℕ
  pub is_active : Bool
  pub is_platform_admin : Bool

pub data Error : Type 0 where
  access : Error
  not_found : Error
  transition : String → Error
  limit_reached : String → ℕ → Error
  conflict : String → Error

-- `_ACTIVE_REQUEST_STATUSES`
unfoldable pub is_active_request : RequestStatus → Bool
is_active_request needs_input = false
is_active_request cancelled = false
is_active_request completed = false
is_active_request rejected = false
is_active_request failed = false
is_active_request _ = true

-- `_CANCELLABLE_REQUEST_STATUSES`
unfoldable pub is_cancellable : RequestStatus → Bool
unfolding is_active_request
is_cancellable needs_input = true
is_cancellable s = is_active_request s

abbrev pub same_operation : Operation → Operation → Bool
same_operation company_search company_search = true
same_operation company_request company_request = true
same_operation company_report company_report = true
same_operation _ _ = false
