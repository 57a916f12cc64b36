-- ===== src/Examples/People.antt =====
-- A user who asks for a refresh, cancels it, and gets a higher quota.
use dealflow_radar.Common.{
  ◌*◌, ◌≡◌, refl, ◌⊎◌, none, some, Bool, true, false, [], ◌∷◌, ok, count, keep, pick, find_by,
}
use dealflow_radar.Common.Calendar.{day, hour}
use dealflow_radar.Personal.Data.{
  Policy, Zone, Db, User, QuotaIncrease, awaiting, refresh, research_queued, CompanyRequest,
  company_request, is_cancellable, is_active_request,
}
use dealflow_radar.Personal.Usage.{
  daily_request_count, daily_limit, monthly_limit, record_usage, usage_count, daily_extras,
  monthly_extras, add_usage, new_usage, is_effective, is_approved,
}
use dealflow_radar.Personal.Requests.{
  Target, create_company_request, create_found, create_new, recent_request, reusable, new_request,
  add_request, cancel_company_request, mine, find_request, cancel_found, write_cancel, cancel_pair,
  asked, job_of, is_cancelled,
}
use dealflow_radar.Personal.Increases.{Decision, approve, decided_increase}
use dealflow_radar.Personal.Limits.{IsReuse, IsNew, create_company_request_lem}
use dealflow_radar.Personal.Cancel.{Cancelled, cancel_company_request_lem}

abbrev pub policy : Policy
policy = record {
  monthly_search_limit = 100;
  watchlist_company_limit = 20;
  monthly_report_limit = 10;
  daily_request_limit = 1;
  monthly_request_limit = 30;
  request_cooldown_hours = 24;
}

abbrev zone : Zone
zone = record { month_key = λ t. 1; day_start = λ t. 0; day_end = λ t. day }

abbrev pub user : User
user = record { id = 2; is_active = true; is_platform_admin = true }

abbrev target : Target
target = record {
  request_type = refresh;
  company_id = some 5;
  requested_name = some "n";
  requested_credit_code = none;
  target_key = "company:5";
  initial_status = research_queued;
}

abbrev waiting_increase : QuotaIncrease
waiting_increase = record {
  id = 8;
  owner_user_id = 2;
  requested_daily_extra = 2;
  requested_monthly_extra = 5;
  request_reason = "more";
  status = awaiting;
  approved_daily_extra = 0;
  approved_monthly_extra = 0;
  effective_until = none;
  reviewed_by_id = none;
  reviewed_at = none;
  decision_reason = none;
}

abbrev empty : Db
empty = record { requests = []; usage = []; increases = waiting_increase ∷ []; jobs = [] }

abbrev asked_for : CompanyRequest × Bool × Db
asked_for = (
  new_request user target 11 hour,
  false,
  add_usage (new_usage zone user company_request (some 11) 11 hour)
      (add_request (new_request user target 11 hour) empty),
)

creates : create_company_request zone policy user target 11 hour empty ≡ ok asked_for
unfolding create_company_request create_found create_new recent_request reusable record_usage
    usage_count daily_request_count daily_limit monthly_limit pick count daily_extras keep
    is_effective is_approved add_request monthly_extras
creates = refl

create_company_request_lem_example :
    IsReuse policy user target hour empty asked_for ⊎ IsNew zone policy user hour empty asked_for
create_company_request_lem_example =
    create_company_request_lem zone policy user target 11 hour empty asked_for creates

abbrev after_request : Db
after_request = asked_for.2

abbrev cancelled_request : CompanyRequest × Bool × Db
cancelled_request =
    write_cancel (2 * hour) user
      (cancel_pair (2 * hour) after_request
        (asked (2 * hour) none (new_request user target 11 hour)) none research_queued)
      after_request

cancels : cancel_company_request user 11 none (2 * hour) after_request ≡ ok cancelled_request
unfolding cancel_company_request cancel_found mine find_request new_request add_request add_usage
    job_of is_cancelled is_cancellable is_active_request find_by
cancels = refl

cancel_company_request_lem_example :
    (r : CompanyRequest) × (mine user.id (find_request 11 after_request) ≡ some r)
    × Cancelled user (2 * hour) after_request r cancelled_request
cancel_company_request_lem_example =
    cancel_company_request_lem user 11 none (2 * hour) after_request cancelled_request
      (unfold add_usage add_request in (tt, tt)) cancels

abbrev decision : Decision
decision = approve 2 5 (some (10 * day))

abbrev decided : QuotaIncrease × Db
decided = (
  decided_increase decision user "yes" hour waiting_increase,
  record empty { increases = decided_increase decision user "yes" hour waiting_increase ∷ [] },
)
