-- ===== src/Examples/Approvals.antt =====
-- A request to include a company, which an administrator approves for research.
use dealflow_radar.Common.{◌≡◌, refl, some, none, true, [], ◌∷◌, ok, find_by, pick, prefer}
use dealflow_radar.Personal.Data.{CompanyRequest, inclusion, in_review, Db}
use dealflow_radar.Personal.Catalog.{Company, is_public}
use dealflow_radar.Personal.Requests.{find_request}
use dealflow_radar.Personal.Review.{
  Names, is_waiting, is_inclusion, needs_request, is_approvable, first_company, company_for,
  needs_company, name_matches, approved, store_request, approve_for_research, or_id,
}
use dealflow_radar.Personal.Approvals.{Approved, approve_for_research_lem}
use dealflow_radar.Examples.People.{user}
use dealflow_radar.Examples.Followers.{company, catalog}

abbrev names : Names
names = record { normalized = λ n. n; is_credit_code = λ c. true; company_key = λ k. "company:5" }

abbrev request : CompanyRequest
request = record {
  id = 11;
  owner_user_id = 3;
  request_type = inclusion;
  company_id = none;
  requested_name = some "n";
  requested_credit_code = some "c";
  target_key = "credit:c";
  status = in_review;
  research_job_id = none;
  external_calls = 0;
  cancel_requested_at = none;
  cancelled_at = none;
  cancellation_stage = none;
  cancellation_reason = none;
  leased_until = none;
  heartbeat_at = none;
  last_error_code = none;
  reviewed_by_id = none;
  reviewed_at = none;
  decision_reason = none;
  resolved_legal_name = none;
  resolved_credit_code = none;
  resolved_registered_region = none;
  identity_checked_at = none;
  confirmed_at = none;
  created_at = 0;
}

abbrev tables : Db
tables = record { requests = request ∷ []; usage = []; increases = []; jobs = [] }

approves :
    approve_for_research names catalog user 11 none "known" 50 tables
    ≡ ok (
      approved user 50 "known" company request,
      store_request (approved user 50 "known" company request) tables,
    )
unfolding approve_for_research needs_request find_request find_by is_inclusion is_waiting
    company_for or_id first_company is_approvable is_public pick prefer needs_company name_matches
approves = refl

approve_for_research_lem_example :
    (true ≡ true)
    × ((r : CompanyRequest) × (find_request 11 tables ≡ some r)
        × (is_inclusion r.request_type ≡ true)
        × (is_waiting r.status ≡ true)
        × ((c : Company) × Approved names catalog none tables r c
              (approved user 50 "known" company request)
              (store_request (approved user 50 "known" company request) tables)))
approve_for_research_lem_example =
    approve_for_research_lem names catalog user 11 none "known" 50 tables
      (store_request (approved user 50 "known" company request) tables)
      (approved user 50 "known" company request) approves
