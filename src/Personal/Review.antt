-- ===== src/Personal/Review.antt =====
-- `create_inclusion_request`, `create_refresh_request`, `decide_platform_company_request` and
-- `approve_platform_company_request_for_research`. Texts come stripped, codes in capitals; the
-- normal form of a name and the check of a credit code are arguments.
use Prim.Native.String.{◌++◌ as text_append}
use dealflow_radar.Common.{
  ℕ, String, Option, none, some, Bool, true, false, not, ◌&&◌, ◌||◌, List, [], ◌∷◌, ◌==◌, is_none,
  is_text, is_given, or_else, same_text, if◌then◌else◌, Result, ok, err, ◌>>=◌, ◌>>◌, guard, pick,
  keep, store_by,
}
use dealflow_radar.Personal.Data.{
  Policy, Zone, CompanyRequest, RequestType, inclusion, refresh, RequestStatus, pending, in_review,
  completed, rejected, research_queued, Db, User, Error, access, not_found, transition, conflict,
}
use dealflow_radar.Personal.Catalog.{Company, Catalog, is_public, shared_company, has_alias}
use dealflow_radar.Personal.Requests.{Target, create_company_request, find_request}

-- `_normalized_identity_text`, `validate_unified_credit_code`, and `f"company:{company.id}"`
pub record Names : Type 0 where
  pub normalized : String → String
  pub is_credit_code : String → Bool
  pub company_key : ℕ → String

unfoldable pub is_named : Names → String → Catalog → Company → Bool
is_named n name catalog c =
    same_text c.legal_name name || has_alias (n.normalized name) c.id catalog.aliases

-- A public company that one of the given identifiers names.
unfoldable pub is_identified : Names → Option String → Option String → Catalog → Company → Bool
is_identified n name code catalog c =
    is_public c
    && (is_given code && is_text (or_else code "") c.credit_code
        || is_given name && is_named n (or_else name "") catalog c)

unfoldable pub inclusion_key : Names → Option String → Option String → String
inclusion_key n name code =
    if is_given code
    then text_append "credit:" (or_else code "")
    else text_append "name:" (n.normalized (or_else name ""))

unfoldable pub inclusion_target : Names → Option String → Option String → Target
inclusion_target n name code = record {
  request_type = inclusion;
  company_id = none;
  requested_name = name;
  requested_credit_code = code;
  target_key = inclusion_key n name code;
  initial_status = pending;
}

-- `create_inclusion_request`
unfoldable pub create_inclusion_request :
    Names
    → Catalog
    → Zone
    → Policy
    → User
    → Option String
    → Option String
    → ℕ
    → ℕ
    → Db
    → Result Error (CompanyRequest × Bool × Db)
create_inclusion_request n catalog z p user name code id now db = do
  guard (is_given name || is_given code) (conflict "company identifier required")
  guard (not (is_given code) || n.is_credit_code (or_else code ""))
      (conflict "invalid unified social credit code")
  guard (is_none (pick (is_identified n name code catalog) (λ a b. false) catalog.companies))
      (conflict "company already available")
  create_company_request z p user (inclusion_target n name code) id now db

unfoldable pub refresh_target : Names → Company → Target
refresh_target n c = record {
  request_type = refresh;
  company_id = some c.id;
  requested_name = some c.legal_name;
  requested_credit_code = c.credit_code;
  target_key = n.company_key c.id;
  initial_status = research_queued;
}

unfoldable pub refresh_found :
    Option Company
    → Names
    → Zone
    → Policy
    → User
    → ℕ
    → ℕ
    → Db
    → Result Error (CompanyRequest × Bool × Db)
refresh_found none n z p user id now db = err not_found
refresh_found (some c) n z p user id now db =
    create_company_request z p user (refresh_target n c) id now db

-- `create_refresh_request`
unfoldable pub create_refresh_request :
    Names
    → Catalog
    → Zone
    → Policy
    → User
    → ℕ
    → ℕ
    → ℕ
    → Db
    → Result Error (CompanyRequest × Bool × Db)
create_refresh_request n catalog z p user company id now db =
    refresh_found (shared_company company catalog) n z p user id now db

unfoldable pub is_closed : RequestStatus → Bool
is_closed completed = true
is_closed rejected = true
is_closed _ = false

unfoldable pub is_waiting : RequestStatus → Bool
is_waiting pending = true
is_waiting in_review = true
is_waiting _ = false

unfoldable pub needs_request : Option CompanyRequest → Result Error CompanyRequest
needs_request none = err not_found
needs_request (some r) = ok r

unfoldable pub store_request : CompanyRequest → Db → Db
store_request r db = record db { requests = store_by (λ x. x.id) r db.requests }

unfoldable pub reviewed : User → ℕ → String → CompanyRequest → CompanyRequest
reviewed user now reason r = record r {
  reviewed_by_id = some user.id;
  reviewed_at = some now;
  decision_reason = some reason;
}

-- `decide_platform_company_request`; `status` is the new status.
unfoldable pub decide_platform_company_request :
    User → ℕ → RequestStatus → String → ℕ → Db → Result Error (CompanyRequest × Db)
decide_platform_company_request user k status reason now db = do
  guard user.is_platform_admin access
  r ← needs_request (find_request k db)
  guard (not (is_closed r.status)) (transition "request already closed")
  guard (is_waiting r.status)
      (transition "active research requests cannot be closed through the manual review endpoint")
  guard (not (is_text "existing_private_company_requires_admin" r.last_error_code))
      (transition "private company collision requires a dedicated catalog decision")
  (let s = record (reviewed user now reason r) { status = status } in ok (s, store_request s db))

-- `shared_company_conditions`
unfoldable pub is_approvable : Company → Bool
is_approvable c = is_public c && not (is_none c.credit_code)

unfoldable pub is_inclusion : RequestType → Bool
is_inclusion inclusion = true
is_inclusion refresh = false

unfoldable pub or_id : Option ℕ → Option ℕ → Option ℕ
or_id none b = b
or_id (some a) b = some a

unfoldable pub first_company : (Company → Bool) → Catalog → Option Company
first_company p catalog = pick (λ c. p c && is_approvable c) (λ a b. false) catalog.companies

-- The one company of a name.
unfoldable pub only_company : List Company → Result Error (Option Company)
only_company [] = ok none
only_company (c ∷ []) = ok (some c)
only_company (c ∷ d ∷ cs) = err (transition "requested identity matches multiple companies")

-- The company that an approval is for.
unfoldable pub company_for :
    Names → Catalog → Option ℕ → CompanyRequest → Result Error (Option Company)
company_for n catalog (some k) r = ok (first_company (λ c. c.id == k) catalog)
company_for n catalog none r =
    if is_given r.requested_credit_code
    then ok
        (first_company (λ c. is_text (or_else r.requested_credit_code "") c.credit_code) catalog)
    else if is_given r.requested_name
    then only_company (
        keep (λ c. is_approvable c && is_named n (or_else r.requested_name "") catalog c)
          catalog.companies)
    else ok none

unfoldable pub needs_company : Option Company → Result Error Company
needs_company none =
    err (transition "research requires a verified company in the platform shared catalog")
needs_company (some c) = ok c

unfoldable pub name_matches : Names → Catalog → String → Company → Bool
name_matches n catalog name c =
    same_text (n.normalized name) (n.normalized c.legal_name)
    || has_alias (n.normalized name) c.id catalog.aliases

unfoldable pub approved : User → ℕ → String → Company → CompanyRequest → CompanyRequest
approved user now reason c r = record (reviewed user now reason r) {
  company_id = some c.id;
  resolved_legal_name = some c.legal_name;
  resolved_credit_code = c.credit_code;
  resolved_registered_region = c.registered_region;
  identity_checked_at = c.last_identity_checked_at;
  confirmed_at = some now;
  status = research_queued;
  last_error_code = none;
}

-- `approve_platform_company_request_for_research`
unfoldable pub approve_for_research :
    Names → Catalog → User → ℕ → Option ℕ → String → ℕ → Db → Result Error (CompanyRequest × Db)
approve_for_research n catalog user k company reason now db = do
  guard user.is_platform_admin access
  r ← needs_request (find_request k db)
  guard (is_inclusion r.request_type && is_waiting r.status)
      (transition "only pending inclusion requests can be approved")
  found ← company_for n catalog (or_id company r.company_id) r
  c ← needs_company found
  guard
      (not (is_given r.requested_credit_code)
        || is_text (or_else r.requested_credit_code "") c.credit_code)
      (transition "requested credit code does not match the company")
  guard (not (is_given r.requested_name) || name_matches n catalog (or_else r.requested_name "") c)
      (transition "requested name does not match the company")
  (let s = approved user now reason c r in ok (s, store_request s db))
