-- ===== src/Personal/Catalog.antt =====
-- The shared catalog of companies: `_shared_company`, `_freshness_status`, and the lookups of
-- `create_inclusion_request` and of an approval.
use dealflow_radar.Common.{
  ℕ, ◌+◌, ◌*◌, String, Option, none, some, Bool, false, ◌&&◌, ◌||◌, List, any, ◌==◌, leb, is_none,
  same_text, if◌then◌else◌, pick,
}
use dealflow_radar.Common.Calendar.{day}

-- `Company`
pub record Company : Type 0 where
  pub id : ℕ
  pub tenant_id : Option ℕ
  pub visibility_scope : String
  pub identity_status : String
  pub legal_name : String
  pub credit_code : Option String
  pub registered_region : Option String
  pub last_identity_checked_at : Option ℕ

-- `CompanyAlias`
pub record Alias : Type 0 where
  pub company_id : ℕ
  pub normalized_alias : String
  pub visibility_scope : String
  pub owner_user_id : Option ℕ
  pub owner_tenant_id : Option ℕ
  pub verification_status : String

-- `CompanySnapshot`
pub record Snapshot : Type 0 where
  pub company_id : ℕ
  pub is_current : Bool
  pub visibility_scope : String
  pub owner_user_id : Option ℕ
  pub owner_tenant_id : Option ℕ
  pub freshness_status : String
  pub last_checked_at : Option ℕ

pub record Catalog : Type 0 where
  pub companies : List Company
  pub aliases : List Alias
  pub snapshots : List Snapshot

unfoldable pub is_public : Company → Bool
is_public c =
    is_none c.tenant_id
    && same_text c.visibility_scope "public"
    && same_text c.identity_status "verified"

-- `_shared_company`
unfoldable pub shared_company : ℕ → Catalog → Option Company
shared_company k c = pick (λ x. x.id == k && is_public x) (λ x y. false) c.companies

unfoldable pub is_shared_alias : Alias → Bool
is_shared_alias a =
    same_text a.visibility_scope "platform_shared"
    && is_none a.owner_user_id
    && is_none a.owner_tenant_id
    && same_text a.verification_status "verified"

-- A verified alias of the company that is shared.
unfoldable pub has_alias : String → ℕ → List Alias → Bool
has_alias name k aliases =
    any (λ a. a.company_id == k && is_shared_alias a && same_text a.normalized_alias name) aliases

unfoldable pub is_shared_snapshot : ℕ → Snapshot → Bool
is_shared_snapshot k s =
    s.company_id == k
    && s.is_current
    && same_text s.visibility_scope "platform_shared"
    && is_none s.owner_user_id
    && is_none s.owner_tenant_id

unfoldable pub shared_snapshot : ℕ → Catalog → Option Snapshot
shared_snapshot k c = pick (is_shared_snapshot k) (λ x y. false) c.snapshots

unfoldable pub is_stale : ℕ → ℕ → ℕ → Bool
is_stale ttl_days now checked_at = leb (checked_at + ttl_days * day) now

-- `_freshness_status`; `ttl_days` is `policy.recent_query_ttl_days`.
unfoldable pub freshness_status : Option Snapshot → ℕ → ℕ → String
freshness_status none ttl_days now = "unknown"
freshness_status (some s) ttl_days now = elim s.last_checked_at [
  | none ↦ "unknown"
  | some t ↦
      if same_text s.freshness_status "unknown" || same_text s.freshness_status "budget_deferred"
      then s.freshness_status
      else if is_stale ttl_days now t
      then "stale"
      else "fresh"
]
