-- ===== src/Evidence/Permissions.antt =====
-- `report_evidence_is_demo`, `report_evidence_permission` and `report_lead_permission` of
-- backend/app/report_permissions.py, with `_evidence_detail_schema` of backend/app/services.py.
use text.Mathlib.Text.{starts_with}
use dealflow_radar.Common.{
  ℕ, String, Option, none, some, Bool, true, false, not, ◌&&◌, ◌||◌, any, is_none, is_text,
  is_given, is_number, same_text, if◌then◌else◌,
}
use dealflow_radar.Evidence.Data.{
  Ownership, Field, not_dict, field, Listed, not_list, listed, RecordFields, Records, Detail,
  Evidence, Event, Document, Source, Session, Env, get_document, get_source,
}

-- `_shared`, of a row that is there
unfoldable pub is_shared : Ownership → Bool
is_shared o =
    same_text o.visibility_scope "platform_shared"
    && is_none o.owner_user_id
    && is_none o.owner_tenant_id

unfoldable pub document_of : Session → Evidence → Option Document
document_of s e = elim e.raw_document_id [ none ↦ none | some k ↦ get_document k s ]

-- `_document_source`: the document with its source.
unfoldable pub source_of : Session → Option Document → Option Source
source_of s none = none
source_of s (some d) = get_source d.source_id s

unfoldable pub is_valid_field : Env → Field → Bool
is_valid_field x not_dict = true
is_valid_field x (field label value) = x.is_field label value

unfoldable pub are_valid : Env → Listed → Bool
are_valid x not_list = false
are_valid x (listed fs) = not (any (λ f. not (is_valid_field x f)) fs)

unfoldable pub is_valid_record : Env → RecordFields → Bool
is_valid_record x none = true
is_valid_record x (some fs) = are_valid x fs

unfoldable pub are_valid_records : Env → Records → Bool
are_valid_records x none = false
are_valid_records x (some rs) = not (any (λ r. not (is_valid_record x r)) rs)

-- `isinstance(value, str) and bool(value.strip())`
unfoldable pub has_words : Env → Option String → Bool
has_words x none = false
has_words x (some t) = not (same_text (x.strip t) "")

unfoldable pub detail_schema : Env → Option String → Detail → Option String
detail_schema x license d =
    if is_text "licensed-structured-evidence-v1" d.schema_version
    then (if are_valid x d.summary_fields && are_valid_records x d.records
        then d.schema_version
        else none)
    else if is_text "demo-evidence-v1" d.schema_version
        && is_text "synthetic_demo" license
        && d.is_synthetic_demo
        && has_words x d.before
        && has_words x d.after
    then d.schema_version
    else none

-- `_evidence_detail_schema`
unfoldable pub evidence_detail_schema : Env → Option Detail → Option String → Option String
evidence_detail_schema x none license = none
evidence_detail_schema x (some d) license = detail_schema x license d

-- `license_status in {None, ...}`
unfoldable pub is_none_or : String → Option String → Bool
is_none_or t none = true
is_none_or t (some s) = same_text s t

-- The document of an evidence and its source are of the demonstration, the document shared.
unfoldable pub is_demo_chain : Option Document → Option Source → Bool
is_demo_chain none r = false
is_demo_chain (some d) none = false
is_demo_chain (some d) (some r) =
    is_shared d.ownership
    && same_text d.license_status "synthetic_demo"
    && same_text r.license_status "synthetic_demo"

unfoldable pub report_evidence_is_demo : Session → Evidence → Bool
report_evidence_is_demo s e =
    let d = document_of s e in
    is_shared e.ownership
    && is_demo_chain d (source_of s d)
    && is_none_or "synthetic_demo" e.display_license_status

unfoldable pub is_licensed : String → Bool
is_licensed t = same_text t "public" || same_text t "permission_confirmed"

unfoldable pub is_licensed_option : Option String → Bool
is_licensed_option none = false
is_licensed_option (some t) = is_licensed t

-- The document and the source of evidence without a licence of its own.
unfoldable pub is_legacy_chain : Bool → Option Document → Option Source → Bool
is_legacy_chain is_demo none r = false
is_legacy_chain is_demo (some d) none = false
is_legacy_chain is_demo (some d) (some r) =
    is_shared d.ownership
    && (is_licensed d.license_status && is_licensed r.license_status || is_demo)

-- Every part of the display is there.
unfoldable pub has_display : Evidence → Bool
has_display e =
    is_given e.display_source_name
    && is_given e.display_source_quality
    && is_given e.display_title
    && is_given e.display_canonical_url
    && not (is_none e.display_observed_at)

-- The branches after the one of evidence without a licence.
unfoldable pub display_permission : Env → Session → Bool → Evidence → Bool
display_permission x s withdrawn_fact e =
    if not e.display_allowed && not withdrawn_fact
    then false
    else if not (has_display e)
    then false
    else if is_text "synthetic_demo" e.display_license_status
    then report_evidence_is_demo s e
      && is_text "demo-evidence-v1"
          (evidence_detail_schema x e.display_detail_payload (some "synthetic_demo"))
    else is_licensed_option e.display_license_status

unfoldable pub report_evidence_permission : Env → Session → Bool → Evidence → Bool
report_evidence_permission x s withdrawn_fact e =
    let d = document_of s e in
    if not (is_shared e.ownership)
    then false
    else if is_none e.display_license_status && not e.display_allowed
    then is_legacy_chain (report_evidence_is_demo s e) d (source_of s d)
    else display_permission x s withdrawn_fact e

-- A row of the user's own.
unfoldable pub is_own : ℕ → Ownership → Bool
is_own user o =
    same_text o.visibility_scope "personal_private"
    && is_number user o.owner_user_id
    && is_none o.owner_tenant_id

unfoldable pub is_public_license : Option String → Bool
is_public_license none = true
is_public_license (some t) = is_licensed t

-- The document is the user's own, and curated from a public source.
unfoldable pub is_curated_chain : ℕ → Option Document → Option Source → Bool
is_curated_chain user none r = false
is_curated_chain user (some d) none = false
is_curated_chain user (some d) (some r) =
    is_own user d.ownership
    && starts_with r.code "curated_"
    && d.is_curated
    && same_text r.license_status d.license_status
    && same_text d.license_status "public"

unfoldable pub report_lead_permission : Env → Session → ℕ → Event → Evidence → Bool
report_lead_permission x s user v e =
    let d = document_of s e in
    if not (same_text v.status "candidate") || not (is_text "unconfirmed_lead" v.publication_route)
    then false
    else if is_shared v.ownership
    then report_evidence_permission x s false e
    else is_own user v.ownership
      && is_own user e.ownership
      && is_curated_chain user d (source_of s d)
      && is_public_license e.display_license_status
