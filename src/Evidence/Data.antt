-- ===== src/Evidence/Data.antt =====
-- The tables that evidence is checked against: the columns of `EventEvidence`, `Event`,
-- `RawDocument` and `Source` that the checks read, and the parts of `display_detail_payload`.
use dealflow_radar.Common.{ℕ, String, Option, Bool, List, find_by}

-- Who may see a row: the columns of the visibility scope.
pub record Ownership : Type 0 where
  pub visibility_scope : String
  pub owner_user_id : Option ℕ
  pub owner_tenant_id : Option ℕ

-- An entry of a list of fields: a dict has a label and a value where these are given.
pub data Field : Type 0 where
  not_dict : Field
  field : (label value : Option String) → Field

-- What a key of the payload has where a list is expected; a missing key is the empty list.
pub data Listed : Type 0 where
  not_list : Listed
  listed : List Field → Listed

-- An entry of `records`: the value of its `fields`, or none where it is not a dict.
abbrev pub RecordFields : Type 0
RecordFields = Option Listed

-- `records`: none where the value is not a list.
abbrev pub Records : Type 0
Records = Option (List RecordFields)

-- `payload["matter_observation"]`: a value is its JSON text, none where the key is missing.
pub record Observation : Type 0 where
  pub excerpt : Option String
  pub fact_version : Option String
  pub category : Option String
  pub subtype : Option String
  pub subject : Option String
  pub scope : Option String
  pub status : Option String
  pub fields : Option String
  pub issues : Option String

pub record Detail : Type 0 where
  pub excerpt_hash_version : Option String
  pub schema_version : Option String
  pub matter_observation : Observation
  pub summary_fields : Listed
  pub records : Records
  pub is_synthetic_demo : Bool
  pub before : Option String
  pub after : Option String

-- `EventEvidence`
pub record Evidence : Type 0 where
  pub id : ℕ
  pub event_id : ℕ
  pub raw_document_id : Option ℕ
  pub source_event_evidence_id : Option ℕ
  pub ownership : Ownership
  pub evidence_excerpt : String
  pub span_hash : String
  pub display_source_name : Option String
  pub display_source_quality : Option String
  pub display_title : Option String
  pub display_canonical_url : Option String
  pub display_observed_at : Option ℕ
  pub display_url_health_status : Option String
  pub display_license_status : Option String
  pub display_allowed : Bool
  pub display_detail_payload : Option Detail

pub record Event : Type 0 where
  pub id : ℕ
  pub status : String
  pub publication_route : Option String
  pub ownership : Ownership

-- `RawDocument`; `is_curated` is the truth of `payload.get("curated_record")`.
pub record Document : Type 0 where
  pub id : ℕ
  pub source_id : ℕ
  pub license_status : String
  pub ownership : Ownership
  pub is_curated : Bool

pub record Source : Type 0 where
  pub id : ℕ
  pub code : String
  pub license_status : String

pub record Session : Type 0 where
  pub events : List Event
  pub evidence : List Evidence
  pub documents : List Document
  pub sources : List Source

-- The code outside the repository: `hashlib` on UTF-8 (`sha256`), `json.dumps` of a text and of a
-- fact with sorted keys, `str.strip`, and the validation of a field by pydantic.
pub record Env : Type 0 where
  pub sha256 : String → String
  pub dump_text : String → String
  pub dump_fact : Observation → String
  pub strip : String → String
  pub is_field : Option String → Option String → Bool

-- `session.get(Event, id)` and the like.
unfoldable pub get_event : ℕ → Session → Option Event
get_event k s = find_by (λ e. e.id) k s.events

unfoldable pub get_evidence : ℕ → Session → Option Evidence
get_evidence k s = find_by (λ e. e.id) k s.evidence

unfoldable pub get_document : ℕ → Session → Option Document
get_document k s = find_by (λ d. d.id) k s.documents

unfoldable pub get_source : ℕ → Session → Option Source
get_source k s = find_by (λ r. r.id) k s.sources
