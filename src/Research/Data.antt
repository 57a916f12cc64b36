-- ===== src/Research/Data.antt =====
-- The coverage of a research job: its search groups, candidates, documents and routes. What the
-- source takes from Python's own library to read texts is a record of functions.
use dealflow_radar.Common.{
  ℕ, String, Option, none, some, Bool, true, false, ◌&&◌, ◌||◌, List, [], ◌∷◌, any, is_text,
  same_text,
}

-- `datetime.fromisoformat` and `isoformat` on instants with a time zone; `urlsplit(u).path` without
-- its last slashes, and the last segment of a path up to its first dot, casefolded; the title
-- without spaces and punctuation.
pub record Texts : Type 0 where
  pub instant : String → Option ℕ
  pub isoformat : ℕ → String
  pub path : String → String
  pub leaf : String → String
  pub signature : String → String

-- A value of `state["providers"]`
pub record ProviderState : Type 0 where
  pub status : Option String
  pub reason : Option String

-- A value of `coverage["search_groups"]`, under its code.
pub record GroupState : Type 0 where
  pub code : String
  pub status : Option String
  pub providers : List ProviderState
  pub topic_category : Option String
  pub topic_intent : Option String
  pub coverage_scope : Option String
  pub attempted_at : Option String
  pub checked_at : Option String
  pub subject_results : ℕ

-- An item of `coverage["documents"]`
pub record Document : Type 0 where
  pub url : String
  pub status : String
  pub coverage_category : Option String
  pub matter_categories : List String
  pub searched_topics : List String
  pub disposition : Option String
  pub quality_gate : Option String
  pub error_code : Option String
  pub attempted_at : Option String
  pub checked_at : Option String

-- An item of `coverage["candidates"]` and of `coverage["deferred_candidates"]`
pub record Candidate : Type 0 where
  pub url : String
  pub title : String
  pub coverage_category : Option String
  pub query_kind : Option String
  pub query_kinds : Option (List String)
  pub identity_pending : Bool
  pub scheduling_reason : Option String

-- An item of `coverage["source_routes"]`; no search group under a route that is not configured.
pub record Route : Type 0 where
  pub category : String
  pub is_configured : Bool
  pub search_group : Option String

pub record Coverage : Type 0 where
  pub search_groups : List GroupState
  pub documents : List Document
  pub candidates : List Candidate
  pub deferred_candidates : List Candidate
  pub source_routes : List Route
  pub network_preflight : Option String
  pub query_strategy_version : Option String
  pub research_scope : String
  pub stop_reason : Option String
  pub previous_successful_checks : List (String × String)

-- `TOPICS`
abbrev pub topics : List String
topics =
    "financing_cap_table" ∷ "exit_liquidity" ∷ "legal_compliance" ∷ "financial_operation"
    ∷ "contract_commercial" ∷ "product_technology" ∷ "governance_people" ∷ "capacity_assets" ∷ []

-- `VERSION`
abbrev pub version : String
version = "topic-research-v1"

-- `in` on texts.
unfoldable pub is_in : List String → String → Bool
is_in xs s = any (λ x. same_text x s) xs

unfoldable pub is_any_of : List String → Option String → Bool
is_any_of xs none = false
is_any_of xs (some s) = is_in xs s

-- `==` on optional texts.
unfoldable pub same_option : Option String → Option String → Bool
same_option none none = true
same_option (some s) (some t) = same_text s t
same_option _ _ = false

-- `planned`
unfoldable pub planned : Coverage → Bool
planned c = is_text version c.query_strategy_version

-- `directory_page`
abbrev pub directory_names : List String
directory_names =
    "index" ∷ "home" ∷ "about" ∷ "about-us" ∷ "contact" ∷ "contact-us" ∷ "faq" ∷ "service"
    ∷ "services" ∷ "support" ∷ "product" ∷ "products" ∷ "news" ∷ "search" ∷ []

unfoldable pub directory_page : Texts → String → Bool
directory_page x url = let p = x.path url in same_text p "" || is_in directory_names (x.leaf p)

-- `document_categories`
unfoldable pub in_categories : String → Document → Bool
in_categories category d = elim d.matter_categories [
  | [] ↦ is_text category d.coverage_category
  | y ∷ ys ↦ is_in (y ∷ ys) category
]

unfoldable pub is_stored : Document → Bool
is_stored d = same_text d.status "created" || same_text d.status "reused"

-- `eligible_document`
unfoldable pub eligible_document : Document → Bool
eligible_document d = is_stored d && is_text "eligible" d.quality_gate

unfoldable pub eligible_in : String → Document → Bool
eligible_in category d = eligible_document d && in_categories category d

abbrev pub settled_dispositions : List String
settled_dispositions = "no_supported_matter" ∷ "duplicate" ∷ "historical" ∷ "matters_retained" ∷ []

-- `checked_document`
unfoldable pub checked_document : Document → Bool
checked_document d =
    is_stored d && (eligible_document d || is_any_of settled_dispositions d.disposition)
