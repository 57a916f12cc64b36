-- ===== src/Evidence/Integrity.antt =====
-- `hash_excerpt_bytes`, `excerpt_hash_status` and `usable_matter_evidence` of
-- backend/app/evidence_integrity.py.
use Prim.Native.String.{[] as empty, ◌∷◌ as ◌then◌}
use text.Mathlib.Text.{starts_with}
use dealflow_radar.Common.{
  ℕ, zero, suc, String, Option, none, some, Bool, true, false, not, ◌&&◌, ◌||◌, List, [], ◌∷◌, ◌==◌,
  any, is_none, is_text, same_text, if◌then◌else◌,
}
use dealflow_radar.Evidence.Data.{Detail, Evidence, Event, Session, Env, get_event, get_evidence}

-- `t in s`
unfoldable pub has_text : String → String → Bool
has_text t empty = starts_with empty t
has_text t (c then s) = starts_with (c then s) t || has_text t s

pub data HashStatus : Type 0 where
  unknown_hash_version : HashStatus
  empty_excerpt : HashStatus
  excerpt_outside_document : HashStatus
  exact : HashStatus
  legacy_matter_json_string : HashStatus
  hash_mismatch : HashStatus

-- `payload.get("excerpt_hash_version")` and the other keys, of a payload that may be missing.
unfoldable pub hash_version : Option Detail → Option String
hash_version none = none
hash_version (some d) = d.excerpt_hash_version

-- The format of the first matters: the excerpt hashed as a JSON text, with the version of its fact.
unfoldable pub is_legacy : Env → Evidence → Option Detail → Bool
is_legacy x e none = false
is_legacy x e (some d) =
    is_none d.excerpt_hash_version
    && is_text "matter-v1" d.schema_version
    && is_text e.evidence_excerpt d.matter_observation.excerpt
    && is_text (x.sha256 (x.dump_fact d.matter_observation)) d.matter_observation.fact_version
    && same_text e.span_hash (x.sha256 (x.dump_text e.evidence_excerpt))

unfoldable pub is_known_version : Option String → Bool
is_known_version none = true
is_known_version (some v) = same_text v "sha256-utf8-exact-v1"

-- The excerpt is not of this text, where a text is given.
unfoldable pub is_outside : String → Option String → Bool
is_outside t none = false
is_outside t (some s) = not (has_text t s)

unfoldable pub excerpt_hash_status : Env → Option String → Evidence → HashStatus
excerpt_hash_status x source_text e =
    if not (is_known_version (hash_version e.display_detail_payload))
    then unknown_hash_version
    else if same_text e.evidence_excerpt ""
    then empty_excerpt
    else if is_outside e.evidence_excerpt source_text
    then excerpt_outside_document
    else if same_text e.span_hash (x.sha256 e.evidence_excerpt)
    then exact
    else if is_legacy x e e.display_detail_payload
    then legacy_matter_json_string
    else hash_mismatch

unfoldable pub is_authentic : HashStatus → Bool
is_authentic exact = true
is_authentic legacy_matter_json_string = true
is_authentic _ = false

unfoldable pub is_displayed : Evidence → Bool
is_displayed e =
    e.display_allowed
    && is_text "public" e.display_license_status
    && is_text "healthy" e.display_url_health_status

-- The event of an evidence is there, and is neither retracted nor rejected.
unfoldable pub stands : Option Event → Bool
stands none = false
stands (some v) = not (same_text v.status "retracted" || same_text v.status "rejected")

unfoldable pub is_readable : Session → Evidence → Bool
is_readable s e = is_displayed e && stands (get_event e.event_id s)

-- An evidence that cites another has its hash, and the beginning of its excerpt.
unfoldable pub quotes : Evidence → Evidence → Bool
quotes e o = same_text e.span_hash o.span_hash && starts_with o.evidence_excerpt e.evidence_excerpt

-- The loop: the rounds left, the ids that were visited, and `current`.
unfoldable pub walk : Env → Session → ℕ → List ℕ → Evidence → Bool
walk x s zero visited e = false
walk x s (suc n) visited e =
    if any (λ k. k == e.id) visited
    then false
    else if not (is_readable s e)
    then false
    else elim e.source_event_evidence_id [
      | none ↦ is_authentic (excerpt_hash_status x none e)
      | some k ↦ elim (get_evidence k s) [
        | none ↦ false
        | some o ↦ quotes e o && walk x s n (e.id ∷ visited) o
      ]
    ]

unfoldable pub usable_matter_evidence : Env → Session → Evidence → Bool
usable_matter_evidence x s e = walk x s 8 [] e
