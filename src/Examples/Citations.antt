-- ===== src/Examples/Citations.antt =====
-- An evidence that cites another, whose document and source are public, and a lead of one person.
use text.Mathlib.TextBridge.{IsPrefix}
use dealflow_radar.Common.{
  length, ◌<◌, List, [], ℕ, String, ◌≡◌, refl, ◌↔◌, Option, some, none, true, false, [], ◌∷◌,
  is_text, arith, find_by,
}
use dealflow_radar.Evidence.Data.{Ownership, Evidence, Event, Session, Env, get_event, get_evidence}
use dealflow_radar.Evidence.Integrity.{
  excerpt_hash_status, is_authentic, is_readable, usable_matter_evidence, walk, is_legacy,
  is_displayed, stands, quotes, is_known_version, hash_version, is_outside,
}
use dealflow_radar.Evidence.Permissions.{
  is_shared, report_evidence_permission, report_lead_permission, display_permission, has_display,
  is_licensed_option, is_licensed,
}
use dealflow_radar.Evidence.Chains.{
  Traced, IsTrail, AllReadable, last_of, usable_iff, usable_matter_evidence_origin,
}
use dealflow_radar.Evidence.Granted.{
  Basis, report_evidence_permission-Basis, report_lead_permission_private,
}

abbrev env : Env
env = record {
  sha256 = λ t. t;
  dump_text = λ t. t;
  dump_fact = λ o. "fact";
  strip = λ t. t;
  is_field = λ label value. true;
}

abbrev shared : Ownership
shared = record {
  visibility_scope = "platform_shared";
  owner_user_id = none;
  owner_tenant_id = none;
}

-- The evidence of an event, with the evidence that it cites.
abbrev citing : ℕ → Option ℕ → String → Evidence
citing k cited excerpt = record {
  id = k;
  event_id = 1;
  raw_document_id = some 3;
  source_event_evidence_id = cited;
  ownership = shared;
  evidence_excerpt = excerpt;
  span_hash = "won the tender";
  display_source_name = some "gazette";
  display_source_quality = some "A";
  display_title = some "award";
  display_canonical_url = some "https://example.org/1";
  display_observed_at = some 5;
  display_url_health_status = some "healthy";
  display_license_status = some "public";
  display_allowed = true;
  display_detail_payload = none;
}

abbrev event : Event
event = record {
  id = 1;
  status = "candidate";
  publication_route = some "unconfirmed_lead";
  ownership = shared;
}

abbrev session : Session
session = record {
  events = event ∷ [];
  evidence = citing 7 none "won the tender" ∷ citing 8 (some 7) "won the" ∷ [];
  documents =
      record {
        id = 3;
        source_id = 4;
        license_status = "public";
        ownership = shared;
        is_curated = false;
      }
      ∷ [];
  sources = record { id = 4; code = "gazette"; license_status = "public" } ∷ [];
}

abbrev summary : Evidence
summary = citing 8 (some 7) "won the"

test_usable : usable_matter_evidence env session summary ≡ true
unfolding usable_matter_evidence walk excerpt_hash_status is_legacy is_readable is_displayed stands
    quotes is_authentic is_known_version hash_version is_outside get_event find_by get_evidence
test_usable = refl

test_cycle :
    usable_matter_evidence env
      (record session { evidence = citing 7 (some 7) "won" ∷ [] })
      (citing 7 (some 7) "won")
    ≡ false
unfolding usable_matter_evidence walk excerpt_hash_status is_legacy is_readable is_displayed stands
    quotes is_authentic is_known_version hash_version is_outside get_event find_by get_evidence
test_cycle = refl

usable_iff_example :
    (usable_matter_evidence env session summary ≡ true) ↔ Traced env session 8 [] summary
usable_iff_example = usable_iff env session summary

usable_matter_evidence_origin_example :
    (os : List Evidence) × (length os < 8)
    × IsTrail session summary os
    × AllReadable session summary os
    × (is_authentic (excerpt_hash_status env none (last_of summary os)) ≡ true)
    × ((last_of summary os).source_event_evidence_id ≡ none)
    × (summary.span_hash ≡ (last_of summary os).span_hash)
    × IsPrefix summary.evidence_excerpt (last_of summary os).evidence_excerpt
usable_matter_evidence_origin_example =
    usable_matter_evidence_origin env session summary test_usable

test_permitted : report_evidence_permission env session false summary ≡ true
unfolding report_evidence_permission is_shared display_permission has_display is_licensed_option
    is_licensed
test_permitted = refl

report_evidence_permission-Basis_example :
    (is_shared summary.ownership ≡ true) × Basis session false summary
report_evidence_permission-Basis_example =
    report_evidence_permission-Basis env session false summary test_permitted

test_lead : (u : ℕ) → report_lead_permission env session u event summary ≡ true
unfolding report_lead_permission report_evidence_permission is_shared display_permission has_display
    is_licensed_option is_licensed
test_lead u = refl

report_lead_permission_private_example :
    (event.status ≡ "candidate")
    × (is_text "unconfirmed_lead" event.publication_route ≡ true)
    × (is_shared event.ownership ≡ true)
    × (report_evidence_permission env session false summary ≡ true)
report_lead_permission_private_example =
    report_lead_permission_private env session 2 3 event summary (λ e. omega (arith, e))
      (test_lead 2) (test_lead 3)
