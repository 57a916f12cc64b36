-- ===== src/Evidence/Granted.antt =====
-- What the permissions of `report_permissions.py` rest on.
use dealflow_radar.Common.{
  ℕ, String, ◌≡◌, refl, ◌≢◌, ◌⊎◌, inl, inr, Option, none, some, Bool, true, false, not, ◌&&◌, ◌||◌,
  is_none, is_text, same_text, Bool-cases, Option-cases, eq_iff, arith,
}
use dealflow_radar.Evidence.Data.{Ownership, Evidence, Event, Document, Source, Session, Env}
use dealflow_radar.Evidence.Permissions.{
  is_shared, document_of, source_of, is_demo_chain, report_evidence_is_demo, is_licensed,
  is_licensed_option, is_legacy_chain, display_permission, report_evidence_permission, is_own,
  report_lead_permission, has_display,
}

-- The document of the evidence is shared, and the licences of it and of its source pass the test.
abbrev pub HasChain : Session → Evidence → (String → Bool) → Type 0
HasChain s e p =
    (d : Document) × (r : Source) × (document_of s e ≡ some d)
    × (source_of s (some d) ≡ some r)
    × (is_shared d.ownership ≡ true)
    × (p d.license_status ≡ true)
    × (p r.license_status ≡ true)

unfoldable pub is_demo_license : String → Bool
is_demo_license t = same_text t "synthetic_demo"

-- What a permission may rest on: a licence to display the evidence, licences of its document and
-- source, or a demonstration in all of them.
abbrev pub Basis : Session → Bool → Evidence → Type 0
Basis s withdrawn e =
    ((is_licensed_option e.display_license_status ≡ true)
      × ((e.display_allowed || withdrawn) ≡ true)
      × (has_display e ≡ true))
    ⊎ HasChain s e is_licensed
    ⊎ HasChain s e is_demo_license

chain_some :
    (d : Document) (o : Option Source)
    → is_demo_chain (some d) o ≡ true
    → (r : Source) × (o ≡ some r)
      × (is_shared d.ownership ≡ true)
      × (is_demo_license d.license_status ≡ true)
      × (is_demo_license r.license_status ≡ true)
unfolding is_demo_chain is_demo_license
chain_some d none h = absurd (ground arith)
chain_some d (some r) h = (r, refl, ground arith, ground arith, ground arith)

demo_chain :
    (s : Session) (o : Option Document)
    → is_demo_chain o (source_of s o) ≡ true
    → (d : Document) × (o ≡ some d) × (is_demo_chain (some d) (source_of s (some d)) ≡ true)
unfolding is_demo_chain
demo_chain s none h = absurd (ground arith)
demo_chain s (some d) h = (d, refl, h)

demo-HasChain :
    (s : Session) (e : Evidence) → report_evidence_is_demo s e ≡ true → HasChain s e is_demo_license
unfolding report_evidence_is_demo
demo-HasChain s e h =
    let c : is_demo_chain (document_of s e) (source_of s (document_of s e)) ≡ true = ground arith in
    let (d, f, g) = demo_chain s (document_of s e) c in
    let (r, q, shared, document, source) = chain_some d (source_of s (some d)) g in
    (d, r, f, q, shared, document, source)

legacy_chain :
    (s : Session) (b : Bool) (o : Option Document)
    → is_legacy_chain b o (source_of s o) ≡ true
    → (b ≡ true)
      ⊎ ((d : Document) × (r : Source) × (o ≡ some d)
          × (source_of s (some d) ≡ some r)
          × (is_shared d.ownership ≡ true)
          × (is_licensed d.license_status ≡ true)
          × (is_licensed r.license_status ≡ true))
unfolding is_legacy_chain
legacy_chain s true o h = inl refl
legacy_chain s false none h = absurd (ground arith)
legacy_chain s false (some d) h = elim (Option-cases (source_of s (some d))) [
  | inl g ↦ absurd (ground arith)
  | inr (r, g) ↦ inr (d, r, refl, g, ground arith, ground arith, ground arith)
]

display_Basis :
    (x : Env) (s : Session) (withdrawn : Bool) (e : Evidence)
    → display_permission x s withdrawn e ≡ true
    → Basis s withdrawn e
unfolding display_permission
display_Basis x s withdrawn e h =
    elim (Bool-cases (is_text "synthetic_demo" e.display_license_status)) [
      | inl t ↦ inr (inr (demo-HasChain s e (ground arith)))
      | inr t ↦ inl (ground arith, ground arith, ground arith)
    ]

-- Evidence that a report may show is shared with the platform, and has a licence to display it and a
-- full display, of evidence that is allowed or of a withdrawn fact; or a shared document that is
-- licensed and whose source is licensed; or a shared document that is of the demonstration and
-- whose source is of the demonstration.
pub report_evidence_permission-Basis :
    (x : Env) (s : Session) (withdrawn : Bool) (e : Evidence)
    → report_evidence_permission x s withdrawn e ≡ true
    → (is_shared e.ownership ≡ true) × Basis s withdrawn e
unfolding report_evidence_permission
report_evidence_permission-Basis x s withdrawn e h =
    elim (Bool-cases (is_none e.display_license_status && not e.display_allowed)) [
      | inl t ↦ (
        ground arith,
        elim (legacy_chain s (report_evidence_is_demo s e) (document_of s e) (ground arith)) [
          | inl d ↦ inr (inr (demo-HasChain s e d))
          | inr c ↦ inr (inl c)
        ],
      )
      | inr t ↦ (ground arith, display_Basis x s withdrawn e (ground arith))
    ]

own_same : (u w : ℕ) (o : Ownership) → is_own u o ≡ true → is_own w o ≡ true → u ≡ w
unfolding is_own
own_same u w o h g = elim (Option-cases o.owner_user_id) [
  | inl f ↦ absurd (ground arith)
  | inr (k, f) ↦ ground arith
]

-- A lead that may be shown to two people is a candidate on the route of unconfirmed leads, is shared
-- with the platform, and is shown by the rule for a report's evidence.
pub report_lead_permission_private :
    (x : Env) (s : Session) (u w : ℕ) (v : Event) (e : Evidence)
    → u ≢ w
    → report_lead_permission x s u v e ≡ true
    → report_lead_permission x s w v e ≡ true
    → (v.status ≡ "candidate")
      × (is_text "unconfirmed_lead" v.publication_route ≡ true)
      × (is_shared v.ownership ≡ true)
      × (report_evidence_permission x s false e ≡ true)
unfolding report_lead_permission
report_lead_permission_private x s u w v e n h g = elim (Bool-cases (is_shared v.ownership)) [
  | inl t ↦ ((eq_iff v.status "candidate").0 (ground arith), ground arith, t, ground arith)
  | inr t ↦ absurd (n (own_same u w v.ownership (ground arith) (ground arith)))
]
