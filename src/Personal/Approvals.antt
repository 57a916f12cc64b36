-- ===== src/Personal/Approvals.antt =====
-- `approve_platform_company_request_for_research`: what an approval goes by.
use dealflow_radar.Common.{
  ℕ, ◌≡◌, refl, sym, ap, subst, ◌∙◌, ◌⊎◌, inl, inr, String, Option, none, some, Bool, true, false,
  not, ◌&&◌, ◌||◌, List, [], ◌∷◌, ◌==◌, is_text, is_given, or_else, ok, guard_ok, bind_ok, ok_eq,
  pick_passes, keep, arith, Bool-cases, Option-cases, eq_iff, All, All-keep_of, All-self, Mem,
  pick-Mem, and_parts, key-find_by, find_by-store_by_self, store_by,
}
use dealflow_radar.Personal.Data.{CompanyRequest, research_queued, Db, User, access}
use dealflow_radar.Personal.Catalog.{Company, Catalog, is_public}
use dealflow_radar.Personal.Requests.{find_request}
use dealflow_radar.Personal.Review.{
  Names, is_waiting, is_inclusion, needs_request, is_approvable, first_company, only_company,
  company_for, needs_company, name_matches, approved, reviewed, store_request, approve_for_research,
  or_id, is_named,
}

first_company-approvable :
    (p : Company → Bool) (catalog : Catalog) (c : Company)
    → first_company p catalog ≡ some c
    → is_approvable c ≡ true
unfolding first_company
first_company-approvable p catalog c h =
    let q = pick_passes (λ x. p x && is_approvable x) (λ a b. false) catalog.companies c h in
    ground arith

only_company-All :
    (P : Company → Type 0) (cs : List Company) (c : Company)
    → only_company cs ≡ ok (some c)
    → All P cs
    → P c
unfolding only_company
only_company-All P [] c h a = absurd (ground arith)
only_company-All P (x ∷ []) c h a = let e : x ≡ c = ground arith in subst P e a.0
only_company-All P (x ∷ y ∷ cs) c h a = absurd (ground arith)

first_company-Mem :
    (p : Company → Bool) (catalog : Catalog) (c : Company)
    → first_company p catalog ≡ some c
    → Mem c catalog.companies
unfolding first_company
first_company-Mem p catalog c h =
    pick-Mem (λ x. p x && is_approvable x) (λ a b. false) catalog.companies c h

-- A company of the catalog that research may be approved for.
abbrev pub IsListed : Catalog → Company → Type 0
IsListed catalog c = Mem c catalog.companies × (is_approvable c ≡ true)

first_company-IsListed :
    (p : Company → Bool) (catalog : Catalog) (c : Company)
    → first_company p catalog ≡ some c
    → IsListed catalog c
first_company-IsListed p catalog c h =
    (first_company-Mem p catalog c h, first_company-approvable p catalog c h)

company_for-IsListed :
    (n : Names) (catalog : Catalog) (k : Option ℕ) (r : CompanyRequest) (c : Company)
    → company_for n catalog k r ≡ ok (some c)
    → IsListed catalog c
unfolding company_for
company_for-IsListed n catalog (some k) r c h =
    first_company-IsListed (λ x. x.id == k) catalog c (ground arith)
company_for-IsListed n catalog none r c h = elim (Bool-cases (is_given r.requested_credit_code)) [
  | inl e ↦
      first_company-IsListed (λ x. is_text (or_else r.requested_credit_code "") x.credit_code)
        catalog c (ground arith)
  | inr e ↦ elim (Bool-cases (is_given r.requested_name)) [
    | inl f ↦
        only_company-All (IsListed catalog)
          (keep (λ x. is_approvable x && is_named n (or_else r.requested_name "") catalog x)
            catalog.companies)
          c (ground arith)
          (All-keep_of (λ x. Mem x catalog.companies) (IsListed catalog)
            (λ x. is_approvable x && is_named n (or_else r.requested_name "") catalog x)
            catalog.companies (λ x m p. (m, ground arith)) (All-self catalog.companies))
    | inr f ↦ absurd (ground arith)
  ]
]

-- The company is the one that the reviewer names, or else the request, where either names one.
named_company :
    (n : Names) (catalog : Catalog) (k : ℕ) (r : CompanyRequest) (c : Company)
    → company_for n catalog (some k) r ≡ ok (some c)
    → c.id ≡ k
unfolding company_for first_company
named_company n catalog k r c h =
    let q =
      pick_passes (λ x. (x.id == k) && is_approvable x) (λ a b. false) catalog.companies c
        (ground arith) in
    ground arith

company_for-id :
    (n : Names) (catalog : Catalog) (o : Option ℕ) (r : CompanyRequest) (c : Company)
    → company_for n catalog o r ≡ ok (some c)
    → (o ≡ none) ⊎ (o ≡ some c.id)
company_for-id n catalog none r c h = inl refl
company_for-id n catalog (some k) r c h = inr (ap some (sym (named_company n catalog k r c h)))

needs_company-ok : (o : Option Company) (c : Company) → needs_company o ≡ ok c → o ≡ some c
unfolding needs_company
needs_company-ok none c h = absurd (ground arith)
needs_company-ok (some d) c h = ground arith

needs_request-ok :
    (o : Option CompanyRequest) (r : CompanyRequest) → needs_request o ≡ ok r → o ≡ some r
unfolding needs_request
needs_request-ok none c h = absurd (ground arith)
needs_request-ok (some d) c h = ground arith

-- A company that is public and verified, of no tenant, and has a credit code.
abbrev pub IsVerified : Company → Type 0
IsVerified c =
    (c.tenant_id ≡ none)
    × (c.visibility_scope ≡ "public")
    × (c.identity_status ≡ "verified")
    × ((code : String) × (c.credit_code ≡ some code))

approvable-IsVerified : (c : Company) → is_approvable c ≡ true → IsVerified c
unfolding is_approvable is_public
approvable-IsVerified c h = elim (Option-cases c.credit_code) [
  | inl n ↦ absurd (ground arith)
  | inr (code, n) ↦ elim (Option-cases c.tenant_id) [
    | inr (t, m) ↦ absurd (ground arith)
    | inl m ↦ (
      m,
      (eq_iff c.visibility_scope "public").0 (ground arith),
      (eq_iff c.identity_status "verified").0 (ground arith),
      (code, n),
    )
  ]
]

-- What an approved request and its company of the catalog agree on, and what the tables have of it.
abbrev pub Approved :
    Names → Catalog → Option ℕ → Db → CompanyRequest → Company → CompanyRequest → Db → Type 0
Approved n catalog company db r c s db' =
    Mem c catalog.companies
    × IsVerified c
    × ((or_id company r.company_id ≡ none) ⊎ (or_id company r.company_id ≡ some c.id))
    × ((is_given r.requested_credit_code ≡ false)
        ⊎ (is_text (or_else r.requested_credit_code "") c.credit_code ≡ true))
    × ((is_given r.requested_name ≡ false)
        ⊎ (name_matches n catalog (or_else r.requested_name "") c ≡ true))
    × (s.company_id ≡ some c.id)
    × (s.resolved_credit_code ≡ c.credit_code)
    × (s.status ≡ research_queued)
    × (find_request r.id db' ≡ some s)
    × (db' ≡ record db { requests = store_by (λ x. x.id) s db.requests })

implied : (x y : Bool) → (not x || y) ≡ true → (x ≡ false) ⊎ (y ≡ true)
implied true y h = inr h
implied false y h = inl refl

approved_agrees :
    (n : Names) (catalog : Catalog) (company : Option ℕ) (user : User) (now : ℕ) (reason : String)
    (r : CompanyRequest) (c : Company) (db : Db)
    → IsListed catalog c
    → (or_id company r.company_id ≡ none) ⊎ (or_id company r.company_id ≡ some c.id)
    → (not (is_given r.requested_credit_code)
        || is_text (or_else r.requested_credit_code "") c.credit_code)
      ≡ true
    → (not (is_given r.requested_name) || name_matches n catalog (or_else r.requested_name "") c)
      ≡ true
    → find_request r.id db ≡ some r
    → Approved n catalog company db r c
        (approved user now reason c r)
        (store_request (approved user now reason c r) db)
unfolding approved reviewed store_request find_request
approved_agrees n catalog company user now reason r c db listed chosen code name f =
    let s = approved user now reason c r in
    (
      listed.0,
      approvable-IsVerified c listed.1,
      chosen,
      implied _ _ code,
      implied _ _ name,
      refl,
      refl,
      refl,
      find_by-store_by_self (λ (x : CompanyRequest). x.id) db.requests r.id r s f refl,
      refl,
    )

-- A request that is approved for research is stored as queued for a company of the catalog that is
-- public, verified and has a credit code: the one that the reviewer, or else the request, names by its
-- id, where either does. The company's credit code and name agree with those that the request gives,
-- the request was an inclusion request that waited for review, and nothing else of the tables changes. Only an
-- administrator approves.
pub approve_for_research_lem :
    (n : Names) (catalog : Catalog) (user : User) (k : ℕ) (company : Option ℕ) (reason : String)
    (now : ℕ) (db db' : Db) (s : CompanyRequest)
    → approve_for_research n catalog user k company reason now db ≡ ok (s, db')
    → (user.is_platform_admin ≡ true)
      × ((r : CompanyRequest) × (find_request k db ≡ some r)
          × (is_inclusion r.request_type ≡ true)
          × (is_waiting r.status ≡ true)
          × ((c : Company) × Approved n catalog company db r c s db'))
unfolding approve_for_research
approve_for_research_lem n catalog user k company reason now db db' s h =
    let (admin, h1) = guard_ok user.is_platform_admin access _ (s, db') h in
    let (r, fr, h2) = bind_ok (needs_request (find_request k db)) _ (s, db') h1 in
    let (w, h3) = guard_ok (is_inclusion r.request_type && is_waiting r.status) _ _ (s, db') h2 in
    let (found, ff, h4) =
      bind_ok (company_for n catalog (or_id company r.company_id) r) _ (s, db') h3 in
    let (c, fc, h5) = bind_ok (needs_company found) _ (s, db') h4 in
    let (code, h6) =
      guard_ok
        (not (is_given r.requested_credit_code)
          || is_text (or_else r.requested_credit_code "") c.credit_code)
        _ _ (s, db') h5 in
    let (name, h7) =
      guard_ok
        (not (is_given r.requested_name) || name_matches n catalog (or_else r.requested_name "") c)
        _ _ (s, db') h6 in
    let chosen = ff ∙ ap ok (needs_company-ok found c fc) in
    let found_r = needs_request-ok (find_request k db) r fr in
    let i : r.id ≡ k =
      unfold find_request in key-find_by (λ (x : CompanyRequest). x.id) k db.requests r found_r in
    let a =
      approved_agrees n catalog company user now reason r c db
        (company_for-IsListed n catalog (or_id company r.company_id) r c chosen)
        (company_for-id n catalog (or_id company r.company_id) r c chosen) code name
        (subst (λ (j : ℕ). find_request j db ≡ some r) (sym i) found_r) in
    let (wi, ww) = and_parts (is_inclusion r.request_type) (is_waiting r.status) w in
    (
      admin,
      (
        r,
        found_r,
        wi,
        ww,
        (
          c,
          subst (λ (y : CompanyRequest × Db). Approved n catalog company db r c y.0 y.1)
              (ok_eq _ (s, db') h7) a,
        ),
      ),
    )
