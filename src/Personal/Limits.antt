-- ===== src/Personal/Limits.antt =====
-- The outcome of `_create_company_request` (backend/app/personal_features.py).
use mathlib.Core.Path.{subst}
use dealflow_radar.Common.{
  ℕ, eq_iff, ◌<◌, ◌*◌, ◌+◌, ◌≤◌, ◌≡◌, refl, ap, ok_eq, ◌⊎◌, inl, inr, Option, none, some, Bool,
  true, false, [], ◌∷◌, ◌++◌, ltb, ltb→lt, arith, ok, ◌>>=◌, ◌>>◌, guard, Bool-cases, count,
  count-append, pick_passes, pick-best, pick-Mem, Mem, All, All-map, String,
}
use dealflow_radar.Common.Calendar.{hour}
use dealflow_radar.Personal.Data.{
  Policy, Zone, company_request, CompanyRequest, Db, User, Error, access, limit_reached,
  is_active_request,
}
use dealflow_radar.Personal.Usage.{
  usage_count, counts_in, counts_today, daily_request_count, daily_limit, monthly_limit,
  record_usage, new_usage, add_usage,
}
use dealflow_radar.Personal.Requests.{
  Target, recent_request, is_of, is_reusable, reusable, new_request, add_request, create_new,
  create_found, create_company_request, later,
}

-- A request that was there answers, the most recent of its user and target, and the tables stay as
-- they are.
abbrev pub IsReuse : Policy → User → Target → ℕ → Db → CompanyRequest × Bool × Db → Type 0
IsReuse p user t now db (r, reused, db') =
    (reused ≡ true)
    × (db' ≡ db)
    × Mem r db.requests
    × (r.owner_user_id ≡ user.id)
    × (r.target_key ≡ t.target_key)
    × ((is_active_request r.status ≡ true) ⊎ (now < r.created_at + p.request_cooldown_hours * hour))
    × All (λ x. (is_of user.id t.target_key x ≡ false) ⊎ (x.created_at ≤ r.created_at)) db.requests

-- A new request and one more usage record of its month, within the limits of the month and the day.
abbrev pub IsNew : Zone → Policy → User → ℕ → Db → CompanyRequest × Bool × Db → Type 0
IsNew z p user now db (r, reused, db') =
    (reused ≡ false)
    × (user.is_active ≡ true)
    × (db'.requests ≡ db.requests ++ r ∷ [])
    × (usage_count user.id company_request (z.month_key now) db'
        ≡ usage_count user.id company_request (z.month_key now) db + 1)
    × (usage_count user.id company_request (z.month_key now) db' ≤ monthly_limit p user.id now db)
    × (daily_request_count z user.id now db' ≤ daily_limit p user.id now db)

usage_grows :
    (z : Zone) (user : User) (resource : Option ℕ) (id now : ℕ) (db : Db)
    → usage_count user.id company_request
        (z.month_key now)
        (add_usage (new_usage z user company_request resource id now) db)
      ≡ usage_count user.id company_request (z.month_key now) db + 1
unfolding usage_count counts_in add_usage new_usage count
usage_grows z user resource id now db = ground (
  arith,
  count-append (counts_in user.id company_request (z.month_key now)) db.usage
      (new_usage z user company_request resource id now ∷ []),
)

day_grows :
    (z : Zone) (user : User) (resource : Option ℕ) (id now : ℕ) (db : Db)
    → daily_request_count z user.id now
        (add_usage (new_usage z user company_request resource id now) db)
      ≤ daily_request_count z user.id now db + 1
unfolding daily_request_count counts_today add_usage new_usage count
day_grows z user resource id now db = ground (
  arith,
  count-append (counts_today z user.id now) db.usage
      (new_usage z user company_request resource id now ∷ []),
)

new_ok :
    (a b c : Bool) (e e' f : Error) (r : CompanyRequest) (d : Db) (x : CompanyRequest × Bool × Db)
    → (guard a e
        >> (guard b e' >> ((guard a e >> (guard c f >> ok d)) >>= λ db'. ok (r, false, db'))))
      ≡ ok x
    → (a ≡ true) × (b ≡ true) × (c ≡ true) × ((r, false, d) ≡ x)
new_ok true true true e e' f r d x h = (refl, refl, refl, ok_eq (r, false, d) x h)
new_ok true true false e e' f r d x h = absurd (ground arith)
new_ok true false c e e' f r d x h = absurd (ground arith)
new_ok false b c e e' f r d x h = absurd (ground arith)

created :
    (z : Zone) (p : Policy) (user : User) (t : Target) (id now : ℕ) (db : Db)
    (x : CompanyRequest × Bool × Db)
    → create_new z p user t id now db ≡ ok x
    → IsNew z p user now db x
unfolding create_new record_usage add_usage add_request usage_count daily_request_count
created z p user t id now db x h =
    let u = new_usage z user company_request (some id) id now in
    let (active, daily, month, e) =
      new_ok user.is_active
        (ltb (daily_request_count z user.id now db) (daily_limit p user.id now db))
        (ltb (usage_count user.id company_request (z.month_key now) db)
          (monthly_limit p user.id now db))
        access (limit_reached "daily_company_request" (daily_limit p user.id now db))
        (limit_reached "company_request" (monthly_limit p user.id now db))
        (new_request user t id now) (add_usage u (add_request (new_request user t id now) db)) x
        h in
    let month' = ltb→lt _ _ month in
    let daily' = ltb→lt _ _ daily in
    let more = usage_grows z user (some id) id now db in
    let more' = day_grows z user (some id) id now db in
    subst (λ (y : CompanyRequest × Bool × Db). IsNew z p user now db y) e
      (refl, active, refl, more, omega arith, omega arith)

found_ok :
    (o : Option CompanyRequest) (z : Zone) (p : Policy) (user : User) (t : Target) (id now : ℕ)
    (db : Db) (x : CompanyRequest × Bool × Db)
    → ((r : CompanyRequest) → o ≡ some r → IsReuse p user t now db (r, true, db))
    → create_found o z p user t id now db ≡ ok x
    → IsReuse p user t now db x ⊎ IsNew z p user now db x
unfolding create_found
found_ok none z p user t id now db x g h = inr (created z p user t id now db x h)
found_ok (some r) z p user t id now db x g h = inl (
    subst (λ (y : CompanyRequest × Bool × Db). IsReuse p user t now db y) (ok_eq (r, true, db) x h)
      (g r refl))

most_recent :
    (user : ℕ) (key : String) (db : Db) (r : CompanyRequest)
    → recent_request user key db ≡ some r
    → All (λ x. (is_of user key x ≡ false) ⊎ (x.created_at ≤ r.created_at)) db.requests
unfolding recent_request later
most_recent user key db r h =
    All-map _ _ db.requests (λ x f. either (is_of user key x) f)
      (pick-best (λ (a b : CompanyRequest). b.created_at ≤ a.created_at) (is_of user key) later
        (λ a. omega arith) (λ a b c h1 h2. omega (arith, h1, h2)) (λ a b e. ground arith)
        (λ a b e. ground arith) db.requests r h)
  where
    either : {P : Type 0} (b : Bool) → (b ≡ true → P) → (b ≡ false) ⊎ P
    either true f = inr (f refl)
    either false f = inl refl

reusable_ok :
    (p : Policy) (now : ℕ) (o : Option CompanyRequest) (r : CompanyRequest)
    → reusable p now o ≡ some r
    → (o ≡ some r) × (is_reusable p now r ≡ true)
unfolding reusable
reusable_ok p now none r h = absurd (ground arith)
reusable_ok p now (some q) r h = elim (Bool-cases (is_reusable p now q)) [
  | inl e ↦
      let same : q ≡ r = ground arith in
      (ap some same, subst (λ (y : CompanyRequest). is_reusable p now y ≡ true) same e)
  | inr e ↦ absurd (ground arith)
]

is_of_lem :
    (user : ℕ) (key : String) (r : CompanyRequest)
    → is_of user key r ≡ true
    → (r.owner_user_id ≡ user) × (r.target_key ≡ key)
unfolding is_of
is_of_lem user key r h = (ground arith, (eq_iff r.target_key key).0 (ground arith))

is_reusable_lem :
    (p : Policy) (now : ℕ) (r : CompanyRequest)
    → is_reusable p now r ≡ true
    → (is_active_request r.status ≡ true) ⊎ (now < r.created_at + p.request_cooldown_hours * hour)
unfolding is_reusable
is_reusable_lem p now r h = elim (Bool-cases (is_active_request r.status)) [
  | inl a ↦ inl a
  | inr a ↦ inr (ltb→lt now (r.created_at + p.request_cooldown_hours * hour) (ground arith))
]

-- A company request that is accepted either is answered by a request of the table, of the same user
-- and target, which none of these was created after and which is active or within the cooldown, and
-- changes nothing; or is new: the user is active,
-- the month has one usage more and stays within its effective limit, and so does the day.
pub create_company_request_lem :
    (z : Zone) (p : Policy) (user : User) (t : Target) (id now : ℕ) (db : Db)
    (x : CompanyRequest × Bool × Db)
    → create_company_request z p user t id now db ≡ ok x
    → IsReuse p user t now db x ⊎ IsNew z p user now db x
unfolding create_company_request
create_company_request_lem z p user t id now db x h =
    found_ok (reusable p now (recent_request user.id t.target_key db)) z p user t id now db x
      (λ r e.
        let (f, q) = reusable_ok p now (recent_request user.id t.target_key db) r e in
        (
          refl,
          refl,
          pick-Mem (is_of user.id t.target_key) later db.requests r (unfold recent_request in f),
          (is_of_lem user.id t.target_key r (passes r f)).0,
          (is_of_lem user.id t.target_key r (passes r f)).1,
          is_reusable_lem p now r q,
          most_recent user.id t.target_key db r f,
        ))
      h
  where
    passes :
        (r : CompanyRequest)
        → recent_request user.id t.target_key db ≡ some r
        → is_of user.id t.target_key r ≡ true
    passes r f =
        pick_passes (is_of user.id t.target_key) later db.requests r (unfold recent_request in f)
