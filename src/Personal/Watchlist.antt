-- ===== src/Personal/Watchlist.antt =====
-- `add_personal_watchlist_item` and `remove_personal_watchlist_item`.
use dealflow_radar.Common.{
  ℕ, String, Option, none, some, Bool, false, not, ◌&&◌, List, [], ◌∷◌, ◌++◌, ◌==◌, leb,
  if◌then◌else◌, Result, ok, err, count, keep, pick,
}
use dealflow_radar.Personal.Data.{Policy, User, Error, access, not_found, limit_reached}
use dealflow_radar.Personal.Catalog.{
  Company, Catalog, shared_company, shared_snapshot, freshness_status,
}

-- `PersonalWatchlistItem`
pub record Item : Type 0 where
  pub id : ℕ
  pub owner_user_id : ℕ
  pub company_id : ℕ
  pub created_at : ℕ

-- `PersonalWatchlistItemOut`, less the fields that repeat the company's.
pub record ItemOut : Type 0 where
  pub id : ℕ
  pub company : Company
  pub freshness : String
  pub followed_at : ℕ

unfoldable pub is_item : ℕ → ℕ → Item → Bool
is_item user company i = i.owner_user_id == user && i.company_id == company

unfoldable pub existing : ℕ → ℕ → List Item → Option Item
existing user company is = pick (is_item user company) (λ x y. false) is

unfoldable pub is_owned : ℕ → Item → Bool
is_owned user i = i.owner_user_id == user

unfoldable pub item_out : Company → Catalog → ℕ → ℕ → Item → ItemOut
item_out c catalog ttl_days now i = record {
  id = i.id;
  company = c;
  freshness = freshness_status (shared_snapshot c.id catalog) ttl_days now;
  followed_at = i.created_at;
}

unfoldable pub new_item : ℕ → ℕ → ℕ → ℕ → Item
new_item user company id now = record {
  id = id;
  owner_user_id = user;
  company_id = company;
  created_at = now;
}

unfoldable pub follow :
    Option Item → Policy → ℕ → ℕ → ℕ → ℕ → List Item → Result Error (Item × List Item)
follow (some i) p user company id now is = ok (i, is)
follow none p user company id now is =
    if leb p.watchlist_company_limit (count (is_owned user) is)
    then err (limit_reached "watchlist_company" p.watchlist_company_limit)
    else ok (new_item user company id now, is ++ new_item user company id now ∷ [])

unfoldable pub followed :
    Company → Catalog → ℕ → ℕ → Result Error (Item × List Item) → Result Error (ItemOut × List Item)
followed c catalog ttl_days now (ok (i, is)) = ok (item_out c catalog ttl_days now i, is)
followed c catalog ttl_days now (err e) = err e

unfoldable pub add_found :
    Option Company
    → Policy
    → ℕ
    → Catalog
    → User
    → ℕ
    → ℕ
    → ℕ
    → List Item
    → Result Error (ItemOut × List Item)
add_found none p ttl_days catalog user company id now is = err not_found
add_found (some c) p ttl_days catalog user company id now is =
    if user.is_active
    then followed c catalog ttl_days now
        (follow (existing user.id company is) p user.id company id now is)
    else err access

-- `add_personal_watchlist_item`; `id` is the id of a new item, and `is_active` of the user says that
-- `_lock_user` finds the user.
unfoldable pub add_personal_watchlist_item :
    Policy → ℕ → Catalog → User → ℕ → ℕ → ℕ → List Item → Result Error (ItemOut × List Item)
add_personal_watchlist_item p ttl_days catalog user company id now is =
    add_found (shared_company company catalog) p ttl_days catalog user company id now is

-- `remove_personal_watchlist_item`
unfoldable pub remove_personal_watchlist_item : ℕ → ℕ → List Item → List Item
remove_personal_watchlist_item user company is = keep (λ i. not (is_item user company i)) is
