-- ===== src/Personal/Following.antt =====
-- The companies that a person follows, as a set: the additions to and removals from the watchlist.
use dealflow_radar.Common.{
  ℕ, ◌≤◌, max, ◌≡◌, ◌⊎◌, Option, none, some, Bool, true, false, ◌&&◌, ◌||◌, List, any, ◌==◌, ok,
  err, count,
}
use dealflow_radar.Personal.Data.{Policy, User, access, not_found, limit_reached}
use dealflow_radar.Personal.Catalog.{Catalog, shared_company}
use dealflow_radar.Personal.Watchlist.{
  Item, ItemOut, is_item, is_owned, add_personal_watchlist_item,
}

-- The set of companies that a person follows.
unfoldable pub follows : List Item → ℕ → ℕ → Bool
follows is user company = any (is_item user company) is

-- What an addition does to the set of a person, and to how many companies anyone follows.
abbrev pub Added : ℕ → ℕ → ℕ → List Item → List Item → Type 0
Added limit user company is is' =
    ((u k : ℕ) → follows is' u k ≡ (follows is u k || (u == user && k == company)))
    × ((u : ℕ) → count (is_owned u) is' ≤ max (count (is_owned u) is) limit)

-- What an existing item, or its absence, says of the set.
abbrev OfSet : ℕ → ℕ → List Item → Option Item → Type 0
OfSet user company is none = follows is user company ≡ false
OfSet user company is (some i) = follows is user company ≡ true

-- What an addition answers and leaves, by the code's three refusals.
abbrev pub Addition : Policy → ℕ → Catalog → User → ℕ → ℕ → ℕ → List Item → Type 0
Addition p ttl_days catalog user company id now is =
    let answer = add_personal_watchlist_item p ttl_days catalog user company id now is in
    ((shared_company company catalog ≡ none) × (answer ≡ err not_found))
    ⊎ ((user.is_active ≡ false) × (answer ≡ err access))
    ⊎ ((user.is_active ≡ true)
        × (follows is user.id company ≡ false)
        × (p.watchlist_company_limit ≤ count (is_owned user.id) is)
        × (answer ≡ err (limit_reached "watchlist_company" p.watchlist_company_limit)))
    ⊎ ((user.is_active ≡ true)
        × ((o : ItemOut) × (is' : List Item) × (answer ≡ ok (o, is'))
            × Added p.watchlist_company_limit user.id company is is'))
