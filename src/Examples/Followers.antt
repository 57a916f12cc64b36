-- ===== src/Examples/Followers.antt =====
-- A person who follows one company, and adds and removes companies.
use dealflow_radar.Common.{some, none, List, [], ◌∷◌}
use dealflow_radar.Personal.Catalog.{Company, Catalog}
use dealflow_radar.Personal.Watchlist.{Item}

abbrev pub company : Company
company = record {
  id = 5;
  tenant_id = none;
  visibility_scope = "public";
  identity_status = "verified";
  legal_name = "n";
  credit_code = some "c";
  registered_region = none;
  last_identity_checked_at = none;
}

abbrev pub catalog : Catalog
catalog = record { companies = company ∷ []; aliases = []; snapshots = [] }

abbrev items : List Item
items = record { id = 1; owner_user_id = 2; company_id = 4; created_at = 0 } ∷ []
