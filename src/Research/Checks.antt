-- ===== src/Research/Checks.antt =====
-- `successful_topic_checks`, the checks that a new round takes over from earlier ones, and
-- `stored_completion`.
use dealflow_radar.Common.{
  ℕ, ◌+◌, ◌*◌, String, Option, none, some, Bool, true, false, ◌||◌, List, [], ◌∷◌, map, all, ltb,
  if◌then◌else◌,
}
use dealflow_radar.Common.Calendar.{day}
use dealflow_radar.Research.Data.{Texts, Route, Coverage, topics, planned}
use dealflow_radar.Research.Completion.{
  RowStatus, Row, later_of, row, completion_projection, Completion,
}

unfoldable pub has_routes : List Route → Bool
has_routes [] = false
has_routes (r ∷ rs) = true

-- `checks.get(category)` of `successful_topic_checks(histories)`
unfoldable pub topic_check : Texts → String → List Coverage → Option ℕ
topic_check x category [] = none
topic_check x category (h ∷ hs) =
    let rest = topic_check x category hs in
    if planned h || has_routes h.source_routes
    then later_of (row x h category).last_successful_check_at rest
    else rest

unfoldable pub add_check :
    Texts → String → Option ℕ → List (String × String) → List (String × String)
add_check x c none rest = rest
add_check x c (some t) rest = (c, x.isoformat t) ∷ rest

-- `coverage["previous_successful_checks"]` of a new round.
unfoldable pub stored_from : Texts → List Coverage → List String → List (String × String)
stored_from x hs [] = []
stored_from x hs (c ∷ cs) = add_check x c (topic_check x c hs) (stored_from x hs cs)

unfoldable pub previous_successful_checks : Texts → List Coverage → List (String × String)
previous_successful_checks x hs = stored_from x hs topics

unfoldable pub is_fresh : ℕ → ℕ → Option ℕ → Bool
is_fresh ttl_days now none = false
is_fresh ttl_days now (some t) = ltb now (t + ttl_days * day)

-- `fresh`: every topic has a check within the time to live.
unfoldable pub all_fresh : Texts → ℕ → ℕ → List Coverage → Bool
all_fresh x ttl_days now hs = all (λ c. is_fresh ttl_days now (topic_check x c hs)) topics

-- A row of `stored_completion(coverage)["categories"]`
pub record StoredRow : Type 0 where
  pub category : String
  pub is_planned : Bool
  pub status : RowStatus
  pub last_attempt_at : Option String
  pub last_successful_check_at : Option String
  pub failure_class : Option String
  pub acquisition : String

unfoldable pub stored_time : Texts → Option ℕ → Option String
stored_time x none = none
stored_time x (some t) = some (x.isoformat t)

unfoldable pub stored_row : Texts → Row → StoredRow
stored_row x r = record {
  category = r.category;
  is_planned = r.is_planned;
  status = r.status;
  last_attempt_at = stored_time x r.last_attempt_at;
  last_successful_check_at = stored_time x r.last_successful_check_at;
  failure_class = r.failure_class;
  acquisition = r.acquisition;
}

unfoldable pub stored_completion : Texts → Coverage → Completion × List StoredRow
stored_completion x c =
    let result = completion_projection x c in (result, map (stored_row x) result.categories)
