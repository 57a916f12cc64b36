-- ===== src/Budget/Rows.antt =====
-- The columns of `UsageLedger` (backend/app/models.py) that web_research_budget.py reads or writes,
-- with the charge of a row. Money is a number of millionths of a yuan: the policy and every
-- settlement admit six decimals at most.
use dealflow_radar.Common.{
  ℕ, ◌+◌, String, Option, none, some, Bool, true, false, ◌&&◌, ◌||◌, List, [], ◌∷◌, leb, ltb, ◌==◌,
  is_text, or_else, if◌then◌else◌,
}

pub data UsageState : Type 0 where
  legacy reserved in_flight settled uncertain released : UsageState

pub data CostStatus : Type 0 where
  unknown estimated actual confirmed_free : CostStatus

-- The audit entry that a reconciliation stores.
pub record Audit : Type 0 where
  pub previous_state : UsageState
  pub previous_cost_status : CostStatus
  pub previous_calls : Option ℕ
  pub previous_amount : Option ℕ
  pub operator_id : ℕ
  pub reason : String
  pub at : ℕ

-- The keys of the JSON column `metrics` that the module itself reads or writes.
pub record Metrics : Type 0 where
  pub task_limit : ℕ
  pub task_baseline : ℕ
  pub settlement_receipt : Option String
  pub reservation_exceeded : Bool
  pub reconciliation : Option Audit

pub record Row : Type 0 where
  pub id : ℕ
  pub tenant_id : ℕ
  pub company_id : Option ℕ
  pub provider : String
  pub operation : String
  pub external_calls : Option ℕ
  pub input_tokens : ℕ
  pub output_tokens : ℕ
  pub estimated_cost : Option ℕ
  pub cost_status : CostStatus
  pub usage_state : UsageState
  pub quota_scope : Option String
  pub task_key : Option String
  pub subject_key : Option String
  pub reserved_calls : ℕ
  pub reserved_cost : Option ℕ
  pub quoted_unit_price : Option ℕ
  pub pricing_version : Option String
  pub dispatched_at : Option ℕ
  pub settled_at : Option ℕ
  pub created_at : ℕ
  pub metrics : Metrics
  pub idempotency_key : String

-- `SCOPE`
abbrev pub scope : String
scope = "platform_web"

-- `HELD`
abbrev pub held : UsageState → Bool
held reserved = true
held in_flight = true
held uncertain = true
held _ = false

-- `in SEARCH_PROVIDERS`
unfoldable pub is_search_provider : String → Bool
is_search_provider p =
    is_text "web_search_baidu" (some p)
    || is_text "web_search_bocha" (some p)
    || is_text "web_search_tavily" (some p)

unfoldable pub is_search : String → Bool
is_search operation = is_text "company_discovery" (some operation)

-- `platform_usage`
unfoldable pub platform_usage : Row → Bool
unfolding is_search_provider is_search
platform_usage r =
    is_text scope r.quota_scope || (is_search_provider r.provider && is_search r.operation)

charge_of : UsageState → ℕ → Option ℕ → ℕ
charge_of reserved calls external = calls
charge_of in_flight calls external = calls
charge_of uncertain calls external = calls
charge_of released calls external = 0
charge_of _ calls external = or_else external 0

-- `charged_calls`
unfoldable pub charged_calls : Row → ℕ
unfolding charge_of
charged_calls r = charge_of r.usage_state r.reserved_calls r.external_calls

-- `_window`
unfoldable pub in_window : ℕ → Row → Bool
in_window since r = held r.usage_state || leb since (or_else r.dispatched_at r.created_at)

is_priced : CostStatus → Bool
is_priced actual = true
is_priced confirmed_free = true
is_priced _ = false

is_positive : Option ℕ → Bool
is_positive none = false
is_positive (some n) = ltb 0 n

settled_amount : CostStatus → Option ℕ → Option ℕ → Option ℕ
settled_amount unknown reserved_cost cost = reserved_cost
settled_amount _ reserved_cost cost = cost

amount_of : UsageState → CostStatus → Option ℕ → Option ℕ → Option ℕ
unfolding is_priced is_positive settled_amount
amount_of released status reserved_cost cost = some 0
amount_of reserved status reserved_cost cost = reserved_cost
amount_of in_flight status reserved_cost cost = reserved_cost
amount_of uncertain status reserved_cost cost = reserved_cost
amount_of legacy status reserved_cost cost =
    if is_positive cost || is_priced status then cost else none
amount_of settled status reserved_cost cost = settled_amount status reserved_cost cost

-- The `case` expression `amount` of `_check`; `none` is SQL's NULL.
unfoldable pub amount : Row → Option ℕ
unfolding amount_of
amount r = amount_of r.usage_state r.cost_status r.reserved_cost r.estimated_cost

-- `UsageLedger.id != row.id`, where the row is in the ledger already.
abbrev pub other : Option ℕ → Row → Bool
other none r = true
other (some k) r = if r.id == k then false else true

-- `coalesce(sum(charged_calls()), 0)` over the rows that pass a test.
unfoldable pub sum_calls : (Row → Bool) → List Row → ℕ
sum_calls p [] = 0
sum_calls p (r ∷ rs) = (if p r then charged_calls r else 0) + sum_calls p rs

abbrev pub add_amount : Option ℕ → Option ℕ → Option ℕ
add_amount none b = none
add_amount (some a) none = none
add_amount (some a) (some b) = some (a + b)

-- The sum of the amounts of the rows that pass a test; `none` where one of them is unpriced.
unfoldable pub sum_amounts : (Row → Bool) → List Row → Option ℕ
sum_amounts p [] = some 0
sum_amounts p (r ∷ rs) =
    let rest = sum_amounts p rs in if p r then add_amount (amount r) rest else rest

-- `session.scalar(select(UsageLedger).where(idempotency_key == key))`; the column is unique.
unfoldable pub find_key : String → List Row → Option Row
find_key k [] = none
find_key k (r ∷ rs) = if is_text k (some r.idempotency_key) then some r else find_key k rs

-- `session.get(UsageLedger, id)`, and the read of `session.refresh(row)`.
unfoldable pub find_id : ℕ → List Row → Option Row
find_id k [] = none
find_id k (r ∷ rs) = if r.id == k then some r else find_id k rs

-- The flush of a changed row.
unfoldable pub store : Row → List Row → List Row
store r [] = []
store r (s ∷ rs) = if s.id == r.id then r ∷ rs else s ∷ store r rs
