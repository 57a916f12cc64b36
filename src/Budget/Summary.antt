-- ===== src/Budget/Summary.antt =====
-- `summary`: the totals of one task. Amounts are numbers of millionths where the code prints them.
use dealflow_radar.Common.{
  ℕ, ◌+◌, ◌≡◌, refl, ◌≢◌, String, Option, none, some, Bool, true, false, not, ◌&&◌, ◌||◌, List, [],
  ◌∷◌, ◌==◌, arith, any, All, is_text, or_else, if◌then◌else◌, ◌⊎◌, Bool-cases, inl, inr,
}
use dealflow_radar.Budget.Rows.{Row, CostStatus, unknown, estimated, actual, confirmed_free, held}
use dealflow_radar.Budget.Calls.{is_sent, is_task}
use dealflow_radar.Budget.Soundness.{IsSound}

-- The total of a column over the rows that pass a test.
unfoldable pub total : (Row → Bool) → (Row → ℕ) → List Row → ℕ
total p f [] = 0
total p f (r ∷ rs) = (if p r then f r else 0) + total p f rs

abbrev pub is_unknown : CostStatus → Bool
is_unknown unknown = true
is_unknown _ = false

is_estimated : CostStatus → Bool
is_estimated estimated = true
is_estimated _ = false

is_actual : CostStatus → Bool
is_actual actual = true
is_actual _ = false

abbrev is_extraction : Row → Bool
is_extraction r = is_text "matter_extraction" (some r.operation)

-- `none`: the keys are absent; a key is `none` while an extraction's outcome is unknown.
pub data Tokens : Type 0 where
  absent pending : Tokens
  counted : ℕ → ℕ → Tokens

pub record Summary : Type 0 where
  pub tokens : Tokens
  pub status : CostStatus
  pub amount : Option ℕ
  pub known_subtotal : ℕ
  pub reserved_upper_bound : Option ℕ
  pub uncertain_calls : ℕ

tokens_of : String → List Row → Tokens
tokens_of task rows =
    if any (λ r. is_task task r && is_extraction r) rows
    then (if any (λ r. is_task task r && is_sent r.usage_state && is_extraction r) rows
        then pending
        else counted (total (is_task task) (λ r. r.input_tokens) rows)
            (total (is_task task) (λ r. r.output_tokens) rows))
    else absent

-- `bool(legacy_calls) or any(row.cost_status == "unknown")`
abbrev pub is_open : String → ℕ → List Row → Bool
is_open task legacy_calls rows =
    not (legacy_calls == 0) || any (λ r. is_task task r && is_unknown r.cost_status) rows

status_of : String → ℕ → List Row → CostStatus
unfolding is_estimated is_actual
status_of task legacy_calls rows =
    if is_open task legacy_calls rows
    then unknown
    else if any (λ r. is_task task r && is_estimated r.cost_status) rows
    then estimated
    else if any (λ r. is_task task r && is_actual r.cost_status) rows
    then actual
    else confirmed_free

-- The rows whose reserved cost is still held against the task.
abbrev pub is_liable : Row → Bool
is_liable r = held r.usage_state || is_unknown r.cost_status

unfoldable pub known_subtotal : String → List Row → ℕ
known_subtotal task rows = total (is_task task) (λ r. or_else r.estimated_cost 0) rows

unfoldable pub upper_bound : String → List Row → ℕ
upper_bound task rows =
    total (λ r. is_task task r && is_liable r) (λ r. or_else r.reserved_cost 0) rows

unfoldable pub uncertain_total : String → List Row → ℕ
uncertain_total task rows =
    total (λ r. is_task task r && is_sent r.usage_state) (λ r. r.reserved_calls) rows

unfoldable pub summary : String → ℕ → List Row → Summary
unfolding tokens_of status_of
summary task legacy_calls rows = record {
  tokens = tokens_of task rows;
  status = status_of task legacy_calls rows;
  amount = if is_open task legacy_calls rows then none else some (known_subtotal task rows);
  known_subtotal = known_subtotal task rows;
  reserved_upper_bound = if legacy_calls == 0 then some (upper_bound task rows) else none;
  uncertain_calls = uncertain_total task rows;
}

-- In a sound ledger with no unknown cost, nothing is held and nothing is uncertain.
closed :
    (task : String) (rows : List Row)
    → All IsSound rows
    → any (λ r. is_task task r && is_unknown r.cost_status) rows ≡ false
    → (upper_bound task rows ≡ 0) × (uncertain_total task rows ≡ 0)
unfolding upper_bound uncertain_total total
closed task [] a h = (refl, refl)
closed task (r ∷ rs) a h =
    let (b, u) = closed task rs a.1 (ground arith) in
    (
      omega (arith, b, settled_charge (λ x. or_else x.reserved_cost 0) is_liable liable),
      omega (arith, u, settled_charge (λ x. x.reserved_calls) (λ x. is_sent x.usage_state) sent),
    )
  where
    known : is_task task r ≡ true → is_unknown r.cost_status ≡ false
    known e = ground arith

    liable : is_task task r ≡ true → is_liable r ≡ false
    liable e = ground (arith, known e, a.0.open_unknown)

    sent : is_task task r ≡ true → is_sent r.usage_state ≡ false
    sent e = ground (arith, known e, a.0.open_unknown)

    settled_charge :
        (f : Row → ℕ) (p : Row → Bool)
        → (is_task task r ≡ true → p r ≡ false)
        → (if is_task task r && p r then f r else 0) ≡ 0
    settled_charge f p n = ground arith

-- The summary of a task in a sound ledger gives an amount only where every cost is known: then it is
-- the known subtotal, no call is of unknown outcome, nothing of a reservation is held any more, and
-- the status is not unknown. Otherwise the amount is absent and the status unknown.
summary_amount :
    (task : String) (legacy_calls : ℕ) (rows : List Row)
    → All IsSound rows
    → let s = summary task legacy_calls rows in
      ((s.amount ≡ none) × (s.status ≡ unknown))
      ⊎ ((s.amount ≡ some s.known_subtotal)
          × (s.uncertain_calls ≡ 0)
          × (s.reserved_upper_bound ≡ some 0)
          × (s.status ≢ unknown))
unfolding summary
summary_amount task legacy_calls rows a = elim (Bool-cases (is_open task legacy_calls rows)) [
  | inl e ↦ inl (ground arith, unfold status_of in ground arith)
  | inr e ↦ inr (
    ground arith,
    ground (arith, closed task rows a),
    ground (arith, closed task rows a),
    unfold status_of in ground arith,
  )
]
