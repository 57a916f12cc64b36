-- ===== src/Budget/Calls.antt =====
-- `reserve`, `dispatch`, `settle` and `recover`, on the rows of the ledger. Each is one transaction
-- (the advisory lock of `_lock` serialises them), so a step takes the ledger and gives the next one;
-- an exception leaves what was committed before it. Counts are naturals: a negative one raises the
-- error of the guard that tests it, and is `none` where the code tests the type as well.
use Prim.Native.String.{◌++◌ as append}
use dealflow_radar.Common.{
  ℕ, ◌*◌, ◌^◌, String, Option, none, some, Bool, true, false, not, ◌&&◌, ◌||◌, List, ◌∷◌, map, any,
  ltb, ◌==◌, is_text, same_text, is_number, is_given, or_text, if◌then◌else◌, Result, ok, err,
  ◌>>=◌, ◌>>◌, guard,
}
use dealflow_radar.Budget.Rows.{
  UsageState, reserved, in_flight, settled, uncertain, released, CostStatus, unknown, estimated,
  actual, confirmed_free, Audit, Row, scope, find_key, find_id, store,
}
use dealflow_radar.Budget.Admission.{
  Policy, Error, deferred, invalid, missing_row, type_error, price_unknown, cancelled, already,
  reservation_counts, key_reused, unit_price, settlement_counts, conflicting_settlement,
  only_dispatched, Limits, check,
}

-- A `Decimal` argument: a number of millionths, or one that the guards refuse (infinite, not a
-- number, negative, or with more than six decimals).
pub data Decimal : Type 0 where
  millionths : ℕ → Decimal
  unusable : Decimal

-- The arguments of `reserve`.
pub record Call : Type 0 where
  pub tenant_id : ℕ
  pub task_key : String
  pub subject : String
  pub company_id : Option ℕ
  pub provider : String
  pub operation : String
  pub token : String
  pub calls : ℕ
  pub price : Option Decimal
  pub task_limit : ℕ
  pub task_baseline : ℕ

unfoldable pub call_key : (String → String) → Call → String
call_key sha256 c = sha256 (append c.task_key (append ":" c.token))

unfoldable pub same_call : Call → Row → Bool
same_call c r =
    same_text r.provider c.provider
    && same_text r.operation c.operation
    && is_text c.subject r.subject_key
    && (r.reserved_calls == c.calls)

-- `row.usage_state != "reserved"`
unfoldable pub still_reserved : UsageState → Result Error (Unit {0})
still_reserved reserved = ok tt
still_reserved s = err (deferred (already s))

known_upper_bound : Option ℕ → Result Error ℕ
known_upper_bound none = err (deferred price_unknown)
known_upper_bound (some u) = if u == 0 then err (deferred price_unknown) else ok u

-- The price that the reservation is made at.
unfoldable pub upper_price : Policy → Option Decimal → Result Error ℕ
unfolding known_upper_bound
upper_price p none = known_upper_bound p.cost.unknown_price_upper_bound
upper_price p (some (millionths n)) = ok n
upper_price p (some unusable) = err (invalid unit_price)

quoted : Option Decimal → Option ℕ
quoted (some (millionths n)) = some n
quoted _ = none

unfoldable pub call_limits : ℕ → Policy → Call → Limits
call_limits now p c = record {
  now = now;
  policy = p;
  task_limit = c.task_limit;
  task_baseline = c.task_baseline;
}

unfoldable pub new_row : ℕ → ℕ → Policy → Call → String → ℕ → Row
unfolding quoted
new_row fresh now p c key upper = record {
  id = fresh;
  tenant_id = c.tenant_id;
  company_id = c.company_id;
  provider = c.provider;
  operation = c.operation;
  external_calls = none;
  input_tokens = 0;
  output_tokens = 0;
  estimated_cost = none;
  cost_status = unknown;
  usage_state = reserved;
  quota_scope = some scope;
  task_key = some c.task_key;
  subject_key = some c.subject;
  reserved_calls = c.calls;
  reserved_cost = some (upper * c.calls);
  quoted_unit_price = quoted c.price;
  pricing_version = some p.cost.version;
  dispatched_at = none;
  settled_at = none;
  created_at = now;
  metrics = record {
    task_limit = c.task_limit;
    task_baseline = c.task_baseline;
    settlement_receipt = none;
    reservation_exceeded = false;
    reconciliation = none;
  };
  idempotency_key = key;
}

-- The branch of `reserve` for a key that the ledger has.
unfoldable pub admit_again : Limits → Call → Row → List Row → Result Error Row
admit_again l c row rows = do
  guard (same_call c row) (invalid key_reused)
  still_reserved row.usage_state
  check l row (some row.id) rows
  ok row

-- The branch for a new key: the row to add.
unfoldable pub admit_new : ℕ → ℕ → Policy → Call → String → List Row → Result Error Row
admit_new fresh now p c key rows = do
  upper ← upper_price p c.price
  check (call_limits now p c) (new_row fresh now p c key upper) none rows
  ok (new_row fresh now p c key upper)

unfoldable pub add_row : Result Error Row → List Row → Result Error Row × List Row
add_row (ok row) rows = (ok row, row ∷ rows)
add_row (err e) rows = (err e, rows)

unfoldable pub reserve_key :
    Option Row → ℕ → ℕ → Policy → Call → String → List Row → Result Error Row × List Row
reserve_key (some row) fresh now p c key rows = (admit_again (call_limits now p c) c row rows, rows)
reserve_key none fresh now p c key rows = add_row (admit_new fresh now p c key rows) rows

-- `reserve`; `fresh` is the `uuid4` that the new row gets.
unfoldable pub reserve :
    (String → String) → ℕ → ℕ → Policy → Call → List Row → Result Error Row × List Row
reserve sha256 fresh now p c rows =
    if c.calls == 0
    then (err (invalid reservation_counts), rows)
    else reserve_key (find_key (call_key sha256 c) rows) fresh now p c (call_key sha256 c) rows

unfoldable pub release_row : ℕ → Row → Row
release_row now r = record r {
  usage_state = released;
  external_calls = some 0;
  estimated_cost = some 0;
  cost_status = confirmed_free;
  settled_at = some now;
}

unfoldable pub send_row : ℕ → Row → Row
send_row now r = record r { usage_state = in_flight; dispatched_at = some now }

unfoldable pub row_limits : ℕ → Policy → Row → Limits
row_limits now p r = record {
  now = now;
  policy = p;
  task_limit = r.metrics.task_limit;
  task_baseline = r.metrics.task_baseline;
}

send : Result Error (Unit {0}) → ℕ → Row → List Row → Result Error (Unit {0}) × List Row
send (err e) now r rows = (err e, rows)
send (ok _) now r rows = (ok tt, store (send_row now r) rows)

unfoldable pub dispatch_row :
    Option Row → ℕ → Policy → Bool → List Row → Result Error (Unit {0}) × List Row
unfolding send
dispatch_row none now p stop rows = (err missing_row, rows)
dispatch_row (some r) now p stop rows = elim (still_reserved r.usage_state) [
  | err e ↦ (err e, rows)
  | ok _ ↦
      if stop
      then (err (deferred cancelled), store (release_row now r) rows)
      else send (check (row_limits now p r) r (some r.id) rows) now r rows
]

-- `dispatch`; `stop` is the answer of `cancelled()`.
unfoldable pub dispatch : ℕ → ℕ → Policy → Bool → List Row → Result Error (Unit {0}) × List Row
unfolding dispatch_row
dispatch k now p stop rows = dispatch_row (find_id k rows) now p stop rows

-- An actual cost that can be stored: below 10^12 yuan.
unfoldable pub storable_cost : Decimal → Bool
storable_cost unusable = false
storable_cost (millionths n) = ltb n (10 ^ 18)

valid_cost : Option Decimal → Option String → Bool
valid_cost none receipt = true
valid_cost (some d) receipt = storable_cost d && is_given receipt

cost_value : Option Decimal → Option ℕ
cost_value (some (millionths n)) = some n
cost_value _ = none

-- `actual_cost is not None and row.estimated_cost != actual_cost`
differs_from : Option ℕ → Option ℕ → Bool
differs_from none cost = false
differs_from (some a) cost = not (is_number a cost)

estimate : Option ℕ → ℕ → Option ℕ × CostStatus
estimate none calls = (none, unknown)
estimate (some price) calls = (some (price * calls), estimated)

-- The cost and its status after a settlement.
unfoldable pub settled_cost : Option ℕ → ℕ → Option ℕ → Option ℕ × CostStatus
unfolding estimate
settled_cost (some a) calls price = (some a, actual)
settled_cost none calls price =
    if (calls == 0) || is_number 0 price then (some 0, confirmed_free) else estimate price calls

-- `row.estimated_cost is not None and row.estimated_cost > row.reserved_cost`; `none` is the
-- `TypeError` of a comparison with None.
unfoldable pub over_cost : Option ℕ → Option ℕ → Option Bool
over_cost none limit = some false
over_cost (some c) none = none
over_cost (some c) (some limit) = some (ltb limit c)

unfoldable pub over_reservation : Row → ℕ → Option ℕ → Option Bool
unfolding over_cost
over_reservation r calls cost =
    if ltb r.reserved_calls calls then some true else over_cost cost r.reserved_cost

keep_audit : Option Audit → Option Audit → Option Audit
keep_audit none old = old
keep_audit (some a) old = some a

unfoldable pub settle_row :
    ℕ → ℕ → Option ℕ × CostStatus → Option String → Option Audit → Bool → Row → Row
unfolding keep_audit
settle_row now calls (cost, status) receipt audit exceeded r = record r {
  external_calls = some calls;
  usage_state = settled;
  settled_at = some now;
  estimated_cost = cost;
  cost_status = status;
  metrics = record {
    task_limit = r.metrics.task_limit;
    task_baseline = r.metrics.task_baseline;
    settlement_receipt = or_text receipt r.metrics.settlement_receipt;
    reservation_exceeded = exceeded || r.metrics.reservation_exceeded;
    reconciliation = keep_audit audit r.metrics.reconciliation;
  };
}

finish :
    Option Bool
    → ℕ
    → ℕ
    → Option ℕ × CostStatus
    → Option String
    → Option Audit
    → Row
    → Result Error Row
finish none now calls cost receipt audit r = err type_error
finish (some exceeded) now calls cost receipt audit r =
    ok (settle_row now calls cost receipt audit exceeded r)

settle_sent : ℕ → ℕ → Option ℕ → Option String → Option Audit → Row → Result Error Row
unfolding finish
settle_sent now calls cost receipt audit r =
    let c = settled_cost cost calls r.quoted_unit_price in
    finish (over_reservation r calls c.0) now calls c receipt audit r

settle_again : ℕ → Option ℕ → Row → Result Error Row
unfolding differs_from
settle_again calls cost r =
    if not (is_number calls r.external_calls) || differs_from cost r.estimated_cost
    then err (invalid conflicting_settlement)
    else ok r

settle_state : UsageState → ℕ → ℕ → Option ℕ → Option String → Option Audit → Row → Result Error Row
unfolding settle_sent settle_again
settle_state settled now calls cost receipt audit r = settle_again calls cost r
settle_state in_flight now calls cost receipt audit r = settle_sent now calls cost receipt audit r
settle_state uncertain now calls cost receipt audit r = settle_sent now calls cost receipt audit r
settle_state _ now calls cost receipt audit r = err (invalid only_dispatched)

-- The row that a settlement leaves, by the row that `refresh` read.
unfoldable pub settled_row :
    Option ℕ → Option Decimal → Option String → Option Audit → ℕ → Row → Result Error Row
unfolding settle_state valid_cost cost_value
settled_row none cost receipt audit now r = err (invalid settlement_counts)
settled_row (some calls) cost receipt audit now r =
    if valid_cost cost receipt
    then settle_state r.usage_state now calls (cost_value cost) receipt audit r
    else err (invalid settlement_counts)

write_row : Result Error Row → List Row → Result Error (Unit {0}) × List Row
write_row (err e) rows = (err e, rows)
write_row (ok r) rows = (ok tt, store r rows)

unfoldable pub settle_found :
    Option Row
    → Option ℕ
    → Option Decimal
    → Option String
    → Option Audit
    → ℕ
    → List Row
    → Result Error (Unit {0}) × List Row
unfolding write_row
settle_found none calls cost receipt audit now rows = (err missing_row, rows)
settle_found (some r) calls cost receipt audit now rows =
    write_row (settled_row calls cost receipt audit now r) rows

-- `settle`; `calls` is `none` where it is no count, `audit` the entry that a reconciliation adds.
unfoldable pub settle :
    ℕ
    → Option ℕ
    → Option Decimal
    → Option String
    → Option Audit
    → ℕ
    → List Row
    → Result Error (Unit {0}) × List Row
unfolding settle_found
settle k calls cost receipt audit now rows =
    settle_found (find_id k rows) calls cost receipt audit now rows

-- The rows of a task.
unfoldable pub is_task : String → Row → Bool
is_task task r = is_text scope r.quota_scope && is_text task r.task_key

-- `usage_state in ("in_flight", "uncertain")`
abbrev pub is_sent : UsageState → Bool
is_sent in_flight = true
is_sent uncertain = true
is_sent _ = false

recover_state : UsageState → ℕ → Bool → Row → Row
unfolding release_row
recover_state reserved now stop r = if stop then release_row now r else r
recover_state in_flight now stop r = record r { usage_state = uncertain }
recover_state uncertain now stop r = record r { usage_state = uncertain }
recover_state _ now stop r = r

unfoldable pub recover_row : String → ℕ → Bool → Row → Row
unfolding recover_state
recover_row task now stop r = if is_task task r then recover_state r.usage_state now stop r else r

-- `recover`: whether calls of unknown outcome are left, and the ledger.
unfoldable pub recover : String → ℕ → Bool → List Row → Bool × List Row
recover task now stop rows =
    (any (λ r. is_task task r && is_sent r.usage_state) rows, map (recover_row task now stop) rows)
