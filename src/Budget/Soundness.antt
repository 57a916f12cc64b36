-- ===== src/Budget/Soundness.antt =====
-- A ledger row under `reserve`, `dispatch`, `settle` and `recover`.
use dealflow_radar.Common.{
  ℕ, ◌*◌, ◌<◌, ◌≡◌, refl, ◌≢◌, String, Option, none, some, Bool, true, arith, inl, inr, ◌⊎◌, ◌∙◌,
  ok, sym,
}
use dealflow_radar.Budget.Rows.{
  Row, legacy, reserved, settled, uncertain, released, unknown, confirmed_free, held, Audit,
}
use dealflow_radar.Budget.Admission.{Policy}
use dealflow_radar.Budget.Calls.{
  Call, Decimal, new_row, release_row, send_row, settle_row, settled_row, over_reservation,
  settled_cost, recover_row, is_sent,
}

-- What every row of the platform's calls satisfies between two transactions.
pub record IsSound (r : Row) : Type 0 where
  -- a call whose outcome is open has no confirmed count or cost, and keeps its reserved cost
  pub open_unknown :
      held r.usage_state ≡ true
      → (r.external_calls ≡ none) × (r.estimated_cost ≡ none) × (r.cost_status ≡ unknown)
  pub open_reserved : r.usage_state ≢ legacy → (cost : ℕ) × (r.reserved_cost ≡ some cost)
  -- a call was dispatched exactly where it may have been made
  pub sent_dispatched : is_sent r.usage_state ≡ true → (t : ℕ) × (r.dispatched_at ≡ some t)
  pub reserved_unsent : r.usage_state ≡ reserved → r.dispatched_at ≡ none
  pub settled_dispatched : r.usage_state ≡ settled → (t : ℕ) × (r.dispatched_at ≡ some t)
  -- a released call was never made and costs nothing
  pub released_free :
      r.usage_state ≡ released
      → (r.external_calls ≡ some 0)
        × (r.estimated_cost ≡ some 0)
        × (r.cost_status ≡ confirmed_free)
        × (r.dispatched_at ≡ none)
  -- a settled call has its count, and more calls or a higher cost than reserved leave a mark
  pub settled_counted : r.usage_state ≡ settled → (n : ℕ) × (r.external_calls ≡ some n)
  pub excess_marked :
      (n : ℕ)
      → r.usage_state ≡ settled
      → r.external_calls ≡ some n
      → r.reserved_calls < n
      → r.metrics.reservation_exceeded ≡ true
  pub cost_excess_marked :
      (cost limit : ℕ)
      → r.usage_state ≡ settled
      → r.estimated_cost ≡ some cost
      → r.reserved_cost ≡ some limit
      → limit < cost
      → r.metrics.reservation_exceeded ≡ true

pub new_row-IsSound :
    (fresh now : ℕ) (p : Policy) (c : Call) (key : String) (upper : ℕ)
    → IsSound (new_row fresh now p c key upper)
unfolding new_row
new_row-IsSound fresh now p c key upper = record {
  open_unknown = λ _. (refl, refl, refl);
  open_reserved = λ _. (upper * c.calls, refl);
  sent_dispatched = λ h. cc;
  reserved_unsent = λ _. refl;
  settled_dispatched = λ h. cc;
  released_free = λ h. cc;
  settled_counted = λ h. cc;
  excess_marked = λ n h. cc;
  cost_excess_marked = λ a b h. cc;
}

pub release_row-IsSound :
    (now : ℕ) (r : Row) → r.usage_state ≡ reserved → IsSound r → IsSound (release_row now r)
unfolding release_row
release_row-IsSound now r s h = record {
  open_unknown = λ q. cc;
  open_reserved = λ _. h.open_reserved (λ q. cc);
  sent_dispatched = λ q. cc;
  reserved_unsent = λ q. cc;
  settled_dispatched = λ q. cc;
  released_free = λ _. (refl, refl, refl, h.reserved_unsent s);
  settled_counted = λ q. cc;
  excess_marked = λ n q. cc;
  cost_excess_marked = λ a b q. cc;
}

pub send_row-IsSound :
    (now : ℕ) (r : Row) → r.usage_state ≡ reserved → IsSound r → IsSound (send_row now r)
unfolding send_row
send_row-IsSound now r s h = record {
  open_unknown = λ _. h.open_unknown (rw s);
  open_reserved = λ _. h.open_reserved (λ q. cc);
  sent_dispatched = λ _. (now, refl);
  reserved_unsent = λ q. cc;
  settled_dispatched = λ q. cc;
  released_free = λ q. cc;
  settled_counted = λ q. cc;
  excess_marked = λ n q. cc;
  cost_excess_marked = λ a b q. cc;
}

-- What a settlement does to a row that was sent: `calls` calls, at the cost that the arguments and
-- the quoted price give, with a mark where that exceeds the reservation.
abbrev pub IsSettlement : ℕ → Row → Row → Type 0
IsSettlement calls r r' =
    (is_sent r.usage_state ≡ true)
    × (r'.usage_state ≡ settled)
    × (r'.external_calls ≡ some calls)
    × (r'.reserved_cost ≡ r.reserved_cost)
    × (r'.dispatched_at ≡ r.dispatched_at)
    × (r.reserved_calls < calls → r'.metrics.reservation_exceeded ≡ true)
    × ((cost limit : ℕ)
        → r'.estimated_cost ≡ some cost
        → r.reserved_cost ≡ some limit
        → limit < cost
        → r'.metrics.reservation_exceeded ≡ true)

-- The row keeps what says which call it is.
abbrev pub SameCall : Row → Row → Type 0
SameCall r r' =
    (r'.id ≡ r.id)
    × (r'.quota_scope ≡ r.quota_scope)
    × (r'.task_key ≡ r.task_key)
    × (r'.operation ≡ r.operation)
    × (r'.reserved_calls ≡ r.reserved_calls)

pub settled_row_ok :
    (n : ℕ) (cost : Option Decimal) (receipt : Option String) (audit : Option Audit) (now : ℕ)
    (r r' : Row)
    → settled_row (some n) cost receipt audit now r ≡ ok r'
    → ((r.usage_state ≡ settled) × (r' ≡ r)) ⊎ (IsSettlement n r r' × SameCall r r')
unfolding settled_row settle_row over_reservation settled_cost
settled_row_ok n cost receipt audit now r r' h = ground arith

settlement-IsSound :
    (n : ℕ) (r r' : Row) → IsSettlement n r r' → SameCall r r' → IsSound r → IsSound r'
settlement-IsSound n r r' (sent, s, e, rc, d, over, over_cost) (_, _, _, _, calls) h = record {
  open_unknown = λ q. cc;
  open_reserved = λ _. rw rc (h.open_reserved (λ q. cc));
  sent_dispatched = λ q. cc;
  reserved_unsent = λ q. cc;
  settled_dispatched = λ _. rw d (h.sent_dispatched sent);
  released_free = λ q. cc;
  settled_counted = λ _. (n, e);
  excess_marked = λ m _ e' lt. over (ground arith);
  cost_excess_marked = λ cost limit _ c l lt. over_cost cost limit c (sym rc ∙ l) lt;
}

pub settled_row-IsSound :
    (calls : Option ℕ) (cost : Option Decimal) (receipt : Option String) (audit : Option Audit)
    (now : ℕ) (r r' : Row)
    → settled_row calls cost receipt audit now r ≡ ok r'
    → IsSound r
    → IsSound r'
settled_row-IsSound none cost receipt audit now r r' e h =
    absurd (unfold settled_row in ground arith)
settled_row-IsSound (some n) cost receipt audit now r r' e h =
    elim (settled_row_ok n cost receipt audit now r r' e) [
      | inl (_, same) ↦ rw same h
      | inr (s, c) ↦ settlement-IsSound n r r' s c h
    ]

uncertain-IsSound :
    (r : Row)
    → is_sent r.usage_state ≡ true
    → IsSound r
    → IsSound (record r { usage_state = uncertain })
uncertain-IsSound r s h = record {
  open_unknown = λ _. h.open_unknown (ground arith);
  open_reserved = λ _. h.open_reserved (λ q. ground arith);
  sent_dispatched = λ _. h.sent_dispatched s;
  reserved_unsent = λ q. cc;
  settled_dispatched = λ q. cc;
  released_free = λ q. cc;
  settled_counted = λ q. cc;
  excess_marked = λ n q. cc;
  cost_excess_marked = λ a b q. cc;
}

-- `recover` leaves a row, releases a reserved one, or makes the outcome of a sent one uncertain.
pub recover_row_cases :
    (task : String) (now : ℕ) (stop : Bool) (r : Row)
    → (recover_row task now stop r ≡ r)
      ⊎ ((r.usage_state ≡ reserved)
          × (stop ≡ true)
          × (recover_row task now stop r ≡ release_row now r))
      ⊎ ((is_sent r.usage_state ≡ true)
          × (recover_row task now stop r ≡ record r { usage_state = uncertain }))
unfolding recover_row
recover_row_cases task now stop r = ground arith

pub recover_row-IsSound :
    (task : String) (now : ℕ) (stop : Bool) (r : Row)
    → IsSound r
    → IsSound (recover_row task now stop r)
recover_row-IsSound task now stop r h = elim (recover_row_cases task now stop r) [
  | inl e ↦ rw e h
  | inr (inl (s, _, e)) ↦ rw e (release_row-IsSound now r s h)
  | inr (inr (s, e)) ↦ rw e (uncertain-IsSound r s h)
]
