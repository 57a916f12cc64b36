-- ===== src/Budget/Traces.antt =====
-- Sequences of the transactions `reserve`, `dispatch`, `settle` and `recover`.
use dealflow_radar.Common.{
  ℕ, ◌≡◌, refl, String, Option, none, some, Bool, List, [], ◌∷◌, ◌==◌, arith, Bool-cases,
  Option-cases, inl, inr, ◌⊎◌, Result-cases, ok, map, All,
}
use mathlib.Core.Path.{subst}
use dealflow_radar.Budget.Rows.{Row, reserved, find_id, find_key, store, Audit}
use dealflow_radar.Budget.Admission.{Policy, check}
use dealflow_radar.Budget.Sums.{Absent}
use dealflow_radar.Budget.Calls.{
  Call, Decimal, call_limits, new_row, admit_new, add_row, reserve_key, reserve, call_key,
  release_row, send_row, still_reserved, row_limits, dispatch_row, dispatch, settled_row,
  settle_found, settle, recover_row, recover,
}
use dealflow_radar.Budget.Reservations.{admit_new_ok}
use dealflow_radar.Budget.Soundness.{
  IsSound, new_row-IsSound, release_row-IsSound, send_row-IsSound, settled_row-IsSound,
  recover_row-IsSound,
}

-- One transaction; a new row's id is fresh.
pub data Step (sha256 : String → String) : List Row → List Row → Type 0 where
  reserves :
      (fresh now : ℕ) (p : Policy) (c : Call) (rows : List Row)
      → Absent fresh rows
      → Step sha256 rows (reserve sha256 fresh now p c rows).1
  dispatches :
      (k now : ℕ) (p : Policy) (stop : Bool) (rows : List Row)
      → Step sha256 rows (dispatch k now p stop rows).1
  settles :
      (k : ℕ) (calls : Option ℕ) (cost : Option Decimal) (receipt : Option String)
      (audit : Option Audit) (now : ℕ) (rows : List Row)
      → Step sha256 rows (settle k calls cost receipt audit now rows).1
  recovers :
      (task : String) (now : ℕ) (stop : Bool) (rows : List Row)
      → Step sha256 rows (recover task now stop rows).1

pub data Reach (sha256 : String → String) (s : List Row) : List Row → Type 0 where
  here : Reach sha256 s s
  next : {t u : List Row} → Reach sha256 s t → Step sha256 t u → Reach sha256 s u

-- What `reserve` leaves: the ledger as it was, or with a new admitted row.
pub reserve_cases :
    (sha256 : String → String) (fresh now : ℕ) (p : Policy) (c : Call) (rows : List Row)
    → ((reserve sha256 fresh now p c rows).1 ≡ rows)
      ⊎ ((upper : ℕ) × ((reserve sha256 fresh now p c rows).1
            ≡ new_row fresh now p c (call_key sha256 c) upper ∷ rows)
          × (check (call_limits now p c) (new_row fresh now p c (call_key sha256 c) upper) none rows
              ≡ ok tt))
unfolding reserve
reserve_cases sha256 fresh now p c rows = elim (Bool-cases (c.calls == 0)) [
  | inl e ↦ inl (rw e)
  | inr e ↦ rw e (by_key (find_key (call_key sha256 c) rows))
]
  where
    key : String
    key = call_key sha256 c

    by_key :
        (found : Option Row)
        → ((reserve_key found fresh now p c key rows).1 ≡ rows)
          ⊎ ((upper : ℕ) × ((reserve_key found fresh now p c key rows).1
                ≡ new_row fresh now p c key upper ∷ rows)
              × (check (call_limits now p c) (new_row fresh now p c key upper) none rows ≡ ok tt))
    by_key (some old) = inl (unfold reserve_key in refl)
    by_key none = elim (Result-cases (admit_new fresh now p c key rows)) [
      | inl (row, e) ↦
          let (upper, same, passed) = admit_new_ok fresh now p c key rows row e in
          inr (upper, (unfold reserve_key add_row in rw (e, same)), passed)
      | inr (x, e) ↦ inl (unfold reserve_key add_row in rw e)
    ]

dispatch_row_cases :
    (r : Row) (now : ℕ) (p : Policy) (stop : Bool) (rows : List Row)
    → ((dispatch_row (some r) now p stop rows).1 ≡ rows)
      ⊎ ((x : Row) × (some r ≡ some x)
          × (x.usage_state ≡ reserved)
          × (((dispatch_row (some r) now p stop rows).1 ≡ store (release_row now x) rows)
              ⊎ ((dispatch_row (some r) now p stop rows).1 ≡ store (send_row now x) rows)))
unfolding dispatch_row still_reserved
dispatch_row_cases r now p stop rows = elim (Result-cases (still_reserved r.usage_state)) [
  | inl (a, e) ↦ elim (Bool-cases stop) [
    | inl t ↦ inr (r, refl, ground arith, inl (ground arith))
    | inr f ↦ elim (Result-cases (check (row_limits now p r) r (some r.id) rows)) [
      | inl (b, g) ↦ inr (r, refl, ground arith, inr (ground arith))
      | inr (x, g) ↦ inl (ground arith)
    ]
  ]
  | inr (x, e) ↦ inl (ground arith)
]

-- What `dispatch` leaves.
pub dispatch_cases :
    (k now : ℕ) (p : Policy) (stop : Bool) (rows : List Row)
    → ((dispatch k now p stop rows).1 ≡ rows)
      ⊎ ((r : Row) × (find_id k rows ≡ some r)
          × (r.usage_state ≡ reserved)
          × (((dispatch k now p stop rows).1 ≡ store (release_row now r) rows)
              ⊎ ((dispatch k now p stop rows).1 ≡ store (send_row now r) rows)))
unfolding dispatch dispatch_row still_reserved
dispatch_cases k now p stop rows = elim (Option-cases (find_id k rows)) [
  | inl e ↦ inl (rw e)
  | inr (r, e) ↦ rw e (dispatch_row_cases r now p stop rows)
]

-- What `settle` leaves.
pub settle_cases :
    (k : ℕ) (calls : Option ℕ) (cost : Option Decimal) (receipt : Option String)
    (audit : Option Audit) (now : ℕ) (rows : List Row)
    → ((settle k calls cost receipt audit now rows).1 ≡ rows)
      ⊎ ((r r' : Row) × (find_id k rows ≡ some r)
          × (settled_row calls cost receipt audit now r ≡ ok r')
          × ((settle k calls cost receipt audit now rows).1 ≡ store r' rows))
unfolding settle
settle_cases k calls cost receipt audit now rows = elim (Option-cases (find_id k rows)) [
  | inl e ↦ inl (unfold settle_found in rw e)
  | inr (r, e) ↦ elim (Result-cases (settled_row calls cost receipt audit now r)) [
    | inl (r', g) ↦ inr (r, r', e, g, (unfold settle_found in rw (e, g)))
    | inr (x, g) ↦ inl (unfold settle_found in rw (e, g))
  ]
]

pub find_id-All :
    (P : Row → Type 0) (k : ℕ) (rows : List Row) (r : Row)
    → All P rows
    → find_id k rows ≡ some r
    → P r
unfolding find_id
find_id-All P k [] r a f = absurd (ground arith)
find_id-All P k (x ∷ xs) r a f = elim (Bool-cases (x.id == k)) [
  | inl e ↦ subst P (ground arith) a.0
  | inr e ↦ find_id-All P k xs r a.1 (ground arith)
]

store-All : (P : Row → Type 0) (s : Row) (rows : List Row) → P s → All P rows → All P (store s rows)
unfolding store
store-All P s [] h a = tt
store-All P s (x ∷ xs) h a = elim (Bool-cases (x.id == s.id)) [
  | inl e ↦ rw e (h, a.1)
  | inr e ↦ rw e (a.0, store-All P s xs h a.1)
]

map-All :
    (P : Row → Type 0) (f : Row → Row) (rows : List Row)
    → ((r : Row) → P r → P (f r))
    → All P rows
    → All P (map f rows)
map-All P f [] h a = tt
map-All P f (x ∷ xs) h a = (h x a.0, map-All P f xs h a.1)

Step-All-IsSound :
    {sha256 : String → String} {s t : List Row} → Step sha256 s t → All IsSound s → All IsSound t
Step-All-IsSound {sha256} (reserves fresh now p c rows f) a =
    elim (reserve_cases sha256 fresh now p c rows) [
      | inl e ↦ rw e a
      | inr (upper, e, _) ↦ rw e (new_row-IsSound fresh now p c (call_key sha256 c) upper, a)
    ]
Step-All-IsSound (dispatches k now p stop rows) a = elim (dispatch_cases k now p stop rows) [
  | inl e ↦ rw e a
  | inr (r, f, s, inl e) ↦ rw e (
      store-All IsSound (release_row now r) rows
        (release_row-IsSound now r s (find_id-All IsSound k rows r a f)) a)
  | inr (r, f, s, inr e) ↦ rw e (
      store-All IsSound (send_row now r) rows
        (send_row-IsSound now r s (find_id-All IsSound k rows r a f)) a)
]
Step-All-IsSound (settles k calls cost receipt audit now rows) a =
    elim (settle_cases k calls cost receipt audit now rows) [
      | inl e ↦ rw e a
      | inr (r, r', f, g, e) ↦ rw e (
          store-All IsSound r' rows
            (settled_row-IsSound calls cost receipt audit now r r' g
              (find_id-All IsSound k rows r a f))
            a)
    ]
Step-All-IsSound (recovers task now stop rows) a =
    unfold recover in
    map-All IsSound (recover_row task now stop) rows (recover_row-IsSound task now stop) a

-- After any sequence of reservations, dispatches, settlements and recoveries from an empty ledger,
-- every row is sound: an open call has no count, no cost and an unknown cost status; a call was
-- dispatched exactly where it is in flight, uncertain or settled; a released call was never
-- dispatched and costs nothing; a settled call has a count, and a mark where the count or the cost
-- exceeds what was reserved.
pub Reach-IsSound :
    (sha256 : String → String) {rows : List Row} → Reach sha256 [] rows → All IsSound rows
Reach-IsSound sha256 here = tt
Reach-IsSound sha256 (next r st) = Step-All-IsSound st (Reach-IsSound sha256 r)
