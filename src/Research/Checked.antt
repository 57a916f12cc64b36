-- ===== src/Research/Checked.antt =====
-- The rows of `completion_projection` and the checks that later rounds take over.
use dealflow_radar.Common.{
  ℕ, ◌≤◌, ◌≡◌, ◌≢◌, ◌↔◌, refl, sym, ap, subst, ◌⊎◌, inl, inr, String, Option, none, some, Bool,
  true, false, not, ◌&&◌, List, [], ◌∷◌, map, any, all, min, leb, ltb, ◌∙◌, All, All-map,
  Bool-cases, Option-cases, arith, is_text, is_none, is_given, keep, same_text, if◌then◌else◌,
  eq_iff,
}
use dealflow_radar.Research.Data.{Texts, is_in, Document, Candidate, Coverage, topics}
use dealflow_radar.Research.Completion.{
  RowStatus, completed, complete, Outcome, Records, Row, instant_of, later_of, latest, records,
  is_successful, is_failed, is_unfinished, is_waiting, is_relevant, code_of, entry, network_failed,
  skipped, unread, no_documents, outcome_of, after_search, outcome, is_completed, oldest,
  checked_of, settled, stored_check, row_from, row, rows, overall, recorded, completion_projection,
}
use dealflow_radar.Research.Checks.{
  topic_check, add_check, stored_from, stored_time, previous_successful_checks,
}

-- An instant is no later than an optional one.
abbrev pub NoLater : Option ℕ → Option ℕ → Type 0
NoLater none b = Unit
NoLater (some a) none = a ≢ a
NoLater (some a) (some b) = a ≤ b

later_of-right : (a b : Option ℕ) → NoLater b (later_of a b)
unfolding later_of
later_of-right none none = tt
later_of-right none (some b) = omega arith
later_of-right (some a) none = tt
later_of-right (some a) (some b) = omega arith

later_of-left : (a b : Option ℕ) → NoLater a (later_of a b)
unfolding later_of
later_of-left none b = tt
later_of-left (some a) none = omega arith
later_of-left (some a) (some b) = omega arith

-- The instant is one that all documents that were read were checked at or after.
abbrev pub CheckedSince : Texts → ℕ → List Document → Type 0
CheckedSince x t ds = All (λ d. (u : ℕ) × (instant_of x d.checked_at ≡ some u) × (t ≤ u)) ds

-- The instant is the time of one of the documents.
abbrev pub IsTimeOf : Texts → ℕ → List Document → Type 0
IsTimeOf x t [] = ⊥
IsTimeOf x t (d ∷ ds) = (instant_of x d.checked_at ≡ some t) ⊎ IsTimeOf x t ds

-- The instant is the least of the time of the search and the times of the documents that were read.
abbrev pub IsOldest : Texts → Records → ℕ → Type 0
IsOldest x r s =
    (u : ℕ) × (instant_of x r.group.checked_at ≡ some u)
    × (s ≤ u)
    × CheckedSince x s r.readable
    × ((s ≡ u) ⊎ IsTimeOf x s r.readable)

lesser : (t u : ℕ) → (min t u ≡ t) ⊎ (min t u ≡ u)
lesser t u = elim (Bool-cases (leb t u)) [ inl e ↦ inl (ground arith) | inr e ↦ inr (ground arith) ]

oldest_lem :
    (x : Texts) (t s : ℕ) (ds : List Document)
    → oldest x t ds ≡ some s
    → (s ≤ t) × CheckedSince x s ds × ((s ≡ t) ⊎ IsTimeOf x s ds)
unfolding oldest
oldest_lem x t s [] h = (ground arith, tt, inl (ground arith))
oldest_lem x t s (d ∷ ds) h = elim (Option-cases (instant_of x d.checked_at)) [
  | inl n ↦ absurd (ground arith)
  | inr (u, n) ↦
      let rest = oldest_lem x (min t u) s ds (ground arith) in
      (
        omega (arith, rest.0),
        ((u, n, omega (arith, rest.0)), rest.1),
        elim rest.2 [
          | inr w ↦ inr (inr w)
          | inl e ↦ elim (lesser t u) [
            | inl m ↦ inl (e ∙ m)
            | inr m ↦ inr (inl (n ∙ ap some (sym (e ∙ m))))
          ]
        ],
      )
]

-- The time of each of the documents is known.
abbrev AllDated : Texts → List Document → Type 0
AllDated x ds = All (λ d. (u : ℕ) × (instant_of x d.checked_at ≡ some u)) ds

oldest_dated :
    (x : Texts) (t : ℕ) (ds : List Document) → AllDated x ds → (s : ℕ) × (oldest x t ds ≡ some s)
unfolding oldest
oldest_dated x t [] a = (t, refl)
oldest_dated x t (d ∷ ds) ((u, e), a) =
    let (s, f) = oldest_dated x (min t u) ds a in (s, rw (e, oldest) f)

dated_checked :
    (x : Texts) (r : Records) (u : ℕ)
    → instant_of x r.group.checked_at ≡ some u
    → AllDated x r.readable
    → (s : ℕ) × (checked_of x r ≡ some s)
unfolding checked_of
dated_checked x r u e a = let (s, f) = oldest_dated x u r.readable a in (s, rw (e, checked_of) f)

checked_of_lem : (x : Texts) (r : Records) (s : ℕ) → checked_of x r ≡ some s → IsOldest x r s
unfolding checked_of
checked_of_lem x r s h = elim (Option-cases (instant_of x r.group.checked_at)) [
  | inl n ↦ absurd (ground arith)
  | inr (u, n) ↦ let o = oldest_lem x u s r.readable (ground arith) in (u, n, o.0, o.1, o.2)
]

-- A candidate that is not relevant to the topic, or whose address is that of a document that was read.
abbrev IsSettledCandidate : (Candidate → Bool) → List Document → Candidate → Type 0
IsSettledCandidate p ds a = (p a ≡ false) ⊎ (is_in (map (λ d. d.url) ds) a.url ≡ true)

unread_iff :
    (p : Candidate → Bool) (ds : List Document) (cs : List Candidate)
    → (any (λ u. not (is_in (map (λ d. d.url) ds) u)) (map (λ a. a.url) (keep p cs)) ≡ false)
      ↔ All (IsSettledCandidate p ds) cs
unfolding keep
unread_iff p ds [] = (λ h. tt, λ h. refl)
unread_iff p ds (a ∷ cs) =
    let rest = unread_iff p ds cs in
    elim (Bool-cases (p a)) [
      | inr n ↦ (λ h. (inl n, rest.0 (ground arith)), λ h. rw n (rest.1 h.1))
      | inl y ↦ elim (Bool-cases (is_in (map (λ d. d.url) ds) a.url)) [
        | inl z ↦ (λ h. (inr z, rest.0 (ground arith)), λ h. rw (y, z) (rest.1 h.1))
        | inr z ↦ (
          λ h. absurd (ground arith),
          λ h. absurd (elim (h.0) [ inl n ↦ ground arith | inr w ↦ ground arith ]),
        )
      ]
    ]

-- What a finished check of a topic asks for: the topic was planned and its search was attempted and
-- succeeded on some route, no route is unfinished, no document about it failed, every relevant
-- candidate was read and none was put off, results about the company were read where there were any,
-- the check was not of one intent only, and the times of the search and of what was read are known.
abbrev pub IsChecked : Texts → Coverage → String → Records → Type 0
IsChecked x c category r =
    ((network_failed c && not (is_given r.group.attempted_at)) ≡ false)
    × (is_text "budget_deferred" r.group.status ≡ false)
    × (r.is_planned ≡ true)
    × (is_waiting r.group.status ≡ false)
    × (any is_successful r.group.providers ≡ true)
    × (any is_unfinished r.group.providers ≡ false)
    × (no_documents (keep is_failed r.docs) ≡ true)
    × All (IsSettledCandidate (is_relevant x category (code_of (entry c category))) r.readable)
        c.candidates
    × (skipped c category ≡ false)
    × ((ltb 0 r.group.subject_results && no_documents r.readable) ≡ false)
    × (is_text "intent_only" r.group.coverage_scope ≡ false)
    × ((u : ℕ) × (instant_of x r.group.checked_at ≡ some u))
    × AllDated x r.readable

-- The conditions of the branches of `outcome`.
abbrev IsOpen : Coverage → String → Records → Type 0
IsOpen c category r =
    ((network_failed c && not (is_given r.group.attempted_at)) ≡ false)
    × (is_text "budget_deferred" r.group.status ≡ false)
    × (r.is_planned ≡ true)
    × (is_waiting r.group.status ≡ false)
    × (any is_successful r.group.providers ≡ true)
    × (any is_unfinished r.group.providers ≡ false)
    × (no_documents (keep is_failed r.docs) ≡ true)
    × (unread r ≡ false)
    × (skipped c category ≡ false)
    × ((ltb 0 r.group.subject_results && no_documents r.readable) ≡ false)
    × (is_text "intent_only" r.group.coverage_scope ≡ false)

outcome-completed :
    (c : Coverage) (category : String) (r : Records)
    → (outcome c category r).status ≡ completed
    → IsOpen c category r
unfolding outcome after_search outcome_of
outcome-completed c category r h = ground arith

completed-outcome :
    (c : Coverage) (category : String) (r : Records)
    → IsOpen c category r
    → (outcome c category r).status ≡ completed
unfolding outcome after_search outcome_of
completed-outcome c category r (a, b, d, e, f, g, h, i, j, k, l) = ground arith

settled-completed :
    (o : Outcome) (checked : Option ℕ)
    → (settled o checked).0.status ≡ completed
    → (o.status ≡ completed) × ((t : ℕ) × (checked ≡ some t) × (settled o checked ≡ (o, some t)))
unfolding settled is_completed outcome_of
settled-completed o none h = absurd (ground arith)
settled-completed o (some t) h = ground arith

completed-settled :
    (o : Outcome) (t : ℕ) → o.status ≡ completed → (settled o (some t)).0.status ≡ completed
unfolding settled is_completed
completed-settled o t h = rw h refl

dated_of : (x : Texts) (s : ℕ) (ds : List Document) → CheckedSince x s ds → AllDated x ds
dated_of x s [] a = tt
dated_of x s (d ∷ ds) ((u, e, l), a) = ((u, e), dated_of x s ds a)

row-checked :
    (x : Texts) (c : Coverage) (category : String)
    → IsChecked x c category (records x c category)
    → (row x c category).status ≡ completed
unfolding row row_from
row-checked x c category (a, b, d, e, f, g, h, i, j, k, l, (u, m), n) =
    let r = records x c category in
    let read : unread r ≡ false =
      unfold unread records in
      (unread_iff (is_relevant x category (code_of (entry c category))) r.readable c.candidates).1
        i in
    let (s, old) = dated_checked x r u m n in
    let o = completed-outcome c category r (a, b, d, e, f, g, h, read, j, k, l) in
    rw old (completed-settled (outcome c category r) s o)

-- A topic's row is completed if and only if the topic was planned and its search was attempted and
-- succeeded on some route, no route is unfinished, no document about it failed, every candidate that is
-- relevant to it has the address of a document that was read and none was put off, results about the
-- company were read where there were any, the check was not of one intent only, and the times of the
-- search and of every document that was read are known; and then the row's time of the last successful
-- check is the later of the check taken over and the least of these times.
pub row-completed :
    (x : Texts) (c : Coverage) (category : String)
    → ((row x c category).status ≡ completed) ↔ (
        IsChecked x c category (records x c category)
        × ((s : ℕ) × IsOldest x (records x c category) s
            × ((row x c category).last_successful_check_at
                ≡ later_of
                    (some s)
                    (latest x (stored_check category c.previous_successful_checks ∷ [])))))
unfolding row row_from
row-completed x c category = (
  λ h.
      let r = records x c category in
      let o = outcome c category r in
      let previous = latest x (stored_check category c.previous_successful_checks ∷ []) in
      let (e, (t, f, g)) = settled-completed o (checked_of x r) h in
      let old = checked_of_lem x r t f in
      let (a, b, d, w, i, k, l, m, n, p, q) = outcome-completed c category r e in
      let read =
        (unread_iff (is_relevant x category (code_of (entry c category))) r.readable c.candidates).0
          (unfold unread records in m) in
      (
        (a, b, d, w, i, k, l, read, n, p, q, (old.0, old.1), dated_of x t r.readable old.3),
        (
          t,
          old,
          subst
              (λ (y : Outcome × Option ℕ).
                (row_from x c category r y).last_successful_check_at ≡ later_of (some t) previous)
              (sym g) refl,
        ),
      ),
  λ h. row-checked x c category h.0,
)

stored_check-add_check :
    (x : Texts) (k c : String) (o : Option ℕ) (ps : List (String × String))
    → stored_check k (add_check x c o ps)
      ≡ (if same_text c k && not (is_none o) then stored_time x o else stored_check k ps)
unfolding stored_check add_check stored_time
stored_check-add_check x k c none ps = ground arith
stored_check-add_check x k c (some t) ps = ground arith

present :
    (x : Texts) (b : Bool) (o : Option ℕ)
    → (if not (is_none o) then stored_time x o else (if b then stored_time x o else none))
      ≡ stored_time x o
unfolding stored_time
present x b none = ground arith
present x b (some t) = refl

stored_check-from :
    (x : Texts) (hs : List Coverage) (k : String) (cs : List String)
    → stored_check k (stored_from x hs cs)
      ≡ (if is_in cs k then stored_time x (topic_check x k hs) else none)
unfolding stored_check stored_from is_in
stored_check-from x hs k [] = refl
stored_check-from x hs k (c ∷ cs) =
    rw (stored_check-add_check x k c (topic_check x c hs) (stored_from x hs cs)) (
      rw (stored_check-from x hs k cs) (elim (Bool-cases (same_text c k)) [
        | inr e ↦ rw e refl
        | inl e ↦
            let s : topic_check x c hs ≡ topic_check x k hs =
              ap (λ (y : String). topic_check x y hs) ((eq_iff c k).0 e) in
            rw e (rw s (present x (is_in cs k) (topic_check x k hs)))
      ]))

stored_time-read :
    (x : Texts) (o : Option ℕ)
    → ((t : ℕ) → x.instant (x.isoformat t) ≡ some t)
    → latest x (stored_time x o ∷ []) ≡ o
unfolding latest stored_time instant_of later_of
stored_time-read x none inv = refl
stored_time-read x (some t) inv = rw (inv t) refl

-- The checks that a new round takes over from earlier rounds read back, for every topic, as the checks
-- that the earlier rounds made, where the text of an instant reads back as that instant.
pub previous_checks_read :
    (x : Texts) (hs : List Coverage)
    → ((t : ℕ) → x.instant (x.isoformat t) ≡ some t)
    → All
        (λ k. latest x (stored_check k (previous_successful_checks x hs) ∷ []) ≡ topic_check x k hs)
        topics
unfolding previous_successful_checks is_in
previous_checks_read x hs inv =
    All-map (λ k. is_in topics k ≡ true) _ topics (λ k h. read k h) (ground arith)
  where
    read :
        (k : String)
        → is_in topics k ≡ true
        → latest x (stored_check k (stored_from x hs topics) ∷ []) ≡ topic_check x k hs
    read k h =
        rw (stored_check-from x hs k topics) (rw h (stored_time-read x (topic_check x k hs) inv))

completed_status : (s : RowStatus) → is_completed s ≡ true → s ≡ completed
unfolding is_completed
completed_status s e = ground arith

settled-cases :
    (o : Outcome) (checked : Option ℕ)
    → ((settled o checked).0.status ≡ completed) ⊎ ((settled o checked).1 ≡ none)
unfolding settled is_completed outcome_of
settled-cases o none = elim (Bool-cases (is_completed o.status)) [
  | inl e ↦ inr (rw e refl)
  | inr e ↦ inr (rw e refl)
]
settled-cases o (some t) = elim (Bool-cases (is_completed o.status)) [
  | inl e ↦ inl (rw e (completed_status o.status e))
  | inr e ↦ inr (rw e refl)
]

row_from_check :
    (x : Texts) (c : Coverage) (k : String) (r : Records) (y : Outcome × Option ℕ) (p : Option ℕ)
    → latest x (stored_check k c.previous_successful_checks ∷ []) ≡ p
    → (y.0.status ≡ completed) ⊎ (y.1 ≡ none)
    → NoLater p (row_from x c k r y).last_successful_check_at
      × (((row_from x c k r y).status ≡ completed)
          ⊎ ((row_from x c k r y).last_successful_check_at ≡ p))
unfolding row_from later_of
row_from_check x c k r (o, checked) p e (inl h) = rw e (later_of-right checked p, inl h)
row_from_check x c k r (o, checked) p e (inr h) = rw e (later_of-right checked p, inr (rw h refl))

keeps_check :
    (x : Texts) (c : Coverage) (hs : List Coverage) (k : String)
    → c.previous_successful_checks ≡ previous_successful_checks x hs
    → latest x (stored_check k (previous_successful_checks x hs) ∷ []) ≡ topic_check x k hs
    → NoLater (topic_check x k hs) (row x c k).last_successful_check_at
      × (((row x c k).status ≡ completed)
          ⊎ ((row x c k).last_successful_check_at ≡ topic_check x k hs))
unfolding row
keeps_check x c hs k e h =
    let r = records x c k in
    row_from_check x c k r (settled (outcome c k r) (checked_of x r)) (topic_check x k hs) (rw e h)
      (settled-cases (outcome c k r) (checked_of x r))

-- Whether or not a round finishes the check of a topic, the time of the last successful check of its row is
-- no earlier than the check that it took over from earlier rounds, and it is that check where the row is not
-- completed. The text of an instant reads back as that instant.
pub row_keeps_checks :
    (x : Texts) (c : Coverage) (hs : List Coverage)
    → ((t : ℕ) → x.instant (x.isoformat t) ≡ some t)
    → c.previous_successful_checks ≡ previous_successful_checks x hs
    → All
        (λ k.
          NoLater (topic_check x k hs) (row x c k).last_successful_check_at
          × (((row x c k).status ≡ completed)
              ⊎ ((row x c k).last_successful_check_at ≡ topic_check x k hs)))
        topics
row_keeps_checks x c hs inv e =
    All-map _ _ topics (λ k h. keeps_check x c hs k e h) (previous_checks_read x hs inv)

all_completed :
    (x : Texts) (c : Coverage) (ks : List String)
    → all (λ r. is_completed r.status) (map (row x c) ks) ≡ true
    → All (λ k. (row x c k).status ≡ completed) ks
all_completed x c [] h = tt
all_completed x c (k ∷ ks) h =
    (completed_status (row x c k).status (ground arith), all_completed x c ks (ground arith))

completed_all :
    (x : Texts) (c : Coverage) (ks : List String)
    → All (λ k. (row x c k).status ≡ completed) ks
    → all (λ r. is_completed r.status) (map (row x c) ks) ≡ true
unfolding is_completed
completed_all x c [] a = refl
completed_all x c (k ∷ ks) a = rw a.0 (completed_all x c ks a.1)

recorded_complete :
    (c : Coverage) (rs : List Row)
    → (recorded c (overall rs) ≡ complete) ↔ (all (λ r. is_completed r.status) rs ≡ true)
unfolding recorded overall
recorded_complete c rs = ground arith

-- A round's research is complete if and only if the row of every one of the eight topics is completed.
pub complete_iff :
    (x : Texts) (c : Coverage)
    → ((completion_projection x c).status ≡ complete)
      ↔ All (λ k. (row x c k).status ≡ completed) topics
unfolding completion_projection rows
complete_iff x c =
    let r = recorded_complete c (map (row x c) topics) in
    (λ h. all_completed x c topics (r.0 h), λ a. r.1 (completed_all x c topics a))
