-- ===== src/Research/Candidates.antt =====
-- `order_candidates`, the order in which a round reads its candidates, and `document_limit`.
use Prim.Native.String.{count as chars}
use dealflow_radar.Common.{
  ℕ, zero, suc, String, Option, none, some, Bool, true, false, not, ◌&&◌, ◌||◌, List, [], ◌∷◌, ◌++◌,
  leb, is_text, is_given, if◌then◌else◌, count, length, sort_by,
}
use dealflow_radar.Research.Data.{
  Texts, GroupState, Document, Candidate, Coverage, topics, is_in, planned, directory_page,
  eligible_in,
}

unfoldable pub has_reason : Candidate → Bool
has_reason c = is_given c.scheduling_reason

unfoldable pub deferred : String → Candidate → Candidate
deferred reason c = record c { scheduling_reason = some reason }

-- `duplicate`, from the signatures of the titles seen so far.
unfoldable pub is_duplicate : Texts → List String → Candidate → Bool
is_duplicate x seen c = leb 12 (chars (x.signature c.title)) && is_in seen (x.signature c.title)

unfoldable pub defer_duplicate : Texts → List String → Candidate → Candidate
defer_duplicate x seen c =
    if is_duplicate x seen c then deferred "duplicate_title_deferred" c else c

-- The first loop; `slots` counts the candidates whose identity is pending so far.
unfoldable pub mark : Texts → List String → ℕ → List Candidate → List Candidate
mark x seen slots [] = []
mark x seen slots (c ∷ cs) =
    let item = defer_duplicate x seen c in
    let rest =
      mark x (x.signature c.title ∷ seen) (if c.identity_pending then suc slots else slots) cs in
    (if c.identity_pending && leb 1 slots
      then deferred "identity_verification_slot_exhausted" item
      else item)
    ∷ rest

-- `False` before `True`.
unfoldable pub reason_last : Candidate → Candidate → Bool
reason_last a b = not (has_reason a) || has_reason b

unfoldable pub reason_then_directory : Texts → Candidate → Candidate → Bool
reason_then_directory x a b =
    if has_reason a
    then has_reason b && (not (directory_page x a.url) || directory_page x b.url)
    else has_reason b || not (directory_page x a.url) || directory_page x b.url

-- `topic_categories`
unfoldable pub topic_of : Option String → List String
topic_of none = []
topic_of (some c) = if is_in topics c then c ∷ [] else []

unfoldable pub topic_categories : List GroupState → List String
topic_categories [] = []
topic_categories (g ∷ gs) = topic_of g.topic_category ++ topic_categories gs

unfoldable pub fewer_documents : List Document → String → String → Bool
fewer_documents ds a b = leb (count (eligible_in a) ds) (count (eligible_in b) ds)

unfoldable pub categories_of : Coverage → List String
categories_of coverage =
    sort_by (fewer_documents coverage.documents) (topic_categories coverage.search_groups)

unfoldable pub is_next : Texts → String → Candidate → Bool
is_next x category c =
    is_text category c.coverage_category && not (directory_page x c.url) && not (has_reason c)

-- `next(item for item in remaining if ...)` with `remaining.remove`: the item and what remains.
unfoldable pub take_next {ℓ} : {A : Type ℓ} → (A → Bool) → List A → Option (A × List A)
take_next p [] = none
take_next p (c ∷ cs) =
    let rest = take_next p cs in
    if p c then some (c, cs) else elim rest [ none ↦ none | some r ↦ some (r.0, c ∷ r.1) ]

-- The lists `ordered` and `remaining`, and `changed`.
pub record Pass : Type 0 where
  pub ordered : List Candidate
  pub remaining : List Candidate
  pub changed : Bool

unfoldable pub add_next : Option (Candidate × List Candidate) → Pass → Pass
add_next none s = s
add_next (some r) s = record { ordered = s.ordered ++ r.0 ∷ []; remaining = r.1; changed = true }

-- `for category in categories`
unfoldable pub pass : Texts → List String → Pass → Pass
pass x [] s = s
pass x (k ∷ ks) s = pass x ks (add_next (take_next (is_next x k) s.remaining) s)

unfoldable pub is_empty : List Candidate → Bool
is_empty [] = true
is_empty (c ∷ cs) = false

unfoldable pub unchanged : Pass → Pass
unchanged s = record s { changed = false }

-- `while remaining`, for at most this many rounds.
unfoldable pub rotate : ℕ → Texts → List String → Pass → Pass
rotate zero x ks s = s
rotate (suc fuel) x ks s = elim (is_empty s.remaining) [
  | true ↦ s
  | false ↦
      let next = pass x ks (unchanged s) in
      elim next.changed [ true ↦ rotate fuel x ks next | false ↦ next ]
]

unfoldable pub start : Texts → List Candidate → Pass
start x cs = record {
  ordered = [];
  remaining = sort_by reason_last (mark x [] 0 cs);
  changed = false;
}

-- The list that `order_candidates` returns, from the lists at the end of its loop.
unfoldable pub in_order : Texts → Pass → List Candidate
in_order x s = s.ordered ++ sort_by (reason_then_directory x) s.remaining

-- `order_candidates`; the loop runs at most once for each candidate.
unfoldable pub order_candidates : Texts → List Candidate → Coverage → List Candidate
order_candidates x cs coverage =
    in_order x (rotate (length cs) x (categories_of coverage) (start x cs))

-- `document_limit`, from the two limits of the policy.
unfoldable pub document_limit : Coverage → ℕ → ℕ → ℕ
document_limit coverage max_candidate_urls max_documents_per_job =
    if planned coverage then max_candidate_urls else max_documents_per_job
