-- ===== src/Sources/Accounts.antt =====
-- The counts of `_apply_fetch_result` against the candidates that it writes.
use dealflow_radar.Common.{
  ℕ, ◌+◌, ◌≡◌, refl, ◌∙◌, Option, none, some, Bool, true, false, List, [], ◌∷◌, String, length,
  arith, is_number, Bool-cases, inl, inr, same_text, length-store_by,
}
use dealflow_radar.Sources.Data.{Source, Candidate}
use dealflow_radar.Sources.Fetch.{
  Document, Failure, Batch, latest, Progress, observed, discover, take_document, take_documents,
  touch, see_unchanged, fail_url, fail_link, fail_links, collect,
}

-- What every document has in common: one of the four counters moves, and the candidates grow with the
-- counters of new and changed content.
record Accounted (n : ℕ) (p q : Progress) : Type 0 where
  counts :
      q.new_count + q.changed_count + q.unchanged_count + q.duplicate_count
      ≡ p.new_count + p.changed_count + p.unchanged_count + p.duplicate_count + n
  growth :
      length q.candidates + p.new_count + p.changed_count
      ≡ length p.candidates + q.new_count + q.changed_count
  numbers : q.next_id + p.new_count + p.changed_count ≡ p.next_id + q.new_count + q.changed_count

discover-Accounted :
    (now : ℕ) (s : Source) (run : ℕ) (previous : Option Candidate) (d : Document) (p : Progress)
    → Accounted 1 p (discover now s run previous d p)
unfolding discover
discover-Accounted now s run none d p = record {
  counts = ground arith;
  growth = ground arith;
  numbers = ground arith;
}
discover-Accounted now s run (some c) d p = record {
  counts = ground arith;
  growth = ground arith;
  numbers = ground arith;
}

take_document-Accounted :
    (now : ℕ) (s : Source) (run : ℕ) (previous : Option Candidate) (d : Document) (p : Progress)
    → Accounted 1 p (take_document now s run previous d p)
unfolding take_document
take_document-Accounted now s run none d p = discover-Accounted now s run none d p
take_document-Accounted now s run (some c) d p =
    elim (Bool-cases (same_text c.content_hash d.content_hash)) [
      | inl e ↦ rw e (record {
        counts = omega arith;
        growth =
            omega
              (arith, length-store_by (λ (x : Candidate). x.id) (observed now d c) p.candidates);
        numbers = omega arith;
      })
      | inr e ↦ rw e (discover-Accounted now s run (some c) d p)
    ]

take_documents-Accounted :
    (now : ℕ) (s : Source) (run : ℕ) (ds : List Document) (p : Progress)
    → Accounted (length ds) p (take_documents now s run ds p)
unfolding take_documents
take_documents-Accounted now s run [] p = record {
  counts = omega arith;
  growth = omega arith;
  numbers = omega arith;
}
take_documents-Accounted now s run (d ∷ ds) p =
    let previous = latest s.id d.canonical_url p.candidates in
    let first = take_document-Accounted now s run previous d p in
    let rest = take_documents-Accounted now s run ds (take_document now s run previous d p) in
    record {
      counts = omega (arith, first.counts, rest.counts);
      growth = omega (arith, first.growth, rest.growth);
      numbers = omega (arith, first.numbers, rest.numbers);
    }

length-touch :
    (f : Candidate → Candidate) (c : Option Candidate) (cs : List Candidate)
    → length (touch f c cs) ≡ length cs
unfolding touch
length-touch f none cs = refl
length-touch f (some c) cs = length-store_by (λ (x : Candidate). x.id) (f c) cs

length-see_unchanged :
    (now source : ℕ) (us : List String) (cs : List Candidate)
    → length (see_unchanged now source us cs) ≡ length cs
unfolding see_unchanged
length-see_unchanged now source [] cs = refl
length-see_unchanged now source (u ∷ us) cs =
    length-see_unchanged now source us _ ∙ length-touch _ (latest source u cs) cs

length-fail_url :
    (now source : ℕ) (u : Option String) (gone : Bool) (cs : List Candidate)
    → length (fail_url now source u gone cs) ≡ length cs
unfolding fail_url
length-fail_url now source none gone cs = refl
length-fail_url now source (some u) true cs = length-touch _ (latest source u cs) cs
length-fail_url now source (some u) false cs = refl

length-fail_link :
    (now source : ℕ) (f : Failure) (cs : List Candidate)
    → length (fail_link now source f cs) ≡ length cs
unfolding fail_link
length-fail_link now source f cs = length-fail_url now source f.url (is_number 404 f.http_status) cs

length-fail_links :
    (now source : ℕ) (fs : List Failure) (cs : List Candidate)
    → length (fail_links now source fs cs) ≡ length cs
unfolding fail_links
length-fail_links now source [] cs = refl
length-fail_links now source (f ∷ fs) cs =
    length-fail_links now source fs (fail_link now source f cs) ∙ length-fail_link now source f cs

-- A batch is fully accounted for: the new, changed, unchanged and duplicate counts add up to the
-- documents of the batch and its unchanged addresses, and the candidates of the store grow by the
-- new and changed ones, whatever links failed.
pub collect_lem :
    (fresh now : ℕ) (s : Source) (run : ℕ) (b : Batch) (cs : List Candidate)
    → let p = collect fresh now s run b cs in
      (p.new_count + p.changed_count + p.unchanged_count + p.duplicate_count
        ≡ length b.documents + length b.unchanged_urls)
      × (length p.candidates ≡ length cs + p.new_count + p.changed_count)
      × (p.next_id ≡ fresh + p.new_count + p.changed_count)
unfolding collect
collect_lem fresh now s run b cs =
    let start : Progress = record {
      candidates = see_unchanged now s.id b.unchanged_urls cs;
      next_id = fresh;
      new_count = 0;
      changed_count = 0;
      unchanged_count = length b.unchanged_urls;
      duplicate_count = 0;
    } in
    let all_of = take_documents-Accounted now s run b.documents start in
    let p = take_documents now s run b.documents start in
    (
      omega (arith, all_of.counts),
      omega (
        arith,
        all_of.growth,
        length-see_unchanged now s.id b.unchanged_urls cs,
        length-fail_links now s.id b.failures p.candidates,
      ),
      omega (arith, all_of.numbers),
    )
