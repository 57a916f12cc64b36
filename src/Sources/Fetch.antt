-- ===== src/Sources/Fetch.antt =====
-- The pass of `_apply_fetch_result` over the result of a check. The fetcher
-- (backend/app/source_fetcher.py) is a parameter.
-- A source's candidates stand newest first, which is the order of the query over them, so the table
-- is the state of the loop: its first row for an address is the entry of `latest_by_url`, and its
-- hashes are `existing_hashes`.
use dealflow_radar.Common.{
  ℕ, ◌+◌, String, Option, none, some, Bool, true, false, ◌&&◌, ◌||◌, List, [], ◌∷◌, ◌==◌, any,
  length, same_text, is_number, or_text, if◌then◌else◌, pick, store_by,
}
use dealflow_radar.Sources.Data.{
  Db, Source, Run, RunStatus, completed, partial, failed, Counts, UsageEntry, no_counts, unordered,
  Candidate, new, changed, pending, LinkHealth, broken,
}
use dealflow_radar.Sources.Lease.{Lease, WorkerResult, finished}

-- `DiscoveredDocument`
pub record Document : Type 0 where
  pub canonical_url : String
  pub title : String
  pub content_hash : String
  pub http_status : Option ℕ
  pub etag : Option String
  pub last_modified : Option String
  pub link_health_status : LinkHealth

pub record Failure : Type 0 where
  pub url : Option String
  pub http_status : Option ℕ

-- `FetchBatchResult`
pub record Batch : Type 0 where
  pub documents : List Document
  pub unchanged_urls : List String
  pub failures : List Failure
  pub request_count : ℕ
  pub downloaded_bytes : ℕ
  pub robots_status : String
  pub start_etag : Option String
  pub start_last_modified : Option String
  pub start_content_hash : Option String
  pub partial_batch : Bool

abbrev pub is_at : ℕ → String → Candidate → Bool
is_at source url c = c.trusted_source_id == source && same_text c.canonical_url url

-- `latest_by_url.get(url)`
unfoldable pub latest : ℕ → String → List Candidate → Option Candidate
latest source url cs = pick (is_at source url) unordered cs

-- `content_hash in existing_hashes`
unfoldable pub known_hash : ℕ → String → List Candidate → Bool
known_hash source h cs = any (λ c. c.trusted_source_id == source && same_text c.content_hash h) cs

-- The state of the loop over the documents.
pub record Progress : Type 0 where
  pub candidates : List Candidate
  pub next_id : ℕ
  pub new_count : ℕ
  pub changed_count : ℕ
  pub unchanged_count : ℕ
  pub duplicate_count : ℕ

unfoldable pub observed : ℕ → Document → Candidate → Candidate
observed now d c = record c {
  last_observed_at = now;
  link_health_status = d.link_health_status;
  http_status = d.http_status;
  etag = or_text d.etag c.etag;
  last_modified = or_text d.last_modified c.last_modified;
}

unfoldable pub new_candidate : ℕ → Source → ℕ → ℕ → Option Candidate → Document → Candidate
new_candidate now s run id previous d = record {
  id = id;
  tenant_id = s.tenant_id;
  company_id = s.company_id;
  trusted_source_id = s.id;
  discovery_run_id = run;
  previous_candidate_id = elim previous [ none ↦ none | some c ↦ some c.id ];
  canonical_url = d.canonical_url;
  title = d.title;
  content_hash = d.content_hash;
  change_type = elim previous [ none ↦ new | some c ↦ changed ];
  first_discovered_at = now;
  last_observed_at = now;
  link_health_status = d.link_health_status;
  http_status = d.http_status;
  etag = d.etag;
  last_modified = d.last_modified;
  license_status = s.license_status;
  processing_status = pending;
  processed_by = none;
  processed_at = none;
  decision_reason = none;
  handed_off = false;
}

-- A document whose address has no candidate, or one of another content.
unfoldable pub discover : ℕ → Source → ℕ → Option Candidate → Document → Progress → Progress
discover now s run previous d p =
    if known_hash s.id d.content_hash p.candidates
    then record p { duplicate_count = p.duplicate_count + 1 }
    else record p {
      candidates = new_candidate now s run p.next_id previous d ∷ p.candidates;
      next_id = p.next_id + 1;
      new_count = elim previous [ none ↦ p.new_count + 1 | some c ↦ p.new_count ];
      changed_count = elim previous [ none ↦ p.changed_count | some c ↦ p.changed_count + 1 ];
    }

unfoldable pub take_document : ℕ → Source → ℕ → Option Candidate → Document → Progress → Progress
take_document now s run none d p = discover now s run none d p
take_document now s run (some c) d p =
    if same_text c.content_hash d.content_hash
    then record p {
      candidates = store_by (λ x. x.id) (observed now d c) p.candidates;
      unchanged_count = p.unchanged_count + 1;
    }
    else discover now s run (some c) d p

-- The loop over the documents.
unfoldable pub take_documents : ℕ → Source → ℕ → List Document → Progress → Progress
take_documents now s run [] p = p
take_documents now s run (d ∷ ds) p =
    take_documents now s run ds
      (take_document now s run (latest s.id d.canonical_url p.candidates) d p)

-- A write to the latest candidate of an address, where there is one.
unfoldable pub touch : (Candidate → Candidate) → Option Candidate → List Candidate → List Candidate
touch f none cs = cs
touch f (some c) cs = store_by (λ x. x.id) (f c) cs

unfoldable pub see_unchanged : ℕ → ℕ → List String → List Candidate → List Candidate
unfolding touch
see_unchanged now source [] cs = cs
see_unchanged now source (u ∷ us) cs =
    see_unchanged now source us
      (touch (λ c. record c { last_observed_at = now }) (latest source u cs) cs)

unfoldable pub break_link : ℕ → Candidate → Candidate
break_link now c = record c {
  link_health_status = broken;
  http_status = some 404;
  last_observed_at = now;
}

unfoldable pub fail_url : ℕ → ℕ → Option String → Bool → List Candidate → List Candidate
unfolding break_link touch
fail_url now source none gone cs = cs
fail_url now source (some u) gone cs =
    if gone then touch (break_link now) (latest source u cs) cs else cs

unfoldable pub fail_link : ℕ → ℕ → Failure → List Candidate → List Candidate
unfolding fail_url
fail_link now source f cs = fail_url now source f.url (is_number 404 f.http_status) cs

unfoldable pub fail_links : ℕ → ℕ → List Failure → List Candidate → List Candidate
unfolding fail_link
fail_links now source [] cs = cs
fail_links now source (f ∷ fs) cs = fail_links now source fs (fail_link now source f cs)

-- The whole pass over a batch; `fresh` is the first of the ids that new candidates get.
unfoldable pub collect : ℕ → ℕ → Source → ℕ → Batch → List Candidate → Progress
collect fresh now s run b cs =
    let p = take_documents now s run b.documents (record {
      candidates = see_unchanged now s.id b.unchanged_urls cs;
      next_id = fresh;
      new_count = 0;
      changed_count = 0;
      unchanged_count = length b.unchanged_urls;
      duplicate_count = 0;
    }) in
    record p { candidates = fail_links now s.id b.failures p.candidates }

unfoldable pub batch_counts : Batch → Progress → Counts
batch_counts b p = record {
  request_count = b.request_count;
  downloaded_bytes = b.downloaded_bytes;
  new_count = p.new_count;
  changed_count = p.changed_count;
  unchanged_count = p.unchanged_count;
  duplicate_count = p.duplicate_count;
  failure_count = length b.failures;
  external_calls = b.request_count;
}

any_failure : List Failure → Bool
any_failure [] = false
any_failure (f ∷ fs) = true

batch_status : Batch → RunStatus
unfolding any_failure
batch_status b = if b.partial_batch || any_failure b.failures then partial else completed

batch_error : Batch → Option String
unfolding any_failure
batch_error b = if any_failure b.failures then some "partial_failures" else none

unfoldable pub finished_run : ℕ → Batch → Progress → Run → Run
unfolding batch_status batch_error
finished_run now b p r = record r {
  counts = batch_counts b p;
  robots_status = some b.robots_status;
  status = batch_status b;
  error_code = batch_error b;
  finished_at = some now;
  heartbeat_at = some now;
  leased_until = none;
}

unfoldable pub checked_source : ℕ → Batch → Source → Source
unfolding batch_error
checked_source now b s = record s {
  last_checked_at = some now;
  last_success_at = some now;
  last_failure_code = batch_error b;
  last_http_status = none;
  consecutive_failures = 0;
  last_etag = or_text b.start_etag s.last_etag;
  last_modified = or_text b.start_last_modified s.last_modified;
  last_content_hash = or_text b.start_content_hash s.last_content_hash;
}

unfoldable pub store_source : Source → Db → Db
store_source s db = record db { sources = store_by (λ x. x.id) s db.sources }

unfoldable pub report : Run → WorkerResult
report r = record {
  status = finished r.status;
  run_id = some r.id;
  counts = r.counts;
  error_code = none;
}

unfoldable pub usage_of : Run → UsageEntry
usage_of r = record { run_id = r.id; outcome = r.status; counts = r.counts }

unfoldable pub failed_result : Lease → String → WorkerResult
failed_result lease code = record {
  status = finished failed;
  run_id = some lease.run_id;
  counts = no_counts;
  error_code = some code;
}
