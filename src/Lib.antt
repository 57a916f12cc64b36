-- ===== src/Lib.antt =====
-- A model of the backend of dealflow-radar (backend/app), which collects public information about
-- companies under strict budgets: a ledger of paid calls, the monitoring of trusted sources, the
-- checks of watched companies, the planning and the completion of research, the jobs that do it, the
-- requests, watchlists and quotas of its users, and a mock refresh worker.
--
-- How the parts interact. Company requests (Personal) and due watch checks (Watch) create research
-- jobs (Jobs). A job takes its topics from a plan (Research), a worker leases it, and what it recorded
-- is projected to completion rows, which decide how it ends, what its requests and the schedule of a
-- watched company hear, and which checks the next round takes over. A job pays for each outside call
-- through the ledger (Budget): it reserves, dispatches and settles the call, and an interrupted job
-- recovers its open calls. What research finds is evidence (Evidence), which is traced to its origin
-- and shown in reports under licences. Trusted sources (Sources) are
-- checked by runs, which are queued by hand or by a scheduler and worked under leases.
--
-- Files.
-- * Budget models backend/app/web_research_budget.py on the rows of `UsageLedger`
--   (backend/app/models.py). Rows has the row and its charge (`charged_calls`, `_window`, `amount`),
--   Admission `_check` with the policies of backend/app/config.py, Calls `reserve`, `dispatch`,
--   `settle` and `recover`, Summary `summary`, Reconcile `reconcile`. Sums has the lemmas on the
--   totals; Limits, Reservations, Soundness, Traces, TaskBudget, Once, Recovery and Corrections prove.
-- * Sources models backend/app/source_monitoring.py. Data has the tables, Queue `queue_source_check`
--   and its batches, Schedule `queue_due_source_checks`, Lease `_lease_next_run`,
--   `_load_locked_run_and_source` and `_complete_dry_run`, Fetch the pass over the result of a check,
--   Worker `_apply_fetch_result`, `_record_fetch_failure` and `run_trusted_source_worker_once`, Review
--   `decide_candidate_document`. Active, Leases, Exclusion, Queued, Accounts, Backoff, Scheduling and
--   Decisions prove.
-- * Watch models backend/app/watchlist_monitoring.py. Data has `due_at` and `interval_days`, Queue
--   `queue_due_watch_checks` and `monitoring_summary`, Outcome `record_outcome`. Single, Waits and
--   Replay prove.
-- * Personal models the usage, requests and quotas of backend/app/personal_features.py. Usage has the
--   counts and limits, Requests `_create_company_request` and `cancel_personal_company_request`,
--   Increases the quota increases, Catalog the shared catalog, Watchlist
--   `add_personal_watchlist_item` and `remove_personal_watchlist_item`, Review the inclusion and
--   refresh requests with their review and approval. Limits, Cancel, Decisions, Following and
--   Approvals prove.
-- * Research models backend/app/research_plan.py, research_completion.py and parts of
--   research_coverage.py and research_network.py. Data has the coverage, Plan `plan_topics`,
--   `full_scope_topics`, `plan_intent` and `coverage_routes`, Candidates `order_candidates`,
--   Completion `completion_projection`, Checks `successful_topic_checks` and `stored_completion`.
--   Rotation, FullScope, Reading and Checked prove.
-- * Jobs models the life of a job in backend/app/web_research_service.py. Data has the tables, Prepare
--   `prepare_pending_research_requests`, Lease `_lease_job`, Ending `_cancel_job`, `_finalize`,
--   `_defer_budget` and the failures of `_run_web_research_worker_once`. Served, Ended, Runs, Reach,
--   Finished and Stranded prove.
-- * Evidence models backend/app/evidence_integrity.py and report_permissions.py, with
--   `_evidence_detail_schema` of services.py. Data has the tables, Integrity `excerpt_hash_status` and
--   `usable_matter_evidence`, Permissions `report_evidence_permission` and `report_lead_permission`.
--   Chains and Granted prove.
-- * Refresh models backend/app/worker.py. Jobs has `_lease_next_job`, `_complete_job` and
--   `run_mock_worker_once`; Completion and Order prove.
-- * Common has tests, lists, results of code that may raise, tables under a numeric key, and the
--   calendar. Examples applies the theorems to concrete data.
--
-- Conventions. An operation is one database transaction: a function from the tables to an answer and
-- the tables afterwards; one that raises before its commit leaves them as they were. The locks of the
-- code serialise these transactions, so a run is a sequence of them. Ids and UUIDs are numbers, times
-- are microseconds since 0001-01-01 in UTC, money is in millionths of a yuan (the policy and the
-- settlements admit six decimals). The loop over citations has the eight rounds of the code.
-- All else is structurally recursive, but for the loop of
-- `order_candidates`, which has one round of fuel for each candidate: a round takes a candidate or
-- ends the loop. A query
-- without an order gives the first row. Reasons and references come stripped.
--
-- Parameters: the hash of keys, the number of a UUID's text, fresh ids, the clock, the fetcher, the
-- companies that exist, the targets of the watchlist, the semantic version of a company, the
-- calendar of Asia/Shanghai, the check of a credit code, and of Python's library the reading and
-- writing of instants and of JSON, SHA-256, the stripping of texts, the splitting of addresses and the
-- regular expressions on titles and names; the validation of a field by pydantic.
--
-- Not modelled: HTTP, parsing of pages and documents, prompts of models, row security, the HTTP and
-- MCP interfaces and the frontend; within the modelled files, the listings, the creation and update
-- of sources, the import of candidates' research, the guards that probe the database during a check
-- of the watchlist, the identity research of a request, personal views and reports, the steps of a
-- job that search, fetch and extract, and the presentation of coverage. Of the JSON
-- columns, the keys that the modelled operations read or write are kept. The candidates of a source
-- stand newest first, and two of the same instant in the order of their insertion.
pub mod Common
pub mod Budget
pub mod Sources
pub mod Watch
pub mod Personal
pub mod Refresh
pub mod Research
pub mod Jobs
pub mod Evidence
mod Examples
