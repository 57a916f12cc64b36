-- ===== src/Sources.antt =====
-- backend/app/source_monitoring.py: trusted sources, their check runs and the candidate documents
-- that a run finds. `Data` has the tables, `Queue` the requests of administrators, `Schedule` the
-- periodic one, `Lease` the worker's hold of a run, `Fetch` what a finished check writes and `Review`
-- the administrator's decision.
pub mod Data
pub mod Queue
pub mod Queued
pub mod Schedule
pub mod Lease
pub mod Fetch
pub mod Worker
pub mod Leases
pub mod Exclusion
pub mod Accounts
pub mod Active
pub mod Backoff
pub mod Scheduling
pub mod Review
pub mod Decisions
