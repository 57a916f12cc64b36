-- ===== src/Watch.antt =====
-- The checks of watched companies (backend/app/watchlist_monitoring.py): when a company is due, what
-- a scheduling pass queues, what the outcome of a job does to the schedule, and the summary shown.
pub mod Data
pub mod Queue
pub mod Outcome
pub mod Replay
pub mod Waits
pub mod Single
