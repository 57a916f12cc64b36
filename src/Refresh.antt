-- ===== src/Refresh.antt =====
-- The mock refresh worker (backend/app/worker.py): one round leases a job and completes it.
pub mod Jobs
pub mod Completion
pub mod Order
