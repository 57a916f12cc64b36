-- ===== src/Jobs.antt =====
-- The life of a research job: backend/app/web_research_service.py prepares it for the requests that
-- wait, leases it to a worker, and ends, cancels or defers it.
pub mod Data
pub mod Ending
pub mod Lease
pub mod Prepare
pub mod Served
pub mod Ended
pub mod Runs
pub mod Reach
pub mod Stranded
pub mod Finished
