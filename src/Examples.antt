-- ===== src/Examples.antt =====
-- Concrete ledgers, queues, schedules and requests, on which the theorems are applied.
mod Ledger
mod Checks
mod Watches
mod People
mod Refreshes
mod Rounds
mod Researchers
mod Followers
mod Approvals
mod Citations
