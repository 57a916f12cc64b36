-- ===== src/Personal.antt =====
-- A person's company requests and quotas (backend/app/personal_features.py): usage and its limits,
-- requests with their cooldown and cancellation, quota increases and the decisions of administrators.
pub mod Data
pub mod Usage
pub mod Requests
pub mod Increases
pub mod Limits
pub mod Cancel
pub mod Decisions
pub mod Catalog
pub mod Watchlist
pub mod Following
pub mod Review
pub mod Approvals
