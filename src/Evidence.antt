-- ===== src/Evidence.antt =====
-- The evidence of events: `evidence_integrity.py` (hashes of excerpts and the chain of citations)
-- and `report_permissions.py` (what a report may show).
pub mod Data
pub mod Integrity
pub mod Permissions
pub mod Chains
pub mod Granted
