-- ===== src/Budget.antt =====
-- backend/app/web_research_budget.py: durable reservations of platform public-web research calls.
-- `Rows` has the ledger's rows and what each is charged, `Admission` the limits of `_check`,
-- `Calls` the operations on one call, `Reconcile` the administrator's correction and `Summary` the
-- task's totals. The proofs stand in the other modules.
pub mod Rows
pub mod Admission
pub mod Calls
pub mod Sums
pub mod Limits
pub mod Reservations
pub mod Soundness
pub mod Traces
pub mod TaskBudget
pub mod Once
pub mod Summary
pub mod Reconcile
pub mod Recovery
pub mod Corrections
