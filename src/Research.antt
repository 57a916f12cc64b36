-- ===== src/Research.antt =====
-- What a round of research on a company plans, reads and records: backend/app/research_plan.py,
-- research_completion.py, research_network.py and the jobs of web_research_service.py.
pub mod Data
pub mod Plan
pub mod Rotation
pub mod Candidates
pub mod Reading
pub mod Completion
pub mod Checks
pub mod Checked
pub mod FullScope
