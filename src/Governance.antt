-- ===== src/Governance.antt =====
-- src/sddgov/governance.py: work claims, external actions and the event log of a project.
mod Tests
pub mod Project
pub mod Claims
pub mod Actions
