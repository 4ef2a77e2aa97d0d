-- ===== src/Evidence.antt =====
-- src/sddgov/evidence.py: the transaction around a change of an evidence package, and the phases of
-- its workflow.
mod Tests
pub mod Transaction
pub mod Ending
pub mod Finish
pub mod Workflow
pub mod Advance
