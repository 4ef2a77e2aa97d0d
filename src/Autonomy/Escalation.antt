-- ===== src/Autonomy/Escalation.antt =====
-- src/sddgov/autonomy.py: `evaluate_escalation`. Its stages stand in the source's order; a stage
-- that does not return hands the request on.
pub mod Boundary
pub mod Reuse
pub mod Action
pub mod Evaluate
pub mod Limits
pub mod Routine
pub mod Quiet
pub mod Card
pub mod Queue
pub mod Human
pub mod Silent
pub mod Operations
