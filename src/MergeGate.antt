-- ===== src/MergeGate.antt =====
-- src/sddgov/merge_gate.py: the gate that a change passes before it is merged.
mod Tests
pub mod Sample
pub mod Git
pub mod Paths
pub mod Ancestry
pub mod Rollback
pub mod Reviewers
pub mod Review
pub mod Verify
pub mod AuditOnly
pub mod Closed
pub mod Signed
pub mod Anchored
pub mod GateFile
pub mod Exact
pub mod Ready
pub mod Changes
