-- ===== src/Autonomy.antt =====
-- src/sddgov/autonomy.py: which machine requests may go on, which are blocked, and which need a
-- human decision.
mod Tests
pub mod Vocabulary
pub mod Payload
pub mod Package
pub mod Envelope
pub mod Reply
pub mod Decisions
pub mod Operation
pub mod Escalation
pub mod Deployment
pub mod Artifact
