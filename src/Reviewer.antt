-- ===== src/Reviewer.antt =====
-- src/sddgov/reviewer.py: the reviewer's side of a review receipt.
mod Tests
pub mod Sign
pub mod Accepted
pub mod GateBinding
pub mod Bound
