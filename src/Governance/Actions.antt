-- ===== src/Governance/Actions.antt =====
-- src/sddgov/governance.py: the store of external actions and the validation of its rows.
pub mod Row
pub mod Store
pub mod Enqueue
pub mod Resolve
pub mod Evolve
pub mod Terminal
