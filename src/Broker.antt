-- ===== src/Broker.antt =====
-- src/sddgov/broker.py: the single-use nonce ledger and the daemon in front of it.
mod Tests
pub mod Medium
pub mod Ledger
pub mod Daemon
pub mod Scan
pub mod Append
pub mod SingleUse
pub mod Recovery
pub mod Receive
pub mod Accepts
