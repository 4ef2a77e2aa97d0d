-- ===== src/Containment.antt =====
-- src/sddgov/production_containment.py: the contracts of a production boundary that starts no
-- process: the limits of a scope, the held runtime image, the scope and the launcher.
mod Tests
pub mod Violation
pub mod Limits
pub mod Image
pub mod Scope
pub mod Launcher
pub mod Reach
pub mod Phase
pub mod Held
