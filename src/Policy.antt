-- ===== src/Policy.antt =====
-- The policy engine of app/core/policy.py.
pub mod Rules
pub mod Evaluate
pub mod Denial
pub mod Paths
pub mod Tests
