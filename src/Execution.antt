-- ===== src/Execution.antt =====
-- The execution contracts of app/core/execution_policy.py.
pub mod Contracts
pub mod Table
pub mod Resolve
pub mod Dispatch
pub mod Audit
pub mod Coherence
pub mod Tests
