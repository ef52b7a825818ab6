-- ===== src/Revocation.antt =====
-- The race of the runner (scripts/ops_runner_entry.py, scripts/ops_runner.py) with the owner's
-- revocation (app/core/operation_revocation.py) for one request.
pub mod World
pub mod Runner
pub mod Owner
pub mod Schedule
pub mod Exclusion
pub mod Answers
pub mod Late
pub mod Tests
