-- ===== src/Operations.antt =====
-- The operation queue of app/core/operations.py: requests with a bounded lifetime, decisions and
-- results.
pub mod Requests
pub mod Lookup
pub mod Lifetime
pub mod Queue
pub mod Submit
pub mod Safety
pub mod Resubmit
pub mod Tests
