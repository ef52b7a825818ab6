-- ===== src/Apply.antt =====
-- The runner that applies an approved upgrade (scripts/self_upgrade_runner.py).
pub mod Disk
pub mod Backup
pub mod Install
pub mod Touch
pub mod Restore
pub mod Keeping
pub mod BackedUp
pub mod Installed
pub mod Atomic
pub mod Steady
pub mod Refused
pub mod Complete
pub mod World
pub mod Validate
pub mod Process
pub mod Passed
pub mod Checked
pub mod Elsewhere
pub mod Authorized
pub mod Calls
pub mod Writes
pub mod Success
pub mod RoundTrip
pub mod Again
pub mod Tests
