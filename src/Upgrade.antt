-- ===== src/Upgrade.antt =====
-- Upgrades of the program by itself that the owner authorizes (app/core/authorized_upgrade.py).
pub mod Paths
pub mod Plan
pub mod Changes
pub mod Scoped
pub mod Written
pub mod InScope
pub mod Session
pub mod Create
pub mod Generate
pub mod Advance
pub mod Keep
pub mod Settled
pub mod Queue
pub mod Authorized
pub mod ScopeTests
pub mod Tests
pub mod CreateTests
