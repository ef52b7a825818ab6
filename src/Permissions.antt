-- ===== src/Permissions.antt =====
-- One-time authorizations of app/core/permissions.py: proposals of the agent, decisions of the host
-- and marks of use.
pub mod Files
pub mod Check
pub mod Propose
pub mod Binding
pub mod Voters
pub mod Exactly
pub mod Once
pub mod Limit
pub mod Race
pub mod Tests
