-- ===== src/Owner.antt =====
-- The decisions of the owner: app/core/owner_approval.py and scripts/approval_runner.py.
pub mod Files
pub mod Decide
pub mod Turns
pub mod Final
pub mod Register
pub mod People
pub mod Votes
pub mod Approved
pub mod Payload
pub mod Commands
pub mod RoundTrip
pub mod Broker
pub mod Trust
pub mod Replay
pub mod Wait
pub mod Words
pub mod Tests
pub mod BrokerTests
pub mod WordsTests
