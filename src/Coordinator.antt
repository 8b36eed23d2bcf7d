-- ===== src/Coordinator.antt =====
-- The durable coordinator of one account's strategies (外置策略API/qmt_local_api/coordinator.py).
pub mod Rows
pub mod Identifiers
pub mod Stages
pub mod Strategies
pub mod Orders
pub mod Cancels
pub mod Events
pub mod Outbox
pub mod Gateway
pub mod Resubmit
pub mod Once
pub mod Duplicates
pub mod Limits
pub mod Runs
pub mod Kept
pub mod Stored
pub mod Found
pub mod Finality
pub mod Acknowledged
pub mod Delivery
pub mod Polls
