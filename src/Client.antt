-- ===== src/Client.antt =====
-- The account client (外置策略API/qmt_local_api/client.py) with its event dispatcher and its query
-- broker.
pub mod Settings
pub mod Accepted
pub mod Sets
pub mod Broker
pub mod Dispatcher
pub mod Delivery
pub mod Connect
pub mod Runs
pub mod Flight
pub mod Dispatches
pub mod Interleaved
pub mod Placed
pub mod Arranged
pub mod Once
pub mod Handled
pub mod Acked
pub mod Identity
pub mod Checked
pub mod Callbacks
pub mod Order
pub mod Answers
