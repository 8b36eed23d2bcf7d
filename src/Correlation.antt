-- ===== src/Correlation.antt =====
-- The persistent order store of the gateway (网关/order_correlation.py): one module for each group
-- of methods, and modules for what they preserve.
pub mod Rows
pub mod Stage
pub mod Orders
pub mod Effects
pub mod Pending
pub mod Events
pub mod Seen
pub mod Cleanup
pub mod Lookup
pub mod Steps
pub mod Runs
pub mod OrderReach
pub mod EffectReach
pub mod UniqueKeys
pub mod Atomicity
pub mod OrderHistory
pub mod EffectHistory
