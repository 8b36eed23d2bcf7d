-- ===== src/Gateway.antt =====
-- The gateway of one account (网关/bigqmt_gateway_proxy.py).
pub mod Runtime
pub mod Replies
pub mod Cache
pub mod Tasks
pub mod Held
pub mod Grants
pub mod Leaks
pub mod Returns
pub mod Returned
pub mod Rotation
pub mod Confirm
pub mod Confirmed
pub mod Outcome
pub mod Lanes
pub mod Pending
pub mod Helper
pub mod Submit
pub mod Barrier
pub mod Barred
pub mod Published
