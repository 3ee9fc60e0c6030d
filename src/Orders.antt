-- ===== src/Orders.antt =====
-- The order actions: crates/service/src/handlers/mod.rs, fulfillment.rs and returns.rs.
pub mod Action
pub mod Contract
pub mod Returns
pub mod Refund
pub mod Fulfillment
pub mod Cancellation
