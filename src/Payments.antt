-- ===== src/Payments.antt =====
-- Payments: crates/service/src/handlers/payment.rs and the refund route of
-- crates/service/src/bitcoin_review.rs.
pub mod Pins
pub mod Confirmation
pub mod RefundRoute
pub mod Sandbox
