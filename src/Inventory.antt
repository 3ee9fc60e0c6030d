-- ===== src/Inventory.antt =====
-- Listing stock: crates/service/src/handlers/holds.rs, reserve_inventory.rs and
-- crates/service/src/expiry.rs.
pub mod Holds
pub mod Listings
pub mod Reservations
pub mod Expiry
pub mod Ledger
