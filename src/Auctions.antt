-- ===== src/Auctions.antt =====
-- Auctions: crates/service/src/handlers/auction.rs.
pub mod Ranking
pub mod Bidding
pub mod Awarding
pub mod Closing
