-- ===== src/Domain.antt =====
-- crates/domain: the canonical contracts.
pub mod Machines
pub mod ErrorCode
pub mod Ids
pub mod Money
