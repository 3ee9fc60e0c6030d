-- ===== src/Drops.antt =====
-- crates/service/src/handlers/drops.rs: timed, limited releases.
pub mod Lifecycle
pub mod Binding
pub mod Gate
pub mod Commands
