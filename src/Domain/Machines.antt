-- ===== src/Domain/Machines.antt =====
-- crates/domain/src/state_machines.rs: the aggregate state machines as data.
mod Types
mod Tables
mod OrderTable
pub mod Reach
pub mod Facts
pub use Types.{Via, Transition, AggregateMachine, command, server, t}
unfoldable pub use Types.{can_transition}
unfoldable pub use Tables.{
  listing_machine, reservation_machine, offer_machine, auction_machine, return_machine,
  payment_machine, drop_machine,
}
unfoldable pub use OrderTable.{order_machine}
