-- ===== src/Examples.antt =====
-- Concrete runs, and an instance of every theorem that has hypotheses.
mod Samples
mod Machines
mod Returns
mod Fulfillment
mod Stock
mod Drops
mod Auctions
mod Executor
mod Reservations
mod Payments
mod Sandbox
mod Closing
