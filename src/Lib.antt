-- ===== src/Lib.antt =====
-- pubky-marketplace-service: the transaction service of a marketplace, in Rust over Postgres.
--
-- A client sends a command; the executor opens one database transaction, runs the handler of the
-- command's kind, and commits its success or rolls its refusal or error back. Handlers lock the rows
-- that they read, check the command against them, update them under their revision, append domain
-- events and enqueue notification intents. Every modelled handler is a function on the rows, of type
-- `Tx A = Db → Outcome A`: `done` carries the rows as the handler leaves them, `refused` is a
-- `CommandFailure`, `fault` a database error; the last two carry no rows, as the transaction is
-- rolled back.
--
-- The parts, by file:
--   * Prelude: shared names, Boolean tests, native-number lists, tables as functions.
--   * Domain: crates/domain/src. Machines has the tables of state_machines.rs (Tables, OrderTable),
--     `can_transition` (Types), and their reachability (Reach, Facts); ErrorCode, Ids and Money have
--     error.rs, ids.rs and money.rs.
--   * Store: the rows of crates/service/src/model.rs and crates/service/migrations (Rows), the
--     transaction with `CommandFailure` of crates/service/src/result.rs (Transaction), and the
--     shared writes `insert_event` (executor.rs) and `insert_notification_intent` (handlers/mod.rs)
--     with `format_timestamp` of clock.rs (Effects).
--   * Orders: the actions on an order. Action has `guard_order_action` and `finish_order_action` of
--     crates/service/src/handlers/mod.rs; Returns and Refund have handlers/returns.rs, Fulfillment
--     has handlers/fulfillment.rs and the terms-change test of handlers/pickup.rs, Cancellation has the
--     approval and the returns of stock of handlers/cancellation.rs. Contract states
--     what an order action promises, against the table of the order machine; the Laws modules show
--     it of each command.
--   * Inventory: Holds has handlers/holds.rs, the lock point `acquire_payment_hold` and
--     `release_lines`. Movement, Arming, RoundTrip, Sufficient and Laws are about them. Listings has
--     the reads of handlers/mod.rs, Reservations `inventory.reserve` of
--     handlers/reserve_inventory.rs, Expiry the sweep of crates/service/src/expiry.rs, whose
--     argument `skipped` says which rows other transactions hold locked; Expiry/Log is about the events
--     that it adds. Reservations/Totals states
--     how the active reservations are accounted; Ledger is the abstract stock of one listing, and
--     Ledger/Refinement relates to it the commands that move stock.
--   * Payments: Confirmation has `confirm_order` of handlers/payment.rs, Pins the terms that it pins
--     (handlers/pickup.rs, handlers/digital_orders.rs), Sandbox has `payment.sandbox_advance` of
--     handlers/payment.rs, RefundRoute the route of crates/service/src/bitcoin_review.rs that it
--     takes when an order cannot be delivered.
--   * Drops: handlers/drops.rs. Lifecycle has the server-time transitions, Gate the caps of a hold
--     and their credit, Binding the drop that a
--     listing is bound to, Commands `drop.cancel`, `drop.release_listings` and the paid units.
--   * Auctions: handlers/auction.rs. Ranking has the proxy ranking and the visible price, Bidding
--     `auction.place_bid`, Closing `auction.close`, Awarding the winner's reservation, order and payment.
--   * Executor: crates/service/src/executor.rs. `execute` looks a command up in `command_results`,
--     dispatches it and commits or rolls back; Dispatch has `dispatch` for the modelled commands,
--     Laws the idempotence, Sound and Orders what holds of the orders after any sequence of commands.
--   * Examples: concrete runs.
--
-- Choices. A transaction runs alone on the rows that it reads: row locks, and
-- `lock_listings_in_order`, have no effect here, and no interleaving of transactions is modelled. A
-- BIGINT that a CHECK keeps non-negative is a natural number; amounts and quantities are bounded by
-- the envelope's validation far below the machine's limits, so sums are not wrapped, and where the
-- source saturates (`personal_minimum_next_bid`) the model does at the 64-bit maximum. A CHECK or a
-- key that an UPDATE or an INSERT may violate is a `fault`, the keys of the events among them; the
-- index of the winning orders is the table `auction_winners` of `Db`. A refusal and a fault carry no
-- rows: that the executor rolls the transaction back on either is built into `Outcome`, and no
-- theorem is about the rollback itself. Instants are nanoseconds, and those of
-- JSON documents are cut to the millisecond as `format_timestamp` does. A UUID is its canonical
-- text; `Uuid::new_v4` draws from a stream that `Db` carries, and that the
-- ids it draws next are new is a hypothesis where it is used. Loops are structural recursion, so no
-- fuel is used. A `debug_assert!` on `can_transition` is not executed: the theorems on the
-- orders' commands and on a payment's advance state the edge. The attestor's `order_ref` is a parameter of `annotate`; the redaction of a
-- stored checkout and the sealing of a prepared Locks result are fields of `Handlers`, and that a
-- sealed result opens again is a hypothesis where it is used.
--
-- Not modelled: the JSON result and its projections with the guard `ensure_reserve_free`; the
-- parsing and validation of the envelope, the prefetch of `listing.register`, the refusal audit and
-- the logging around the executor; checkout, the payment rails, cancellation requests, offers,
-- registration and sync of listings and drops, reviews, the deliverables of
-- digital orders beyond their pins, the other workers; HTTP, authentication and the clients of other
-- services. The sealing keys and the receipt's hash are parameters (`SealKeys`, `ConfirmKeys`), as is
-- the database's order of texts, a field of `Db`.
pub mod Prelude
pub mod Domain
pub mod Store
pub mod Orders
pub mod Inventory
pub mod Drops
pub mod Payments
pub mod Executor
pub mod Examples
pub mod Auctions
