-- ===== src/Inventory/Reservations.antt =====
-- crates/service/src/handlers/reserve_inventory.rs: `inventory.reserve`. The projection in the
-- answer is not modelled: it can only fail for a seller, who is refused.
pub mod Totals
pub mod Gating
pub mod Laws
pub mod Accounts
use pubky_marketplace_servic.Prelude.{
  ℕ, String, Option, none, some, [], ◌∷◌, ◌++◌, ◌==◌, string_key, nat_key, not, if◌then◌else◌, ltb,
  ◌+◌, write, any,
}
use pubky_marketplace_servic.Domain.ErrorCode.{ErrorCode}
use pubky_marketplace_servic.Domain.Machines.{can_transition, listing_machine}
use pubky_marketplace_servic.Store.{
  ListingRow, ReservationRow, DropRow, Tx, RefusalKind, CommandFailure, failure,
  failure_with_revision, done, refused, fault, constraint, unique_violation, ◌>>=◌, ◌>>◌, pure,
  refuse_if, some_or, gets, Command, insert_event,
}
use pubky_marketplace_servic.Orders.Action.{HandlerSuccess}
use pubky_marketplace_servic.Inventory.Holds.{seconds, reserved_by}
use pubky_marketplace_servic.Inventory.Listings.{fetch_live_listing, current_listing_revision}
use pubky_marketplace_servic.Drops.Binding.{lock_bound_drop}
use pubky_marketplace_servic.Drops.Gate.{enforce_drop_gate}

pub record ReserveInventoryPayload : Type 0 where
  pub quantity : ℕ
  pub reservation_ttl_seconds : ℕ

stale : ℕ → CommandFailure
unfolding failure_with_revision
stale revision =
    failure_with_revision RefusalKind.revision_conflict ErrorCode.revision_conflict
      "The listing revision is stale." revision

guard_reserve : String → Command → ListingRow → ℕ → Tx (Unit {0})
unfolding stale
guard_reserve actor command listing quantity = do
  refuse_if (listing.seller_pubky == actor) (
      failure RefusalKind.unauthorized ErrorCode.unauthorized
        "A seller cannot reserve their own listing.")
  refuse_if (not (command.expected_revision == listing.server_revision))
      (stale listing.server_revision)
  refuse_if (ltb listing.available_quantity quantity) (
      failure_with_revision RefusalKind.insufficient_inventory ErrorCode.insufficient_inventory
        "The requested quantity is unavailable." listing.server_revision)

-- The gate of a bound drop, and the drop to stamp onto the reservation.
unfoldable pub gate_bound : Option DropRow → String → ℕ → Command → ℕ → Tx (Option String)
gate_bound none actor quantity command now = pure none
gate_bound (some bound) actor quantity command now = do
  refuse_if (not (quantity == 1)) (
      failure RefusalKind.invalid_command ErrorCode.invalid_command
        "A drop-bound listing can be reserved one unit at a time.")
  drop ← enforce_drop_gate bound actor 1 command now
  pure (some drop.aggregate_id)

unfoldable pub reserved_state : ListingRow → ℕ → String
reserved_state listing quantity =
    if listing.available_quantity == quantity then "reserved" else "available"

-- The compare-and-swap on the expected revision. Its state is the one that `reserved_by` gives the
-- row, for the row read in this transaction is the row updated.
unfoldable pub swap_listing : Command → ℕ → ℕ → Tx ListingRow
unfolding stale
swap_listing command quantity now db = elim (db.listings command.aggregate_id) [
  | none ↦ refused (stale (current_listing_revision command.aggregate_id db))
  | some row ↦
      if not (row.server_revision == command.expected_revision)
      then refused (stale (current_listing_revision command.aggregate_id db))
      else if ltb row.available_quantity quantity
      then refused (stale (current_listing_revision command.aggregate_id db))
      else done (reserved_by quantity now row) (record db {
        listings = write db.listings command.aggregate_id (reserved_by quantity now row);
      })
]

pub new_reservation :
    String → Command → ReserveInventoryPayload → Option String → ℕ → ReservationRow
new_reservation actor command payload drop_aggregate_id now = record {
  id = command.command_id;
  listing_aggregate_id = command.aggregate_id;
  buyer_pubky = actor;
  quantity = payload.quantity;
  status = "active";
  expires_at = now + seconds payload.reservation_ttl_seconds;
  created_at = now;
  updated_at = now;
  drop_aggregate_id = drop_aggregate_id;
  offer_award_id = none;
}

-- The row's primary key and its CHECK on the quantity.
unfoldable pub insert_reservation : ReservationRow → Tx (Unit {0})
insert_reservation row db =
    if any (λ r. r.id == row.id) db.reservations
    then fault unique_violation
    else if row.quantity == 0
    then fault constraint
    else done tt (record db { reservations = db.reservations ++ row ∷ [] })

unfoldable pub log_reserved : String → Command → ListingRow → ℕ → Tx HandlerSuccess
unfolding insert_event
log_reserved actor command updated now = do
  event_id ←
      insert_event command command.aggregate_id updated.server_revision actor "inventory.reserved"
        now
  pure (record { revision = updated.server_revision; event_ids = event_id ∷ [] })

-- The insertion and the event, after the listing's update.
unfoldable pub record_hold :
    String → Command → ReserveInventoryPayload → Option String → ℕ → ListingRow → Tx HandlerSuccess
unfolding new_reservation
record_hold actor command payload drop_aggregate_id now updated = do
  insert_reservation (new_reservation actor command payload drop_aggregate_id now)
  log_reserved actor command updated now

-- The writes, once the guards and the gate have passed.
unfoldable pub hold_stock :
    String → Command → ListingRow → ReserveInventoryPayload → Option String → ℕ → Tx HandlerSuccess
unfolding reserved_state
hold_stock actor command listing payload drop_aggregate_id now = do
  refuse_if
      (not (can_transition listing_machine listing.state (reserved_state listing payload.quantity)))
      (failure_with_revision RefusalKind.invariant_violation ErrorCode.invariant_violation
        "The listing cannot enter the reserved state." listing.server_revision)
  updated ← swap_listing command payload.quantity now
  record_hold actor command payload drop_aggregate_id now updated

unfoldable pub reserve : String → Command → ReserveInventoryPayload → ℕ → Tx HandlerSuccess
unfolding guard_reserve
reserve actor command payload now = do
  fetched ← gets (fetch_live_listing command.aggregate_id)
  listing ←
      some_or fetched
        (failure RefusalKind.not_found ErrorCode.not_found "The listing is not registered.")
  guard_reserve actor command listing payload.quantity
  bound ← gets (lock_bound_drop listing.seller_pubky listing.listing_id)
  drop_aggregate_id ← gate_bound bound actor payload.quantity command now
  hold_stock actor command listing payload drop_aggregate_id now
