-- ===== src/Inventory/Holds.antt =====
-- crates/service/src/handlers/holds.rs: acquiring and releasing the stock that an order holds.
-- `lock_listings_in_order` takes row locks and changes no row, so it has no counterpart here.
pub mod Movement
pub mod Arming
pub mod RoundTrip
pub mod Sufficient
pub mod Laws
use pubky_marketplace_servic.Prelude.{
  ℕ, String, Bool, true, false, Option, none, some, List, [], ◌∷◌, ◌==◌, string_key, nat_key, ◌&&◌,
  ◌||◌, not, if◌then◌else◌, ltb, leb, ◌+◌, ◌-◌, ◌*◌, write, is_some,
}
use pubky_marketplace_servic.Domain.ErrorCode.{ErrorCode}
use pubky_marketplace_servic.Store.{
  ListingRow, OrderRow, OrderLine, Db, Tx, RefusalKind, CommandFailure, failure, Outcome, done,
  refused, fault, row_not_found, ◌>>=◌, ◌>>◌, pure, refuse, refuse_if, some_or, gets, modify,
}

-- `chrono::Duration::seconds`, in nanoseconds.
abbrev pub seconds : ℕ → ℕ
seconds n = n * 1000000000

-- Which quantity column an order's lines occupy: before and after the payment's confirmation.
pub data HeldQuantity : Type 0 where
  reserved sold : HeldQuantity

unfoldable pub held_column : HeldQuantity → ListingRow → ℕ
held_column reserved listing = listing.reserved_quantity
held_column sold listing = listing.sold_quantity

-- `{column} = {column} - $2`
unfoldable pub take_held : HeldQuantity → ℕ → ListingRow → ListingRow
take_held reserved quantity listing = record listing {
  reserved_quantity = listing.reserved_quantity - quantity;
}
take_held sold quantity listing = record listing {
  sold_quantity = listing.sold_quantity - quantity;
}

unfoldable pub released : HeldQuantity → ℕ → ℕ → ListingRow → ListingRow
unfolding take_held
released held quantity now listing = record (take_held held quantity listing) {
  server_revision = listing.server_revision + 1;
  state = "available";
  available_quantity = listing.available_quantity + quantity;
  updated_at = now;
}

unfoldable pub line_listing_missing : CommandFailure
unfolding failure
line_listing_missing =
    failure RefusalKind.invariant_violation ErrorCode.invariant_violation
      "An order line's listing is missing."

not_accounted : CommandFailure
unfolding failure
not_accounted =
    failure RefusalKind.invariant_violation ErrorCode.invariant_violation
      "The inventory held by this order is no longer accounted to its listing."

-- One turn of the loop of `release_lines`.
unfoldable pub release_line : HeldQuantity → ℕ → OrderLine → Tx (Unit {0})
unfolding line_listing_missing not_accounted
release_line held now line db = elim (db.listings line.listing_aggregate_id) [
  | none ↦ refused line_listing_missing
  | some listing ↦
      if leb line.quantity (held_column held listing)
      then done tt (record db {
        listings =
            write db.listings line.listing_aggregate_id (released held line.quantity now listing);
      })
      else refused not_accounted
]

unfoldable pub release_lines : HeldQuantity → ℕ → List OrderLine → Tx (Unit {0})
release_lines held now [] = pure tt
release_lines held now (line ∷ lines) =
    let rest = release_lines held now lines in do release_line held now line; rest

unfoldable pub is_deleted : ListingRow → Bool
is_deleted listing = is_some listing.deleted_at

-- Never after a deletion, and not across a revival.
unfoldable pub accepts_commitment_created_at : ListingRow → ℕ → Bool
unfolding is_deleted
accepts_commitment_created_at listing created_at =
    not (is_deleted listing)
    && elim listing.recreated_at [ none ↦ true | some recreated_at ↦ leb recreated_at created_at ]

listing_removed : CommandFailure
unfolding failure
listing_removed =
    failure RefusalKind.not_found ErrorCode.not_found
      "The seller removed this listing before this payment started."

pub holding : CommandFailure
unfolding failure
holding =
    failure RefusalKind.invalid_state ErrorCode.invalid_state
      "Another buyer's payment is holding this item. If it isn't completed in time, the item restocks."

sold_out_before_payment : CommandFailure
unfolding failure
sold_out_before_payment =
    failure RefusalKind.insufficient_inventory ErrorCode.insufficient_inventory
      "The listing sold out before this payment started."

-- `UPDATE listings SET … available_quantity - $q, reserved_quantity + $q`, with the state that the
-- callers compute.
unfoldable pub reserved_by : ℕ → ℕ → ListingRow → ListingRow
reserved_by quantity now listing = record listing {
  server_revision = listing.server_revision + 1;
  state = if listing.available_quantity == quantity then "reserved" else "available";
  available_quantity = listing.available_quantity - quantity;
  reserved_quantity = listing.reserved_quantity + quantity;
  updated_at = now;
}

-- One turn of the loop of `acquire_payment_hold`. The UPDATE's own guard on the quantity repeats
-- the test above it on the locked row.
unfoldable pub acquire_line : ℕ → ℕ → OrderLine → Tx (Unit {0})
unfolding line_listing_missing accepts_commitment_created_at listing_removed holding
    sold_out_before_payment
acquire_line created_at now line db = elim (db.listings line.listing_aggregate_id) [
  | none ↦ refused line_listing_missing
  | some listing ↦
      if not (accepts_commitment_created_at listing created_at)
      then refused listing_removed
      else if ltb listing.available_quantity line.quantity
      then if listing.state == "reserved" || ltb 0 listing.reserved_quantity
        then refused holding
        else refused sold_out_before_payment
      else done tt (record db {
        listings =
            write db.listings line.listing_aggregate_id (reserved_by line.quantity now listing);
      })
]

unfoldable pub acquire_lines : ℕ → ℕ → List OrderLine → Tx (Unit {0})
acquire_lines created_at now [] = pure tt
acquire_lines created_at now (line ∷ lines) =
    let rest = acquire_lines created_at now lines in do acquire_line created_at now line; rest

-- `UPDATE orders SET … WHERE id = $1 RETURNING …`, by `fetch_one`.
unfoldable pub set_order : OrderRow → (OrderRow → OrderRow) → Tx OrderRow
set_order order set db = elim (db.orders order.id) [
  | none ↦ fault row_not_found
  | some row ↦ done (set row) (record db { orders = write db.orders order.id (set row) })
]

pub armed : ℕ → String → ℕ → OrderRow → OrderRow
armed hold_expires_at hold_source now row = record row {
  hold_expires_at = some hold_expires_at;
  hold_source = some hold_source;
  updated_at = now;
}

unfoldable pub held : ℕ → String → ℕ → OrderRow → OrderRow
unfolding armed
held hold_expires_at hold_source now row = record (armed hold_expires_at hold_source now row) {
  stock_held = true;
}

not_pending : CommandFailure
unfolding failure
not_pending =
    failure RefusalKind.invalid_state ErrorCode.invalid_state
      "Only an order pending payment can start a payment."

unfoldable pub acquire_payment_hold : OrderRow → ℕ → String → ℕ → Tx OrderRow
unfolding not_pending
acquire_payment_hold order window_seconds hold_source now =
    if is_some order.auction_aggregate_id
    then pure order
    else if not (order.state == "pending_payment")
    then refuse not_pending
    else if order.stock_held
    then set_order order (armed (now + seconds window_seconds) hold_source now)
    else do
      acquire_lines order.created_at now order.lines
      set_order order (held (now + seconds window_seconds) hold_source now)
