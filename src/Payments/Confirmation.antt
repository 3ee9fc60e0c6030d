-- ===== src/Payments/Confirmation.antt =====
-- crates/service/src/handlers/payment.rs: `confirm_order`.
pub mod Stock
pub mod Rows
pub mod Laws
pub mod Once
use pubky_marketplace_servic.Prelude.{
  ℕ, String, Bool, true, false, Option, none, some, List, [], ◌∷◌, ◌++◌, ◌==◌, string_key, ◌&&◌,
  ◌||◌, not, if◌then◌else◌, ltb, ◌+◌, ◌-◌, write, any, map, is_some,
}
use pubky_marketplace_servic.Domain.ErrorCode.{ErrorCode}
use pubky_marketplace_servic.Domain.Ids.{order_aggregate_id}
use pubky_marketplace_servic.Domain.Money.{Money}
use pubky_marketplace_servic.Domain.Machines.{can_transition, order_machine}
use pubky_marketplace_servic.Store.{
  ListingRow, ReservationRow, OrderRow, OrderLine, PaymentRow, ReceiptRow, Db, Tx, RefusalKind,
  CommandFailure, failure, failure_with_reason, Outcome, done, refused, fault, unique_violation,
  ◌>>=◌, ◌>>◌, pure, refuse, refuse_if, gets, modify, new_uuid, Command, format_timestamp,
  insert_event, insert_notification_intent,
}
use pubky_marketplace_servic.Inventory.Holds.{line_listing_missing, set_order}
use pubky_marketplace_servic.Drops.Commands.{record_paid_unit}
use pubky_marketplace_servic.Payments.Pins.{
  SealKeys, unpinnable, pin_pickup_lines, pin_digital_lines, all_lines_instant,
}

-- What the receipt's hash covers.
pub record ReceiptPayload : Type 0 where
  pub order_id : String
  pub payment_id : String
  pub total : Money
  pub merchandise_total : Money
  pub issued_at : ℕ

-- The sealing keys, and BLAKE3 over the serialized payload.
pub record ConfirmKeys : Type 0 where
  pub pickup : Option SealKeys
  pub digital : Option SealKeys
  pub content_hash : ReceiptPayload → String

no_longer_held : RefusalKind → ErrorCode → CommandFailure
unfolding failure
no_longer_held kind code =
    failure kind code "The reserved inventory for this order is no longer held."

unfoldable pub is_winning : String → String → ReservationRow → Bool
is_winning listing buyer r =
    r.listing_aggregate_id == listing && r.buyer_pubky == buyer && r.status == "active"

unfoldable pub converted : String → String → ℕ → ReservationRow → ReservationRow
converted listing buyer now r =
    if is_winning listing buyer r then record r { status = "converted"; updated_at = now } else r

-- `UPDATE reservations SET status = 'converted' …`, which must match a row.
unfoldable pub convert_reservation : OrderRow → ℕ → Tx (Unit {0})
unfolding no_longer_held
convert_reservation order now db = elim order.auction_aggregate_id [
  | none ↦ done tt db
  | some listing ↦
      if any (is_winning listing order.buyer_pubky) db.reservations
      then done tt (record db {
        reservations = map (converted listing order.buyer_pubky now) db.reservations;
      })
      else refused (no_longer_held RefusalKind.invalid_state ErrorCode.invalid_state)
]

-- The edition of an order of a drop.
unfoldable pub assign_edition : OrderRow → String → Command → ℕ → Tx (Option ℕ)
assign_edition order actor command now = elim order.drop_aggregate_id [
  | none ↦ pure none
  | some drop_aggregate_id ↦ do
    edition ← record_paid_unit drop_aggregate_id actor command now
    pure (some edition)
]

unfoldable pub sold_state : ListingRow → ℕ → String
sold_state listing quantity =
    if ltb 0 listing.available_quantity
    then "available"
    else if ltb quantity listing.reserved_quantity
    then "reserved"
    else "sold"

unfoldable pub sold_by : ℕ → ℕ → ListingRow → ListingRow
unfolding sold_state
sold_by quantity now listing = record listing {
  server_revision = listing.server_revision + 1;
  state = sold_state listing quantity;
  reserved_quantity = listing.reserved_quantity - quantity;
  sold_quantity = listing.sold_quantity + quantity;
  updated_at = now;
}

-- One turn of the loop that moves the lines from reserved to sold.
unfoldable pub sell_line : ℕ → OrderLine → Tx (Unit {0})
unfolding line_listing_missing no_longer_held
sell_line now line db = elim (db.listings line.listing_aggregate_id) [
  | none ↦ refused line_listing_missing
  | some listing ↦
      if ltb listing.reserved_quantity line.quantity
      then refused (no_longer_held RefusalKind.invalid_state ErrorCode.invalid_state)
      else done tt (record db {
        listings = write db.listings line.listing_aggregate_id (sold_by line.quantity now listing);
      })
]

unfoldable pub sell_lines : ℕ → List OrderLine → Tx (Unit {0})
sell_lines now [] = pure tt
sell_lines now (line ∷ lines) = let rest = sell_lines now lines in do sell_line now line; rest

merchandise_total : OrderRow → Money
merchandise_total order = record {
  amount_minor = order.total_minor;
  currency = order.currency;
  exponent = order.exponent;
}

-- A bitcoin-bound order's recorded total is the Paykit total.
unfoldable pub receipt_total : OrderRow → Money
unfolding merchandise_total
receipt_total order = elim order.paykit_total_sats [
  | none ↦ merchandise_total order
  | some sats ↦ record { amount_minor = sats; currency = "SAT"; exponent = 0 }
]

unfoldable pub new_receipt : ConfirmKeys → OrderRow → PaymentRow → String → ℕ → ReceiptRow
unfolding receipt_total merchandise_total format_timestamp
new_receipt keys order payment receipt_id now = record {
  id = receipt_id;
  order_id = order.id;
  payment_id = payment.id;
  issuer_pubky = order.seller_pubky;
  recipient_pubky = order.buyer_pubky;
  total = receipt_total order;
  merchandise_total = merchandise_total order;
  content_hash = keys.content_hash (record {
    order_id = order.id;
    payment_id = payment.id;
    total = receipt_total order;
    merchandise_total = merchandise_total order;
    issued_at = format_timestamp now;
  });
  issued_at = now;
}

-- The keys of the table: one receipt per order and per payment.
unfoldable pub put_receipt : ReceiptRow → Tx String
put_receipt r db =
    if any (λ x. x.id == r.id || x.order_id == r.order_id || x.payment_id == r.payment_id)
      db.receipts
    then fault unique_violation
    else done r.id (record db { receipts = db.receipts ++ r ∷ [] })

unfoldable pub insert_receipt : ConfirmKeys → OrderRow → PaymentRow → ℕ → Tx String
insert_receipt keys order payment now = do
  receipt_id ← new_uuid
  put_receipt (new_receipt keys order payment receipt_id now)

-- The pickup pins and the lines that the order keeps, then the digital pins.
unfoldable pub pin_lines : ConfirmKeys → OrderRow → PaymentRow → Tx (List OrderLine)
pin_lines keys order payment = do
  lines ←
      (if order.fulfillment == "pickup"
        then pin_pickup_lines order.id order.lines payment.adapter keys.pickup
        else pure order.lines)
  (if order.fulfillment == "digital"
      then pin_digital_lines order payment.adapter keys.digital
      else pure tt)
  pure lines

unfoldable pub delivered_now : OrderRow → Bool
delivered_now order = order.fulfillment == "digital" && all_lines_instant order

unfoldable pub confirmed : Bool → String → Option ℕ → List OrderLine → ℕ → OrderRow → OrderRow
confirmed delivered receipt_id edition lines now row = record row {
  revision = row.revision + 1;
  state = if delivered then "delivered" else "paid";
  receipt_id = some receipt_id;
  edition = edition;
  stock_held = false;
  hold_expires_at = none;
  lines = lines;
  updated_at = now;
  digital_delivered_at = if delivered then some now else row.digital_delivered_at;
}

pub record Confirmation : Type 0 where
  pub order : OrderRow
  pub receipt_id : String
  pub receipt_event_id : String

-- The order's own UPDATE, its event, and the buyer's notification of an order delivered at once.
unfoldable pub settle_order :
    String → Command → OrderRow → String → Option ℕ → List OrderLine → ℕ → Tx Confirmation
unfolding confirmed insert_event insert_notification_intent
settle_order actor command order receipt_id edition lines now = do
  updated ← set_order order (confirmed (delivered_now order) receipt_id edition lines now)
  event_id ←
      insert_event command (order_aggregate_id order.id) updated.revision actor "receipt.issued" now
  (if delivered_now order
      then insert_notification_intent event_id "order_delivered" updated.buyer_pubky actor
          (order_aggregate_id updated.id) none now
      else pure tt)
  pure (record { order = updated; receipt_id = receipt_id; receipt_event_id = event_id })

guard_confirm : OrderRow → Db → Tx (Unit {0})
unfolding no_longer_held
guard_confirm order db = do
  refuse_if (not (can_transition order_machine order.state "paid"))
      (failure RefusalKind.invalid_state ErrorCode.invalid_state "The order can no longer be paid.")
  refuse_if (unpinnable order db) (
      failure_with_reason RefusalKind.invalid_state ErrorCode.invalid_state
        "The seller's digital delivery is not set up." "digital_delivery_not_ready")
  refuse_if (not (is_some order.auction_aggregate_id) && not order.stock_held)
      (no_longer_held RefusalKind.invariant_violation ErrorCode.invariant_violation)

-- The receipt, the pins and the order, once the stock is sold.
unfoldable pub issue :
    ConfirmKeys → String → Command → PaymentRow → OrderRow → Option ℕ → ℕ → Tx Confirmation
issue keys actor command payment order edition now = do
  receipt_id ← insert_receipt keys order payment now
  lines ← pin_lines keys order payment
  settle_order actor command order receipt_id edition lines now

unfoldable pub confirm_order :
    ConfirmKeys → String → Command → PaymentRow → OrderRow → ℕ → Tx Confirmation
unfolding guard_confirm
confirm_order keys actor command payment order now db =
    (do
      guard_confirm order db
      convert_reservation order now
      edition ← assign_edition order actor command now
      sell_lines now order.lines
      issue keys actor command payment order edition now)
      db
