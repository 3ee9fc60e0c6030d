-- ===== src/Auctions/Awarding.antt =====
-- crates/service/src/handlers/auction.rs: what the winner of a closed auction receives.
use pubky_marketplace_servic.Prelude.{
  ℕ, String, Table, Bool, true, false, Option, none, some, List, [], ◌∷◌, ◌++◌, ◌==◌, string_key,
  nat_key, ◌||◌, if◌then◌else◌, ◌+◌, ◌*◌, any, write, is_some,
}
use pubky_marketplace_servic.Domain.Ids.{order_aggregate_id}
use pubky_marketplace_servic.Store.{
  AuctionState, ListingRow, ReservationRow, OrderRow, PaymentRow, Db, Tx, done, fault,
  unique_violation, ◌>>=◌, ◌>>◌, pure, new_uuid, Command, insert_event, insert_notification_intent,
}
use pubky_marketplace_servic.Inventory.Holds.{seconds}
use pubky_marketplace_servic.Inventory.Reservations.{insert_reservation}

-- `AUCTION_HOLD_SECONDS`: 30 minutes.
unfoldable pub auction_hold_seconds : ℕ
auction_hold_seconds = 30 * 60

unfoldable pub winning_reservation : Command → ListingRow → String → ℕ → ReservationRow
unfolding auction_hold_seconds
winning_reservation command listing winner now = record {
  id = command.command_id;
  listing_aggregate_id = listing.aggregate_id;
  buyer_pubky = winner;
  quantity = 1;
  status = "active";
  expires_at = now + seconds auction_hold_seconds;
  created_at = now;
  updated_at = now;
  drop_aggregate_id = none;
  offer_award_id = none;
}

-- One unit at the final price, and the listing's flat shipping.
unfoldable pub won_order : ListingRow → AuctionState → String → String → ℕ → OrderRow
won_order listing auction winner order_id now = record {
  id = order_id;
  auction_aggregate_id = some listing.aggregate_id;
  drop_aggregate_id = none;
  buyer_pubky = winner;
  seller_pubky = listing.seller_pubky;
  revision = 1;
  state = "pending_payment";
  lines =
      record {
        listing_aggregate_id = listing.aggregate_id;
        quantity = 1;
        version_at_payment = none;
        fulfillment = none;
        digital_kind = none;
      }
      ∷ [];
  total_minor = auction.current_price.amount_minor + listing.shipping_minor;
  currency = auction.current_price.currency;
  exponent = auction.current_price.exponent;
  paykit_total_sats = none;
  stock_held = false;
  hold_expires_at = none;
  hold_source = none;
  shipment = none;
  return_request = none;
  external_refund = none;
  receipt_id = none;
  edition = none;
  digital_delivered_at = none;
  cancellation_reason = none;
  payment_method = none;
  paykit_request_state = none;
  fulfillment = "shipping";
  created_at = now;
  updated_at = now;
}

unfoldable pub won_payment : OrderRow → String → ℕ → PaymentRow
won_payment order payment_id now = record {
  id = payment_id;
  order_id = order.id;
  buyer_pubky = order.buyer_pubky;
  seller_pubky = order.seller_pubky;
  revision = 1;
  adapter = "sandbox";
  state = "awaiting_entitlement";
  confirmations = 0;
  manual_review_entered_at = none;
  review_reason = none;
  resolution_outcome = none;
  created_at = now;
  updated_at = now;
}

unfoldable pub is_won : OrderRow → Db → Bool
is_won order db = elim order.auction_aggregate_id [
  | none ↦ false
  | some auction ↦ is_some (db.auction_winners auction)
]

unfoldable pub indexed : OrderRow → Table String String → Table String String
indexed order winners = elim order.auction_aggregate_id [
  | none ↦ winners
  | some auction ↦ write winners auction order.id
]

-- The table's primary key, and its index of one winning order for each auction.
unfoldable pub insert_order : OrderRow → Tx (Unit {0})
unfolding is_won indexed
insert_order order db = elim (is_some (db.orders order.id) || is_won order db) [
  | true ↦ fault unique_violation
  | false ↦ done tt (record db {
    orders = write db.orders order.id order;
    auction_winners = indexed order db.auction_winners;
  })
]

-- The table's primary key, and its key on the order.
unfoldable pub insert_payment : PaymentRow → Tx (Unit {0})
insert_payment payment db =
    if any (λ p. p.id == payment.id || p.order_id == payment.order_id) db.payments
    then fault unique_violation
    else done tt (record db { payments = db.payments ++ payment ∷ [] })

-- The payment of the winner's order, the order's event and the winner's notification.
unfoldable pub announce_order :
    String
    → Command
    → ListingRow
    → AuctionState
    → String
    → String
    → ℕ
    → OrderRow
    → String
    → Tx (List String)
unfolding insert_payment won_payment insert_event insert_notification_intent
announce_order actor command listing auction winner close_event_id now order payment_id = do
  insert_payment (won_payment order payment_id now)
  order_event_id ← insert_event command (order_aggregate_id order.id) 1 actor "order.created" now
  insert_notification_intent close_event_id "auction_won" winner actor listing.aggregate_id
      (some auction.current_price) now
  pure (order_event_id ∷ [])

unfoldable pub open_order :
    String
    → Command
    → ListingRow
    → AuctionState
    → String
    → String
    → ℕ
    → OrderRow
    → String
    → Tx (List String)
unfolding insert_order announce_order
open_order actor command listing auction winner close_event_id now order payment_id =
    insert_order order
    >> announce_order actor command listing auction winner close_event_id now order payment_id

unfoldable pub award :
    String → Command → ListingRow → AuctionState → String → String → ℕ → Tx (List String)
unfolding winning_reservation won_order
award actor command listing auction winner close_event_id now = do
  insert_reservation (winning_reservation command listing winner now)
  order_id ← new_uuid
  payment_id ← new_uuid
  open_order actor command listing auction winner close_event_id now
      (won_order listing auction winner order_id now) payment_id

unfoldable pub award_winner :
    String → Command → ListingRow → AuctionState → Option String → String → ℕ → Tx (List String)
award_winner actor command listing auction none close_event_id now = pure []
award_winner actor command listing auction (some winner) close_event_id now =
    award actor command listing auction winner close_event_id now
