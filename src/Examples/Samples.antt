-- ===== src/Examples/Samples.antt =====
-- The rows of the concrete runs.
use Prim.Native.String.{◌++◌ as text_append}
use pubky_marketplace_servic.Prelude.{
  ℕ, String, zero, suc, false, none, [], ◌∷◌, write, string_key, arith, eq_iff,
}
use pubky_marketplace_servic.Store.{
  ListingRow, OrderRow, Shipment, Db, Command, Outcome, done, refused, fault,
}
use pubky_marketplace_servic.Orders.Action.{HandlerSuccess}
use pubky_marketplace_servic.Orders.Contract.{IsKeyed}

-- Different draws have different texts.
abbrev pub numbered : ℕ → String
numbered zero = "event"
numbered (suc n) = text_append "next-" (numbered n)

abbrev pub empty_db : Db
empty_db = record {
  listings = λ k. none;
  orders = λ k. none;
  auction_winners = λ auction. none;
  reservations = [];
  payments = [];
  events = [];
  outbox = [];
  gateway_refunds = [];
  handovers = λ k. none;
  annotations = [];
  pickup_details = [];
  pickup_snapshots = [];
  deliverables = [];
  digital_pins = [];
  digital_access = [];
  receipts = [];
  pickup_cleared_at = λ k. none;
  bids = [];
  auction_reserves = λ k. none;
  drops = λ k. none;
  drop_listings = [];
  drop_purchases = λ i k. none;
  collates = λ a b. false;
  uuids = numbered;
  drawn = 0;
}

abbrev pub lamp : ListingRow
lamp = record {
  aggregate_id = "listing:sam/lamp";
  seller_pubky = "sam";
  listing_id = "lamp";
  listing_revision = 1;
  server_revision = 4;
  state = "available";
  total_quantity = 5;
  available_quantity = 5;
  reserved_quantity = 0;
  sold_quantity = 0;
  unit_price_amount_minor = 700;
  unit_price_currency = "USD";
  unit_price_exponent = 2;
  shipping_minor = 100;
  sale_format = "fixed";
  auction = none;
  generation = 1;
  deleted_at = none;
  recreated_at = none;
  updated_at = 10;
}

abbrev pub order_one : OrderRow
order_one = record {
  id = "o1";
  auction_aggregate_id = none;
  drop_aggregate_id = none;
  buyer_pubky = "bea";
  seller_pubky = "sam";
  revision = 3;
  state = "pending_payment";
  lines =
      record {
        listing_aggregate_id = "listing:sam/lamp";
        quantity = 2;
        version_at_payment = none;
        fulfillment = none;
        digital_kind = none;
      }
      ∷ record {
        listing_aggregate_id = "listing:sam/lamp";
        quantity = 1;
        version_at_payment = none;
        fulfillment = none;
        digital_kind = none;
      }
      ∷ [];
  total_minor = 2200;
  currency = "USD";
  exponent = 2;
  paykit_total_sats = none;
  stock_held = false;
  hold_expires_at = none;
  hold_source = none;
  shipment = none;
  return_request = none;
  external_refund = none;
  receipt_id = none;
  edition = none;
  digital_delivered_at = none;
  cancellation_reason = none;
  payment_method = none;
  paykit_request_state = none;
  fulfillment = "shipping";
  created_at = 20;
  updated_at = 20;
}

abbrev pub parcel : Shipment
parcel = record {
  carrier = "post";
  tracking_number = none;
  state = "shipped";
  shipped_at = 30;
  delivered_at = none;
}

abbrev pub with_order : OrderRow → Db
with_order order = record empty_db {
  orders = write empty_db.orders order.id order;
  listings = write empty_db.listings lamp.aggregate_id lamp;
}

pub with_order-IsKeyed : (order : OrderRow) → IsKeyed (with_order order)
with_order-IsKeyed order k o found = ground (arith, eq_iff k order.id)

abbrev pub command : Command
command = record { command_id = "c1"; aggregate_id = "order:o1"; expected_revision = 3 }

-- The rows and the value of a run that succeeds.
abbrev pub rows {ℓ} : {A : Type ℓ} → Outcome A → Db
rows (done a db) = db
rows (refused e) = empty_db
rows (fault e) = empty_db

abbrev pub success : Outcome HandlerSuccess → HandlerSuccess
success (done s db) = s
success (refused e) = record { revision = 0; event_ids = [] }
success (fault e) = record { revision = 0; event_ids = [] }
