-- ===== src/Orders/Fulfillment.antt =====
-- crates/service/src/handlers/fulfillment.rs: shipment, delivery and the pickup handover.
pub mod Laws
use pubky_marketplace_servic.Prelude.{
  ℕ, String, Bool, true, false, Option, none, some, List, [], ◌∷◌, ◌==◌, string_key, ◌&&◌, ◌||◌,
  not, if◌then◌else◌, write, ltb, max, is_some,
}
use pubky_marketplace_servic.Domain.ErrorCode.{ErrorCode}
use pubky_marketplace_servic.Store.{
  OrderRow, OrderLine, PickupDetailsRow, Shipment, Db, Tx, RefusalKind, failure, ◌>>=◌, ◌>>◌, pure,
  refuse_if, some_or, gets, modify, Command, format_timestamp, done,
}
use pubky_marketplace_servic.Orders.Action.{
  HandlerSuccess, fetch_order_for_update, guard_order_action, advance_order,
}

pub record ShipOrderPayload : Type 0 where
  pub order_id : String
  pub carrier : String
  pub tracking_number : Option String

pub shipped : ShipOrderPayload → ℕ → OrderRow → OrderRow
shipped payload now row = record row {
  state = "shipped";
  shipment = some (record {
    carrier = payload.carrier;
    tracking_number = payload.tracking_number;
    state = "shipped";
    shipped_at = format_timestamp now;
    delivered_at = none;
  });
  updated_at = now;
}

unfoldable pub ship : String → Command → ShipOrderPayload → ℕ → Tx HandlerSuccess
unfolding fetch_order_for_update guard_order_action
ship actor command payload now = do
  order ← fetch_order_for_update payload.order_id
  guard_order_action actor command order
  refuse_if (not (order.seller_pubky == actor)) (
      failure RefusalKind.unauthorized ErrorCode.unauthorized
        "Only the seller may ship this order.")
  refuse_if (order.fulfillment == "pickup") (
      failure RefusalKind.invalid_state ErrorCode.invalid_state
        "A pickup order cannot be shipped; use the pickup handover commands.")
  refuse_if (order.fulfillment == "digital")
      (failure RefusalKind.invalid_state ErrorCode.invalid_state "A digital order is not shipped.")
  refuse_if (not (order.state == "paid" || order.state == "processing"))
      (failure RefusalKind.invalid_state ErrorCode.invalid_state "The order is not ready to ship.")
  advance_order actor command order (shipped payload now) "fulfillment.shipped" "order_shipped"
      (λ updated. updated.buyer_pubky) now

-- The shipment of an order that is on its way.
unfoldable pub shipment_under_way : OrderRow → Option Shipment
shipment_under_way order = if order.state == "shipped" then order.shipment else none

pub delivered : Shipment → ℕ → OrderRow → OrderRow
delivered shipment now row = record row {
  state = "delivered";
  shipment =
      some (record shipment { state = "delivered"; delivered_at = some (format_timestamp now) });
  updated_at = now;
}

unfoldable pub confirm_delivery : String → Command → String → ℕ → Tx HandlerSuccess
unfolding fetch_order_for_update guard_order_action
confirm_delivery actor command order_id now = do
  order ← fetch_order_for_update order_id
  guard_order_action actor command order
  refuse_if (not (order.buyer_pubky == actor)) (
      failure RefusalKind.unauthorized ErrorCode.unauthorized
        "Only the buyer may confirm delivery.")
  refuse_if (order.fulfillment == "pickup") (
      failure RefusalKind.invalid_state ErrorCode.invalid_state
        "A pickup order has no shipment to confirm; use fulfillment.confirm_pickup.")
  refuse_if (order.fulfillment == "digital") (
      failure RefusalKind.invalid_state ErrorCode.invalid_state
        "A digital order has no shipment to confirm.")
  shipment ← some_or (shipment_under_way order) (
      failure RefusalKind.invalid_state ErrorCode.invalid_state
        "The order is not awaiting delivery confirmation.")
  advance_order actor command order (delivered shipment now) "fulfillment.delivered"
      "order_delivered" (λ updated. updated.seller_pubky) now

guard_pickup_order : OrderRow → Tx (Unit {0})
guard_pickup_order order = refuse_if (not (order.fulfillment == "pickup")) (
    failure RefusalKind.invalid_state ErrorCode.invalid_state
      "This command applies only to pickup orders.")

pub ready_for_pickup : ℕ → OrderRow → OrderRow
ready_for_pickup now row = record row { state = "ready_for_pickup"; updated_at = now }

unfoldable pub mark_ready : String → Command → String → ℕ → Tx HandlerSuccess
unfolding fetch_order_for_update guard_order_action guard_pickup_order
mark_ready actor command order_id now = do
  order ← fetch_order_for_update order_id
  guard_order_action actor command order
  refuse_if (not (order.seller_pubky == actor)) (
      failure RefusalKind.unauthorized ErrorCode.unauthorized
        "Only the seller may mark the order ready for pickup.")
  guard_pickup_order order
  refuse_if (not (order.state == "paid")) (
      failure RefusalKind.invalid_state ErrorCode.invalid_state
        "The order is not awaiting pickup readiness.")
  advance_order actor command order (ready_for_pickup now) "fulfillment.ready_for_pickup"
      "pickup_ready" (λ updated. updated.buyer_pubky) now

-- `SELECT MAX(d.version) … WHERE d.aggregate_id = $1 AND c.cleared_at IS NULL`
max_version : String → List PickupDetailsRow → Option ℕ
max_version aggregate_id [] = none
max_version aggregate_id (d ∷ ds) =
    let rest = max_version aggregate_id ds in
    if d.aggregate_id == aggregate_id
    then some (elim rest [ none ↦ d.version | some version ↦ max d.version version ])
    else rest

unfoldable pub current_pickup_version : Db → String → Option ℕ
unfolding max_version
current_pickup_version db aggregate_id =
    if is_some (db.pickup_cleared_at aggregate_id)
    then none
    else max_version aggregate_id db.pickup_details

unfoldable pub line_terms_changed : Db → OrderLine → Bool
line_terms_changed db line = elim line.version_at_payment [
  | none ↦ false
  | some version_at_payment ↦ elim (current_pickup_version db line.listing_aggregate_id) [
    | none ↦ true
    | some current_version ↦ ltb version_at_payment current_version
  ]
]

unfoldable pub any_line_terms_changed : Db → List OrderLine → Bool
any_line_terms_changed db [] = false
any_line_terms_changed db (line ∷ lines) =
    line_terms_changed db line || any_line_terms_changed db lines

-- crates/service/src/handlers/pickup.rs.
unfoldable pub order_has_unresolved_terms_change : OrderRow → Db → Bool
order_has_unresolved_terms_change order db =
    if order.fulfillment == "pickup" then any_line_terms_changed db order.lines else false

unfoldable pub confirming_role : String → OrderRow → String
confirming_role actor order = if actor == order.buyer_pubky then "buyer" else "seller"

-- `INSERT INTO pickup_handovers … ON CONFLICT (order_id) DO NOTHING`
unfoldable pub insert_handover : String → String → ℕ → Db → Db
insert_handover order_id role now db = elim (db.handovers order_id) [
  | none ↦ record db {
    handovers = write db.handovers order_id (record { confirmed_by = role; confirmed_at = now });
  }
  | some _ ↦ db
]

pub handed_over : ℕ → OrderRow → OrderRow
handed_over now row = record row { state = "delivered"; updated_at = now }

unfoldable pub confirm_pickup : String → Command → String → ℕ → Tx HandlerSuccess
unfolding fetch_order_for_update guard_order_action guard_pickup_order
confirm_pickup actor command order_id now = do
  order ← fetch_order_for_update order_id
  guard_order_action actor command order
  guard_pickup_order order
  refuse_if (not (order.state == "paid" || order.state == "ready_for_pickup")) (
      failure RefusalKind.invalid_state ErrorCode.invalid_state
        "The order is not awaiting a pickup handover.")
  terms_changed ← gets (order_has_unresolved_terms_change order)
  refuse_if (confirming_role actor order == "seller" && terms_changed) (
      failure RefusalKind.invalid_state ErrorCode.invalid_state
        "The pickup terms changed after payment; the seller cannot confirm the handover until the buyer has seen the change.")
  modify (insert_handover order.id (confirming_role actor order) now)
  advance_order actor command order (handed_over now) "fulfillment.delivered" "order_delivered"
      (λ updated.
        if confirming_role actor order == "buyer"
        then updated.seller_pubky
        else updated.buyer_pubky)
      now
