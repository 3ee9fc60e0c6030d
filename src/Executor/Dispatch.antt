-- ===== src/Executor/Dispatch.antt =====
-- crates/service/src/executor.rs: `dispatch`, for the commands whose handlers are modelled.
use pubky_marketplace_servic.Prelude.{ℕ, String, Option}
use pubky_marketplace_servic.Store.{Tx, Command}
use pubky_marketplace_servic.Orders.Action.{HandlerSuccess}
use pubky_marketplace_servic.Orders.Returns.{RequestReturnPayload, request, approve, receive}
use pubky_marketplace_servic.Orders.Refund.{RecordExternalRefundPayload, record_external_refund}
use pubky_marketplace_servic.Orders.Fulfillment.{
  ShipOrderPayload, ship, confirm_delivery, mark_ready, confirm_pickup,
}
use pubky_marketplace_servic.Orders.Cancellation.{approve_cancellation}
use pubky_marketplace_servic.Inventory.Reservations.{ReserveInventoryPayload, reserve}
use pubky_marketplace_servic.Drops.Commands.{cancel}
use pubky_marketplace_servic.Auctions.Bidding.{PlaceBidPayload, place_bid}
use pubky_marketplace_servic.Auctions.Closing.{close}

pub data CommandPayload : Type 0 where
  cancel_drop : CommandPayload
  place_bid_payload : PlaceBidPayload → CommandPayload
  close_auction : CommandPayload
  ship_order : ShipOrderPayload → CommandPayload
  confirm_delivery_payload : String → CommandPayload
  mark_ready_for_pickup : String → CommandPayload
  confirm_pickup_payload : String → CommandPayload
  request_return : RequestReturnPayload → CommandPayload
  approve_return : String → CommandPayload
  receive_return : String → CommandPayload
  record_refund : RecordExternalRefundPayload → CommandPayload
  reserve_inventory : ReserveInventoryPayload → CommandPayload
  approve_cancellation_payload : String → CommandPayload

unfoldable pub kind : CommandPayload → String
kind cancel_drop = "drop.cancel"
kind (place_bid_payload payload) = "auction.place_bid"
kind close_auction = "auction.close"
kind (ship_order payload) = "fulfillment.ship"
kind (confirm_delivery_payload order_id) = "fulfillment.confirm_delivery"
kind (mark_ready_for_pickup order_id) = "fulfillment.mark_ready"
kind (confirm_pickup_payload order_id) = "fulfillment.confirm_pickup"
kind (request_return payload) = "return.request"
kind (approve_return order_id) = "return.approve"
kind (receive_return order_id) = "return.receive"
kind (record_refund payload) = "refund.record_external"
kind (reserve_inventory payload) = "inventory.reserve"
kind (approve_cancellation_payload order_id) = "order.cancel_approve"

-- `attestor` is the configured attestor's `order_ref`.
unfoldable pub dispatch :
    Option (String → String) → String → Command → CommandPayload → ℕ → Tx HandlerSuccess
dispatch attestor actor command cancel_drop now = cancel actor command now
dispatch attestor actor command (place_bid_payload payload) now =
    place_bid actor command payload now
dispatch attestor actor command close_auction now = close actor command now
dispatch attestor actor command (ship_order payload) now = ship actor command payload now
dispatch attestor actor command (confirm_delivery_payload order_id) now =
    confirm_delivery actor command order_id now
dispatch attestor actor command (mark_ready_for_pickup order_id) now =
    mark_ready actor command order_id now
dispatch attestor actor command (confirm_pickup_payload order_id) now =
    confirm_pickup actor command order_id now
dispatch attestor actor command (request_return payload) now = request actor command payload now
dispatch attestor actor command (approve_return order_id) now = approve actor command order_id now
dispatch attestor actor command (receive_return order_id) now = receive actor command order_id now
dispatch attestor actor command (record_refund payload) now =
    record_external_refund attestor actor command payload now
dispatch attestor actor command (reserve_inventory payload) now = reserve actor command payload now
dispatch attestor actor command (approve_cancellation_payload order_id) now =
    approve_cancellation actor command order_id now
