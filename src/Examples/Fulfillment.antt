-- ===== src/Examples/Fulfillment.antt =====
-- Orders shipped, delivered and handed over.
use pubky_marketplace_servic.Prelude.{
  some, ◌≡◌, ◌≢◌, ◌⊎◌, true, false, refl, ◌==◌, string_key, if◌then◌else◌,
}
use pubky_marketplace_servic.Store.{OrderRow, Shipment, Outcome, format_timestamp}
use pubky_marketplace_servic.Domain.Ids.{order_aggregate_id}
use pubky_marketplace_servic.Orders.Action.{
  HandlerSuccess, advance_order, update_order, finish_order_action,
}
use pubky_marketplace_servic.Orders.Contract.{Advanced, bumped}
use pubky_marketplace_servic.Orders.Fulfillment.{
  ShipOrderPayload, ship, shipped, confirm_delivery, delivered, mark_ready, ready_for_pickup,
  confirm_pickup, handed_over, confirming_role, order_has_unresolved_terms_change, insert_handover,
  shipment_under_way, any_line_terms_changed, line_terms_changed,
}
use pubky_marketplace_servic.Orders.Fulfillment.Laws.{
  ship-Advanced, confirm_delivery-Advanced, mark_ready-Advanced, confirm_pickup-Advanced,
}
use pubky_marketplace_servic.Examples.Samples.{
  order_one, parcel, with_order, with_order-IsKeyed, command, rows, success,
}

abbrev paid_order : OrderRow
paid_order = record order_one { state = "paid"; stock_held = true }

abbrev shipped_order : OrderRow
shipped_order = record paid_order { state = "shipped"; shipment = some parcel }

abbrev pickup_order : OrderRow
pickup_order = record paid_order { fulfillment = "pickup" }

abbrev ready_order : OrderRow
ready_order = record pickup_order { state = "ready_for_pickup" }

abbrev payload : ShipOrderPayload
payload = record { order_id = "o1"; carrier = "post"; tracking_number = some "n1" }

abbrev ship_run : Outcome HandlerSuccess
ship_run = ship "sam" command payload 90 (with_order paid_order)

ship-Advanced_example :
    (o : OrderRow) × ((with_order paid_order).orders "o1" ≡ some o)
    × (o.seller_pubky ≡ "sam")
    × (o.fulfillment ≢ "pickup")
    × (o.fulfillment ≢ "digital")
    × Advanced "fulfillment.ship" "fulfillment.shipped" "sam" o.buyer_pubky command o
        (shipped payload 90 (bumped o))
        (with_order paid_order)
        (rows ship_run)
        (success ship_run)
unfolding ship order_aggregate_id advance_order update_order finish_order_action
ship-Advanced_example =
    ship-Advanced "sam" command 90 (with_order paid_order) (rows ship_run) (success ship_run)
      payload (with_order-IsKeyed paid_order) refl

abbrev delivery_run : Outcome HandlerSuccess
delivery_run = confirm_delivery "bea" command "o1" 90 (with_order shipped_order)

confirm_delivery-Advanced_example :
    (o : OrderRow) × (shipment : Shipment) × ((with_order shipped_order).orders "o1" ≡ some o)
    × (o.buyer_pubky ≡ "bea")
    × (o.shipment ≡ some shipment)
    × (o.fulfillment ≢ "pickup")
    × (o.fulfillment ≢ "digital")
    × ((delivered shipment 90 (bumped o)).shipment
        ≡ some (record shipment { state = "delivered"; delivered_at = some (format_timestamp 90) }))
    × Advanced "fulfillment.confirm_delivery" "fulfillment.delivered" "bea" o.seller_pubky command o
        (delivered shipment 90 (bumped o))
        (with_order shipped_order)
        (rows delivery_run)
        (success delivery_run)
unfolding confirm_delivery order_aggregate_id advance_order update_order finish_order_action
    shipment_under_way
confirm_delivery-Advanced_example =
    confirm_delivery-Advanced "bea" command 90 (with_order shipped_order) (rows delivery_run)
      (success delivery_run) "o1" (with_order-IsKeyed shipped_order) refl

abbrev ready_run : Outcome HandlerSuccess
ready_run = mark_ready "sam" command "o1" 90 (with_order pickup_order)

mark_ready-Advanced_example :
    (o : OrderRow) × ((with_order pickup_order).orders "o1" ≡ some o)
    × (o.seller_pubky ≡ "sam")
    × (o.fulfillment ≡ "pickup")
    × Advanced "fulfillment.mark_ready" "fulfillment.ready_for_pickup" "sam" o.buyer_pubky command o
        (ready_for_pickup 90 (bumped o))
        (with_order pickup_order)
        (rows ready_run)
        (success ready_run)
unfolding mark_ready order_aggregate_id advance_order update_order finish_order_action
mark_ready-Advanced_example =
    mark_ready-Advanced "sam" command 90 (with_order pickup_order) (rows ready_run)
      (success ready_run) "o1" (with_order-IsKeyed pickup_order) refl

abbrev pickup_run : Outcome HandlerSuccess
pickup_run = confirm_pickup "sam" command "o1" 90 (with_order ready_order)

confirm_pickup-Advanced_example :
    (o : OrderRow) × ((with_order ready_order).orders "o1" ≡ some o)
    × (o.fulfillment ≡ "pickup")
    × ((o.buyer_pubky ≡ "sam")
        ⊎ ((o.seller_pubky ≡ "sam")
            × (order_has_unresolved_terms_change o (with_order ready_order) ≡ false)))
    × Advanced "fulfillment.confirm_pickup" "fulfillment.delivered" "sam"
        (if confirming_role "sam" o == "buyer" then o.seller_pubky else o.buyer_pubky)
        command
        o
        (handed_over 90 (bumped o))
        (with_order ready_order)
        (rows pickup_run)
        (success pickup_run)
unfolding confirm_pickup order_aggregate_id advance_order update_order finish_order_action
    confirming_role order_has_unresolved_terms_change any_line_terms_changed line_terms_changed
    insert_handover
confirm_pickup-Advanced_example =
    confirm_pickup-Advanced "sam" command 90 (with_order ready_order) (rows pickup_run)
      (success pickup_run) "o1" (with_order-IsKeyed ready_order) refl
