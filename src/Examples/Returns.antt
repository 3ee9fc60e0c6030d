-- ===== src/Examples/Returns.antt =====
-- A return asked for, approved and received, and its refund recorded.
use pubky_marketplace_servic.Prelude.{none, some, ◌≡◌, ◌≢◌, ◌≤◌, true, refl}
use pubky_marketplace_servic.Store.{OrderRow, ReturnRequest, Outcome, format_timestamp}
use pubky_marketplace_servic.Domain.Ids.{order_aggregate_id}
use pubky_marketplace_servic.Orders.Action.{
  HandlerSuccess, advance_order, update_order, finish_order_action,
}
use pubky_marketplace_servic.Orders.Contract.{Advanced, bumped}
use pubky_marketplace_servic.Orders.Returns.{
  RequestReturnPayload, request, return_requested, approve, receive, return_advanced, approve_step,
  receive_step, advance_return, return_in_state,
}
use pubky_marketplace_servic.Orders.Returns.Laws.{
  request-Advanced, approve-Advanced, receive-Advanced,
}
use pubky_marketplace_servic.Orders.Refund.{
  RecordExternalRefundPayload, record_external_refund, refunded, is_refundable_state, annotate,
}
use pubky_marketplace_servic.Orders.Refund.Laws.{CoversRecorded, record_external_refund-Advanced}
use pubky_marketplace_servic.Examples.Samples.{
  order_one, with_order, with_order-IsKeyed, command, rows, success,
}

abbrev delivered_order : OrderRow
delivered_order = record order_one { state = "delivered"; stock_held = true }

abbrev payload : RequestReturnPayload
payload = record { order_id = "o1"; reason = "broken"; requested_amount_minor = 700 }

abbrev asked_run : Outcome HandlerSuccess
asked_run = request "bea" command payload 90 (with_order delivered_order)

request-Advanced_example :
    (o : OrderRow) × ((with_order delivered_order).orders "o1" ≡ some o)
    × (o.buyer_pubky ≡ "bea")
    × (o.fulfillment ≢ "digital")
    × (700 ≤ o.total_minor)
    × Advanced "return.request" "return.requested" "bea" o.seller_pubky command o
        (return_requested payload 90 (bumped o))
        (with_order delivered_order)
        (rows asked_run)
        (success asked_run)
unfolding request order_aggregate_id advance_order update_order finish_order_action
request-Advanced_example =
    request-Advanced "bea" command 90 (with_order delivered_order) (rows asked_run)
      (success asked_run) payload (with_order-IsKeyed delivered_order) refl

abbrev asked_order : OrderRow
asked_order = record delivered_order {
  state = "return_requested";
  return_request = some (record {
    state = "requested";
    reason = "broken";
    requested_amount_minor = 700;
    requested_at = 80;
    updated_at = 80;
  });
}

abbrev approved_order : OrderRow
approved_order = record delivered_order {
  state = "return_approved";
  return_request = some (record {
    state = "approved";
    reason = "broken";
    requested_amount_minor = 700;
    requested_at = 80;
    updated_at = 85;
  });
}

abbrev approved_run : Outcome HandlerSuccess
approved_run = approve "sam" command "o1" 90 (with_order asked_order)

approve-Advanced_example :
    (o : OrderRow) × (r : ReturnRequest) × ((with_order asked_order).orders "o1" ≡ some o)
    × (o.seller_pubky ≡ "sam")
    × (o.return_request ≡ some r)
    × ((return_advanced approve_step r 90 (bumped o)).return_request
        ≡ some (record r { state = "approved"; updated_at = format_timestamp 90 }))
    × Advanced "return.approve" "return.approved" "sam" o.buyer_pubky command o
        (return_advanced approve_step r 90 (bumped o))
        (with_order asked_order)
        (rows approved_run)
        (success approved_run)
unfolding approve order_aggregate_id advance_return advance_order update_order finish_order_action
    return_in_state
approve-Advanced_example =
    approve-Advanced "sam" command 90 (with_order asked_order) (rows approved_run)
      (success approved_run) "o1" (with_order-IsKeyed asked_order) refl

abbrev received_run : Outcome HandlerSuccess
received_run = receive "sam" command "o1" 90 (with_order approved_order)

receive-Advanced_example :
    (o : OrderRow) × (r : ReturnRequest) × ((with_order approved_order).orders "o1" ≡ some o)
    × (o.seller_pubky ≡ "sam")
    × (o.return_request ≡ some r)
    × ((return_advanced receive_step r 90 (bumped o)).return_request
        ≡ some (record r { state = "received"; updated_at = format_timestamp 90 }))
    × Advanced "return.receive" "return.received" "sam" o.buyer_pubky command o
        (return_advanced receive_step r 90 (bumped o))
        (with_order approved_order)
        (rows received_run)
        (success received_run)
unfolding receive order_aggregate_id advance_return advance_order update_order finish_order_action
    return_in_state
receive-Advanced_example =
    receive-Advanced "sam" command 90 (with_order approved_order) (rows received_run)
      (success received_run) "o1" (with_order-IsKeyed approved_order) refl

abbrev received_order : OrderRow
received_order = record delivered_order { state = "return_received" }

abbrev refund : RecordExternalRefundPayload
refund = record { order_id = "o1"; amount_minor = 2200; transaction_id = "t1" }

abbrev refund_run : Outcome HandlerSuccess
refund_run = record_external_refund none "sam" command refund 90 (with_order received_order)

record_external_refund-Advanced_example :
    (o : OrderRow) × ((with_order received_order).orders "o1" ≡ some o)
    × (o.seller_pubky ≡ "sam")
    × (is_refundable_state o ≡ true)
    × (2200 ≤ o.total_minor)
    × CoversRecorded o (with_order received_order) 2200
    × Advanced "refund.record_external" "refund.recorded_external" "sam" o.buyer_pubky command o
        (refunded refund 90 (bumped o))
        (with_order received_order)
        (rows refund_run)
        (success refund_run)
unfolding record_external_refund order_aggregate_id update_order finish_order_action annotate
record_external_refund-Advanced_example =
    record_external_refund-Advanced "sam" command 90 (with_order received_order) (rows refund_run)
      (success refund_run) none refund (with_order-IsKeyed received_order) refl
