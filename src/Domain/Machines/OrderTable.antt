-- ===== src/Domain/Machines/OrderTable.antt =====
-- crates/domain/src/state_machines.rs: the order machine.
use pubky_marketplace_servic.Prelude.{[], ◌∷◌}
use pubky_marketplace_servic.Domain.Machines.Types.{AggregateMachine, t, command, server}

unfoldable pub order_machine : AggregateMachine
order_machine = record {
  aggregate = "order";
  states =
      "pending_payment" ∷ "paid" ∷ "ready_for_pickup" ∷ "processing" ∷ "shipped" ∷ "delivered"
      ∷ "completed" ∷ "cancel_requested" ∷ "cancelled" ∷ "return_requested" ∷ "return_approved"
      ∷ "return_received" ∷ "refunded_external" ∷ "closed" ∷ [];
  initial = "pending_payment";
  transitions =
      t "pending_payment" "paid"
        (command "payment.sandbox_advance" ∷ server "payment_confirmation" ∷ [])
      ∷ t "pending_payment" "cancelled"
          (command "order.cancel_request" ∷ server "payment_window" ∷ [])
      ∷ t "paid" "shipped" (command "fulfillment.ship" ∷ [])
      ∷ t "paid" "ready_for_pickup" (command "fulfillment.mark_ready" ∷ [])
      ∷ t "paid" "delivered" (
          command "fulfillment.confirm_pickup"
          ∷ command "fulfillment.deliver_digital"
          ∷ server "digital_delivery"
          ∷ [])
      ∷ t "ready_for_pickup" "delivered" (command "fulfillment.confirm_pickup" ∷ [])
      ∷ t "ready_for_pickup" "cancel_requested" (command "order.cancel_request" ∷ [])
      ∷ t "paid" "cancelled" (command "order.cancel_request" ∷ [])
      ∷ t "ready_for_pickup" "cancelled" (command "order.cancel_request" ∷ [])
      ∷ t "paid" "cancel_requested" (command "order.cancel_request" ∷ [])
      ∷ t "processing" "shipped" (command "fulfillment.ship" ∷ [])
      ∷ t "processing" "cancel_requested" (command "order.cancel_request" ∷ [])
      ∷ t "cancel_requested" "cancelled" (command "order.cancel_approve" ∷ [])
      ∷ t "shipped" "delivered"
          (command "fulfillment.confirm_delivery" ∷ server "delivery_assume" ∷ [])
      ∷ t "delivered" "return_requested" (command "return.request" ∷ [])
      ∷ t "delivered" "completed" (command "review.create" ∷ server "order_auto_complete" ∷ [])
      ∷ t "completed" "return_requested" (command "return.request" ∷ [])
      ∷ t "return_requested" "return_approved" (command "return.approve" ∷ [])
      ∷ t "return_approved" "return_received" (command "return.receive" ∷ [])
      ∷ t "return_received" "refunded_external"
          (command "refund.record_external" ∷ server "paypal_refund" ∷ [])
      ∷ t "cancelled" "refunded_external"
          (command "refund.record_external" ∷ server "paypal_refund" ∷ [])
      ∷ t "paid" "refunded_external" (server "paypal_refund" ∷ [])
      ∷ t "ready_for_pickup" "refunded_external" (server "paypal_refund" ∷ [])
      ∷ t "shipped" "refunded_external" (server "paypal_refund" ∷ [])
      ∷ t "delivered" "refunded_external"
          (command "refund.record_external" ∷ server "paypal_refund" ∷ [])
      ∷ t "completed" "refunded_external"
          (command "refund.record_external" ∷ server "paypal_refund" ∷ [])
      ∷ t "cancel_requested" "refunded_external" (server "paypal_refund" ∷ [])
      ∷ t "return_requested" "refunded_external" (server "paypal_refund" ∷ [])
      ∷ t "return_approved" "refunded_external" (server "paypal_refund" ∷ [])
      ∷ t "refunded_external" "paid" (server "paypal_reversal_cancelled" ∷ [])
      ∷ t "refunded_external" "ready_for_pickup" (server "paypal_reversal_cancelled" ∷ [])
      ∷ t "refunded_external" "shipped" (server "paypal_reversal_cancelled" ∷ [])
      ∷ t "refunded_external" "delivered" (server "paypal_reversal_cancelled" ∷ [])
      ∷ t "refunded_external" "completed" (server "paypal_reversal_cancelled" ∷ [])
      ∷ t "refunded_external" "cancel_requested" (server "paypal_reversal_cancelled" ∷ [])
      ∷ t "refunded_external" "cancelled" (server "paypal_reversal_cancelled" ∷ [])
      ∷ t "refunded_external" "return_requested" (server "paypal_reversal_cancelled" ∷ [])
      ∷ t "refunded_external" "return_approved" (server "paypal_reversal_cancelled" ∷ [])
      ∷ t "refunded_external" "return_received" (server "paypal_reversal_cancelled" ∷ [])
      ∷ t "cancelled" "paid" (server "paykit_resolution" ∷ server "late_completion" ∷ [])
      ∷ [];
  commands =
      "checkout.create" ∷ "payment.sandbox_advance" ∷ "order.cancel_request"
      ∷ "order.cancel_approve" ∷ "fulfillment.ship" ∷ "fulfillment.confirm_delivery"
      ∷ "fulfillment.mark_ready" ∷ "fulfillment.confirm_pickup" ∷ "fulfillment.deliver_digital"
      ∷ "order.set_delivery_email" ∷ "return.request" ∷ "return.approve" ∷ "return.receive"
      ∷ "refund.record_external" ∷ "review.create" ∷ "review.update" ∷ [];
  unreachable_states = "processing" ∷ "closed" ∷ [];
}
