-- ===== src/Orders/Returns.antt =====
-- crates/service/src/handlers/returns.rs: the return commands.
pub mod Laws
use pubky_marketplace_servic.Prelude.{
  ℕ, String, Bool, true, false, Option, none, some, List, [], ◌∷◌, ◌++◌, ◌==◌, string_key, ◌&&◌,
  ◌||◌, not, if◌then◌else◌, ltb, any,
}
use pubky_marketplace_servic.Domain.ErrorCode.{ErrorCode}
use pubky_marketplace_servic.Store.{
  OrderRow, ReturnRequest, ExternalRefund, Db, Tx, RefusalKind, failure, failure_with_reason, ◌>>=◌,
  ◌>>◌, pure, refuse_if, some_or, gets, modify, new_uuid, Command, format_timestamp, done,
}
use pubky_marketplace_servic.Orders.Action.{
  HandlerSuccess, fetch_order_for_update, guard_order_action, update_order, finish_order_action,
  advance_order,
}

pub record RequestReturnPayload : Type 0 where
  pub order_id : String
  pub reason : String
  pub requested_amount_minor : ℕ

unfoldable pub return_requested : RequestReturnPayload → ℕ → OrderRow → OrderRow
return_requested payload now row = record row {
  state = "return_requested";
  return_request = some (record {
    state = "requested";
    reason = payload.reason;
    requested_amount_minor = payload.requested_amount_minor;
    requested_at = format_timestamp now;
    updated_at = format_timestamp now;
  });
  updated_at = now;
}

unfoldable pub request : String → Command → RequestReturnPayload → ℕ → Tx HandlerSuccess
unfolding fetch_order_for_update guard_order_action
request actor command payload now = do
  order ← fetch_order_for_update payload.order_id
  guard_order_action actor command order
  refuse_if (not (order.buyer_pubky == actor)) (
      failure RefusalKind.unauthorized ErrorCode.unauthorized
        "Only the buyer may request a return.")
  refuse_if (order.fulfillment == "digital") (
      failure_with_reason RefusalKind.invalid_state ErrorCode.invalid_state
        "Digital purchases cannot be returned." "returns_unavailable_for_digital")
  refuse_if
      (not (order.state == "delivered" || order.state == "completed")
        || ltb order.total_minor payload.requested_amount_minor)
      (failure RefusalKind.invalid_state ErrorCode.invalid_state
        "The order is not eligible for this return amount.")
  advance_order actor command order (return_requested payload now) "return.requested"
      "return_updated" (λ updated. updated.seller_pubky) now

-- The two seller-driven steps of a return.
pub record ReturnStep : Type 0 where
  pub from_order_state : String
  pub to_order_state : String
  pub to_return_state : String
  pub invalid_message : String
  pub event_kind : String

-- The return request of an order in the step's state.
unfoldable pub return_in_state : ReturnStep → OrderRow → Option ReturnRequest
return_in_state step order =
    if order.state == step.from_order_state then order.return_request else none

pub return_advanced : ReturnStep → ReturnRequest → ℕ → OrderRow → OrderRow
return_advanced step return_request now row = record row {
  state = step.to_order_state;
  return_request =
      some
        (record return_request { state = step.to_return_state; updated_at = format_timestamp now });
  updated_at = now;
}

-- Seller-driven return progression: the order state and the return sub-state advance together.
unfoldable pub advance_return : String → Command → String → ReturnStep → ℕ → Tx HandlerSuccess
unfolding fetch_order_for_update guard_order_action
advance_return actor command order_id step now = do
  order ← fetch_order_for_update order_id
  guard_order_action actor command order
  refuse_if (not (order.seller_pubky == actor)) (
      failure RefusalKind.unauthorized ErrorCode.unauthorized (
        if step.to_return_state == "approved"
        then "Only the seller may approve this return."
        else "Only the seller may receive this return."))
  return_request ←
      some_or (return_in_state step order)
        (failure RefusalKind.invalid_state ErrorCode.invalid_state step.invalid_message)
  advance_order actor command order (return_advanced step return_request now) step.event_kind
      "return_updated" (λ updated. updated.buyer_pubky) now

abbrev pub approve_step : ReturnStep
approve_step = record {
  from_order_state = "return_requested";
  to_order_state = "return_approved";
  to_return_state = "approved";
  invalid_message = "No return is pending approval.";
  event_kind = "return.approved";
}

abbrev pub receive_step : ReturnStep
receive_step = record {
  from_order_state = "return_approved";
  to_order_state = "return_received";
  to_return_state = "received";
  invalid_message = "The return is not approved.";
  event_kind = "return.received";
}

unfoldable pub approve : String → Command → String → ℕ → Tx HandlerSuccess
unfolding advance_return
approve actor command order_id now = advance_return actor command order_id approve_step now

unfoldable pub receive : String → Command → String → ℕ → Tx HandlerSuccess
unfolding advance_return
receive actor command order_id now = advance_return actor command order_id receive_step now
