-- ===== src/Orders/Refund.antt =====
-- crates/service/src/handlers/returns.rs: `refund.record_external`, and the annotation of
-- crates/service/src/handlers/attestation.rs that it may append.
pub mod Laws
use pubky_marketplace_servic.Prelude.{
  ℕ, String, Bool, true, false, Option, none, some, List, [], ◌∷◌, ◌++◌, ◌==◌, string_key, ◌&&◌,
  ◌||◌, not, if◌then◌else◌, ltb, any,
}
use pubky_marketplace_servic.Domain.ErrorCode.{ErrorCode}
use pubky_marketplace_servic.Store.{
  OrderRow, ReturnRequest, ExternalRefund, Db, Tx, RefusalKind, failure, ◌>>=◌, ◌>>◌, pure,
  refuse_if, gets, modify, new_uuid, Command, format_timestamp, done,
}
use pubky_marketplace_servic.Orders.Action.{
  HandlerSuccess, fetch_order_for_update, guard_order_action, update_order, finish_order_action,
}

pub record RecordExternalRefundPayload : Type 0 where
  pub order_id : String
  pub amount_minor : ℕ
  pub transaction_id : String

-- What earlier records already returned: nothing, the running sum of a PayPal refund
-- notification, or `none` for a record that refuses a second one.
pub recorded_minor : OrderRow → Db → Option ℕ
recorded_minor order db = elim order.external_refund [
  | none ↦ some 0
  | some existing ↦
      if any (λ r. r.order_id == order.id && r.refund_txn_id == existing.transaction_id)
        db.gateway_refunds
      then some existing.amount_minor
      else none
]

pub below_recorded : Option ℕ → ℕ → Bool
below_recorded none amount_minor = true
below_recorded (some recorded) amount_minor = ltb amount_minor recorded

pub is_refundable_state : OrderRow → Bool
is_refundable_state order =
    order.state == "return_received"
    || order.state == "cancelled"
    || (order.fulfillment == "digital"
        && (order.state == "delivered" || order.state == "completed"))

pub refunded : RecordExternalRefundPayload → ℕ → OrderRow → OrderRow
refunded payload now row = record row {
  state = "refunded_external";
  external_refund = some (record {
    amount_minor = payload.amount_minor;
    transaction_id = payload.transaction_id;
    recorded_at = format_timestamp now;
  });
  return_request = elim row.return_request [
    | none ↦ none
    | some request ↦ some (record request { state = "refunded"; updated_at = format_timestamp now })
  ];
  updated_at = now;
}

-- `order_ref` is the attestor's keyed hash of the order id, if an attestor is configured.
unfoldable pub annotate : Option (String → String) → String → String → ℕ → Tx (Unit {0})
annotate none order_id outcome now = pure tt
annotate (some order_ref) order_id outcome now = do
  id ← new_uuid
  modify λ db. record db {
    annotations =
        db.annotations
        ++ record {
          id = id;
          order_ref = order_ref order_id;
          outcome = outcome;
          reason = none;
          annotated_at = now;
        }
          ∷ [];
  }

unfoldable pub record_external_refund :
    Option (String → String)
    → String
    → Command
    → RecordExternalRefundPayload
    → ℕ
    → Tx HandlerSuccess
unfolding fetch_order_for_update guard_order_action recorded_minor below_recorded
    is_refundable_state
record_external_refund attestor actor command payload now = do
  order ← fetch_order_for_update payload.order_id
  guard_order_action actor command order
  refuse_if (not (order.seller_pubky == actor)) (
      failure RefusalKind.unauthorized ErrorCode.unauthorized
        "Only the seller may record a refund.")
  recorded ← gets (recorded_minor order)
  refuse_if
      (not (is_refundable_state order)
        || ltb order.total_minor payload.amount_minor
        || below_recorded recorded payload.amount_minor)
      (failure RefusalKind.invalid_state ErrorCode.invalid_state
        "The external refund cannot be recorded.")
  updated ← update_order order (refunded payload now)
  annotate attestor updated.id "refunded" now
  finish_order_action actor command updated "refund.recorded_external" "refund_recorded"
      updated.buyer_pubky now
