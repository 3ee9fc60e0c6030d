-- ===== src/Payments/RefundRoute.antt =====
-- crates/service/src/bitcoin_review.rs: money that arrives for an order that cannot be served.
use pubky_marketplace_servic.Prelude.{
  ℕ, String, Bool, false, Option, none, some, ◌==◌, string_key, ◌&&◌, ◌||◌, not, if◌then◌else◌, ◌+◌,
  find, map, write, is_some,
}
use pubky_marketplace_servic.Domain.Ids.{order_aggregate_id, payment_aggregate_id}
use pubky_marketplace_servic.Store.{
  OrderRow, PaymentRow, Db, Tx, done, refused, fault, protocol, ◌>>=◌, ◌>>◌, pure, Command,
  insert_event, insert_notification_intent,
}
use pubky_marketplace_servic.Inventory.Holds.{reserved, release_lines}
use pubky_marketplace_servic.Orders.Cancellation.{credit_order_drop}

unfoldable pub find_payment : String → Db → Option PaymentRow
find_payment id db = find (λ p. p.id == id) db.payments

unfoldable pub set_payment : String → (PaymentRow → PaymentRow) → Db → Db
set_payment id set db = record db {
  payments = map (λ p. if p.id == id then set p else p) db.payments;
}

-- The route turns every failure of its steps into an internal error.
must : {A : Type 0} → Tx A → Tx A
must m db = elim (m db) [
  | done a db' ↦ done a db'
  | refused e ↦ fault protocol
  | fault e ↦ fault protocol
]

reviewable : PaymentRow → Bool
reviewable p =
    (p.state == "expired"
      || p.state == "awaiting_entitlement"
      || p.state == "manual_review"
      || p.state == "detected")
    && not (is_some p.resolution_outcome)

in_review : String → String → ℕ → PaymentRow → PaymentRow
in_review reason target_state now p = record p {
  state = target_state;
  revision = p.revision + 1;
  review_reason = some reason;
  manual_review_entered_at =
      if target_state == "manual_review" then some now else p.manual_review_entered_at;
  updated_at = now;
}

unfoldable pub stamp_review_reason : PaymentRow → String → String → Command → String → ℕ → Tx String
unfolding reviewable in_review find_payment set_payment
stamp_review_reason payment reason target_state command event_actor now db =
    elim (find_payment payment.id db) [
      | none ↦ fault protocol
      | some p ↦
          if reviewable p
          then insert_event command (payment_aggregate_id payment.id) (p.revision + 1) event_actor
              "payment.manual_review" now
              (set_payment payment.id (in_review reason target_state now) db)
          else fault protocol
    ]

unfoldable pub give_stock_back : OrderRow → ℕ → Tx (Unit {0})
unfolding must
give_stock_back order now =
    if order.stock_held && not (is_some order.auction_aggregate_id)
    then must (credit_order_drop order order.lines now)
      >> must (release_lines reserved now order.lines)
    else pure tt

unpayable : String → ℕ → OrderRow → OrderRow
unpayable cancellation_reason now row = record row {
  state = "cancelled";
  revision = row.revision + 1;
  cancellation_reason = some cancellation_reason;
  stock_held = false;
  hold_expires_at = none;
  updated_at = now;
}

-- `UPDATE orders SET state = 'cancelled' … WHERE id = $1 AND state = 'pending_payment'`, and its
-- event.
unfoldable pub cancel_pending : OrderRow → String → Command → String → ℕ → Tx (Unit {0})
unfolding unpayable
cancel_pending order cancellation_reason command event_actor now db = elim (db.orders order.id) [
  | none ↦ done tt db
  | some row ↦
      if row.state == "pending_payment"
      then (insert_event command (order_aggregate_id order.id) (row.revision + 1) event_actor
              "order.cancelled" now
            >> pure tt)
          (record db { orders = write db.orders order.id (unpayable cancellation_reason now row) })
      else done tt db
]

unfoldable pub refund_required : PaymentRow → OrderRow → String → Command → String → ℕ → Tx String
unfolding insert_notification_intent
refund_required payment order cancellation_reason command event_actor now = do
  event_id ← stamp_review_reason payment "refund_required" "manual_review" command event_actor now
  (if order.state == "pending_payment"
      then give_stock_back order now
        >> cancel_pending order cancellation_reason command event_actor now
      else pure tt)
  insert_notification_intent event_id "payment_refund_required" order.buyer_pubky event_actor
      (order_aggregate_id order.id) none now
  insert_notification_intent event_id "payment_refund_required" order.seller_pubky event_actor
      (order_aggregate_id order.id) none now
  pure event_id
