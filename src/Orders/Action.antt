-- ===== src/Orders/Action.antt =====
-- crates/service/src/handlers/mod.rs: what every order action begins and ends with.
use pubky_marketplace_servic.Prelude.{
  ℕ, String, none, some, List, [], ◌∷◌, ◌==◌, string_key, nat_key, ◌&&◌, not, write, if◌then◌else◌,
  ◌+◌,
}
use pubky_marketplace_servic.Domain.Ids.{order_aggregate_id}
use pubky_marketplace_servic.Domain.ErrorCode.{ErrorCode}
use pubky_marketplace_servic.Store.{
  OrderRow, Tx, RefusalKind, CommandFailure, failure, failure_with_revision, done, refused, fault,
  row_not_found, ◌>>=◌, ◌>>◌, pure, refuse_if, Command, insert_event, insert_notification_intent,
}

pub record HandlerSuccess : Type 0 where
  pub revision : ℕ
  pub event_ids : List String

pub order_not_found : CommandFailure
unfolding failure
order_not_found = failure RefusalKind.not_found ErrorCode.not_found "The order was not found."

-- `SELECT … FROM orders WHERE id = $1 FOR UPDATE`, and the refusal of a missing order.
unfoldable pub fetch_order_for_update : String → Tx OrderRow
unfolding order_not_found
fetch_order_for_update order_id db = elim (db.orders order_id) [
  | none ↦ refused order_not_found
  | some order ↦ done order db
]

-- Participant check, aggregate identity check, then the revision compare.
unfoldable pub guard_order_action : String → Command → OrderRow → Tx (Unit {0})
guard_order_action actor command order = do
  refuse_if (not (actor == order.buyer_pubky) && not (actor == order.seller_pubky)) (
      failure RefusalKind.unauthorized ErrorCode.unauthorized
        "Only order participants may act on it.")
  refuse_if (not (command.aggregate_id == order_aggregate_id order.id)) (
      failure RefusalKind.invalid_command ErrorCode.invalid_command
        "The order aggregate id is invalid.")
  refuse_if (not (command.expected_revision == order.revision)) (
      failure_with_revision RefusalKind.revision_conflict ErrorCode.revision_conflict
        "The order revision is stale." order.revision)

-- `UPDATE orders SET revision = revision + 1, … WHERE id = $1 AND revision = $2 RETURNING …`
unfoldable pub update_order : OrderRow → (OrderRow → OrderRow) → Tx OrderRow
update_order order set db = elim (db.orders order.id) [
  | none ↦ fault row_not_found
  | some row ↦
      if row.revision == order.revision
      then done (set (record row { revision = row.revision + 1 })) (record db {
        orders = write db.orders order.id (set (record row { revision = row.revision + 1 }));
      })
      else fault row_not_found
]

-- One event on the order aggregate and one notification intent.
unfoldable pub finish_order_action :
    String → Command → OrderRow → String → String → String → ℕ → Tx HandlerSuccess
unfolding insert_event insert_notification_intent
finish_order_action actor command order event_kind notification_type recipient now = do
  event_id ← insert_event command (order_aggregate_id order.id) order.revision actor event_kind now
  insert_notification_intent event_id notification_type recipient actor
      (order_aggregate_id order.id) none now
  pure (record { revision = order.revision; event_ids = event_id ∷ [] })

-- The tail that the order actions share: the guarded UPDATE of the locked row, then its event and
-- the notification of the party that `recipient` picks from the updated row.
unfoldable pub advance_order :
    String
    → Command
    → OrderRow
    → (OrderRow → OrderRow)
    → String
    → String
    → (OrderRow → String)
    → ℕ
    → Tx HandlerSuccess
advance_order actor command order set event_kind notification_type recipient now = do
  updated ← update_order order set
  finish_order_action actor command updated event_kind notification_type (recipient updated) now
