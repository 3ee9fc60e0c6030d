-- ===== src/Payments/Sandbox.antt =====
-- crates/service/src/handlers/payment.rs: `payment.sandbox_advance`.
pub mod Laws
use Prim.Native.String.{◌++◌ as text_append}
use pubky_marketplace_servic.Prelude.{
  ℕ, String, Bool, true, false, none, some, List, [], ◌∷◌, ◌==◌, string_key, nat_key, ◌&&◌, not,
  if◌then◌else◌, ltb, ◌+◌, contains,
}
use pubky_marketplace_servic.Domain.ErrorCode.{ErrorCode}
use pubky_marketplace_servic.Domain.Ids.{order_aggregate_id, payment_aggregate_id}
use pubky_marketplace_servic.Store.{
  OrderRow, PaymentRow, Tx, RefusalKind, failure, failure_with_revision, ◌>>=◌, ◌>>◌, pure,
  refuse_if, some_or, fetch_one, gets, modify, Command, insert_event, insert_notification_intent,
}
use pubky_marketplace_servic.Orders.Action.{HandlerSuccess}
use pubky_marketplace_servic.Inventory.Holds.{acquire_payment_hold}
use pubky_marketplace_servic.Payments.Pins.{unpinnable}
use pubky_marketplace_servic.Payments.Confirmation.{ConfirmKeys, confirm_order}
use pubky_marketplace_servic.Payments.RefundRoute.{find_payment, set_payment, refund_required}

pub data SandboxPaymentTarget : Type 0 where
  detected confirmed expired manual_review : SandboxPaymentTarget

unfoldable pub target_text : SandboxPaymentTarget → String
target_text detected = "detected"
target_text confirmed = "confirmed"
target_text expired = "expired"
target_text manual_review = "manual_review"

unfoldable pub is_confirmed : SandboxPaymentTarget → Bool
is_confirmed detected = false
is_confirmed confirmed = true
is_confirmed expired = false
is_confirmed manual_review = false

pub record AdvanceSandboxPaymentPayload : Type 0 where
  pub payment_id : String
  pub target : SandboxPaymentTarget
  pub confirmations : ℕ

unfoldable pub allowed : String → List String
allowed state =
    if state == "awaiting_entitlement"
    then "detected" ∷ "confirmed" ∷ "expired" ∷ "manual_review" ∷ []
    else if state == "detected"
    then "confirmed" ∷ "manual_review" ∷ []
    else []

unfoldable pub guard_advance :
    String → Command → AdvanceSandboxPaymentPayload → PaymentRow → Tx (Unit {0})
guard_advance actor command payload payment = do
  refuse_if (not (payment.buyer_pubky == actor)) (
      failure RefusalKind.unauthorized ErrorCode.unauthorized
        "Only the buyer may advance a sandbox payment.")
  refuse_if (not (payment.adapter == "sandbox")) (
      failure RefusalKind.invalid_state ErrorCode.invalid_state
        "A Locks-correlated payment advances only by server-side verification.")
  refuse_if (not (command.aggregate_id == payment_aggregate_id payment.id)) (
      failure RefusalKind.invalid_command ErrorCode.invalid_command
        "The payment aggregate id is invalid.")
  refuse_if (not (command.expected_revision == payment.revision)) (
      failure_with_revision RefusalKind.revision_conflict ErrorCode.revision_conflict
        "The payment revision is stale." payment.revision)
  refuse_if (not (contains (allowed payment.state) (target_text payload.target))) (
      failure RefusalKind.invalid_state ErrorCode.invalid_state
        "The sandbox payment transition is invalid.")
  refuse_if (is_confirmed payload.target && ltb payload.confirmations 1) (
      failure RefusalKind.invalid_command ErrorCode.invalid_command
        "Confirmed payment requires at least one confirmation.")

-- The first transition out of `awaiting_entitlement` is the payment's start.
unfoldable pub start_payment_hold : PaymentRow → OrderRow → ℕ → ℕ → Tx OrderRow
start_payment_hold payment order window_seconds now =
    if payment.state == "awaiting_entitlement"
    then acquire_payment_hold order window_seconds "sandbox" now
    else pure order

unfoldable pub advanced : AdvanceSandboxPaymentPayload → ℕ → PaymentRow → PaymentRow
advanced payload now p = record p {
  revision = p.revision + 1;
  state = target_text payload.target;
  confirmations = payload.confirmations;
  manual_review_entered_at =
      if target_text payload.target == "manual_review" then some now else none;
  updated_at = now;
}

-- `UPDATE payments SET … WHERE id = $1 RETURNING …`, by `fetch_one`.
unfoldable pub update_payment : String → (PaymentRow → PaymentRow) → Tx PaymentRow
update_payment id set = do
  found ← gets (find_payment id)
  row ← fetch_one found
  modify (set_payment id set)
  pure (set row)

unfoldable pub refund_route : String → Command → PaymentRow → OrderRow → ℕ → Tx HandlerSuccess
refund_route actor command payment order now = do
  event_id ←
      refund_required payment order "digital delivery unavailable at payment" command actor now
  found ← gets (find_payment payment.id)
  updated ← fetch_one found
  pure (record { revision = updated.revision; event_ids = event_id ∷ [] })

-- The order of a confirmed payment, and the seller's notification.
confirm_and_notify :
    ConfirmKeys → String → Command → PaymentRow → OrderRow → String → ℕ → Tx (List String)
unfolding insert_notification_intent
confirm_and_notify keys actor command payment order payment_event_id now = do
  confirmation ← confirm_order keys actor command payment order now
  insert_notification_intent payment_event_id "payment_confirmed" confirmation.order.seller_pubky
      actor (order_aggregate_id confirmation.order.id) none now
  pure (payment_event_id ∷ confirmation.receipt_event_id ∷ [])

-- The payment's event, and what a confirmation adds.
unfoldable pub log_advance :
    ConfirmKeys
    → String
    → Command
    → AdvanceSandboxPaymentPayload
    → PaymentRow
    → OrderRow
    → ℕ
    → PaymentRow
    → Tx HandlerSuccess
unfolding insert_event confirm_and_notify
log_advance keys actor command payload payment order now updated = do
  payment_event_id ←
      insert_event command command.aggregate_id updated.revision actor
        (text_append "payment." (target_text payload.target)) now
  event_ids ←
      (if is_confirmed payload.target
        then confirm_and_notify keys actor command payment order payment_event_id now
        else pure (payment_event_id ∷ []))
  pure (record { revision = updated.revision; event_ids = event_ids })

unfoldable pub settle_payment :
    ConfirmKeys
    → String
    → Command
    → AdvanceSandboxPaymentPayload
    → PaymentRow
    → OrderRow
    → ℕ
    → Tx HandlerSuccess
unfolding advanced update_payment log_advance
settle_payment keys actor command payload payment order now = do
  updated ← update_payment payment.id (advanced payload now)
  log_advance keys actor command payload payment order now updated

-- From the lock point on.
unfoldable pub move_payment :
    ConfirmKeys
    → ℕ
    → String
    → Command
    → AdvanceSandboxPaymentPayload
    → PaymentRow
    → OrderRow
    → ℕ
    → Tx HandlerSuccess
unfolding refund_route settle_payment
move_payment keys window_seconds actor command payload payment locked now = do
  order ← start_payment_hold payment locked window_seconds now
  undeliverable ← gets (unpinnable order)
  if is_confirmed payload.target && undeliverable
      then refund_route actor command payment order now
      else settle_payment keys actor command payload payment order now

-- The order's row lock, and the move.
unfoldable pub lock_and_move :
    ConfirmKeys
    → ℕ
    → String
    → Command
    → AdvanceSandboxPaymentPayload
    → PaymentRow
    → ℕ
    → Tx HandlerSuccess
lock_and_move keys window_seconds actor command payload payment now = do
  stored ← gets (λ db. db.orders payment.order_id)
  locked ← some_or stored (
      failure RefusalKind.invariant_violation ErrorCode.invariant_violation
        "Payment order is missing.")
  move_payment keys window_seconds actor command payload payment locked now

unfoldable pub advance :
    ConfirmKeys → ℕ → String → Command → AdvanceSandboxPaymentPayload → ℕ → Tx HandlerSuccess
advance keys window_seconds actor command payload now = do
  found ← gets (find_payment payload.payment_id)
  payment ←
      some_or found
        (failure RefusalKind.not_found ErrorCode.not_found "The sandbox payment was not found.")
  guard_advance actor command payload payment
  lock_and_move keys window_seconds actor command payload payment now
