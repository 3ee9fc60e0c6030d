-- ===== src/Examples/Sandbox.antt =====
-- A buyer's sandbox payment that is detected, which starts its order's hold.
use pubky_marketplace_servic.Prelude.{none, ◌∷◌, [], refl}
use pubky_marketplace_servic.Store.{PaymentRow, Outcome, Db, Command}
use pubky_marketplace_servic.Orders.Action.{HandlerSuccess}
use pubky_marketplace_servic.Payments.Confirmation.{ConfirmKeys}
use pubky_marketplace_servic.Payments.Sandbox.{
  AdvanceSandboxPaymentPayload, detected, advance, guard_advance, allowed, target_text,
  is_confirmed, lock_and_move, move_payment, start_payment_hold,
}
use pubky_marketplace_servic.Payments.Sandbox.Laws.{Permitted, advance-Permitted}
use pubky_marketplace_servic.Examples.Samples.{order_one, with_order, rows, success}
use pubky_marketplace_servic.Payments.RefundRoute.{find_payment, set_payment}
use pubky_marketplace_servic.Domain.Ids.{payment_aggregate_id}
use pubky_marketplace_servic.Inventory.Holds.{
  acquire_payment_hold, acquire_lines, acquire_line, reserved_by, set_order,
}

abbrev keys : ConfirmKeys
keys = record { pickup = none; digital = none; content_hash = λ payload. "hash" }

abbrev waiting : PaymentRow
waiting = record {
  id = "p1";
  order_id = "o1";
  buyer_pubky = "bea";
  seller_pubky = "sam";
  revision = 1;
  adapter = "sandbox";
  state = "awaiting_entitlement";
  confirmations = 0;
  manual_review_entered_at = none;
  review_reason = none;
  resolution_outcome = none;
  created_at = 20;
  updated_at = 20;
}

abbrev advance_command : Command
advance_command = record { command_id = "c9"; aggregate_id = "payment:p1"; expected_revision = 1 }

abbrev payload : AdvanceSandboxPaymentPayload
payload = record { payment_id = "p1"; target = detected; confirmations = 0 }

abbrev waiting_db : Db
waiting_db = record (with_order order_one) { payments = waiting ∷ [] }

abbrev advance_run : Outcome HandlerSuccess
advance_run = advance keys 900 "bea" advance_command payload 100 waiting_db

advance-Permitted_example : Permitted "bea" advance_command payload waiting_db (rows advance_run)
unfolding advance find_payment guard_advance payment_aggregate_id allowed target_text is_confirmed
    lock_and_move move_payment start_payment_hold acquire_payment_hold acquire_lines acquire_line
    reserved_by set_order set_payment
advance-Permitted_example =
    advance-Permitted keys 900 "bea" advance_command payload 100 waiting_db (rows advance_run)
      (success advance_run) refl
