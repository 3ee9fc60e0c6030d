-- ===== src/Examples/Payments.antt =====
-- An order that starts its payment, is confirmed, and is cancelled with the seller's approval.
use pubky_marketplace_servic.Prelude.{
  true, none, some, List, [], ◌∷◌, ◌≡◌, ◌↔◌, refl, write, string_key, arith, eq_iff,
}
use pubky_marketplace_servic.Store.{ListingRow, OrderRow, PaymentRow, Outcome, Db, done, is_refused}
use pubky_marketplace_servic.Orders.Action.{
  HandlerSuccess, advance_order, update_order, finish_order_action,
}
use pubky_marketplace_servic.Orders.Contract.{Advanced, IsKeyed, bumped}
use pubky_marketplace_servic.Orders.Cancellation.{
  approve_cancellation, releasable_lines, cancelled, return_and_cancel, credit_order_drop,
}
use pubky_marketplace_servic.Orders.Cancellation.Laws.{GaveBack, approve_cancellation-GaveBack}
use pubky_marketplace_servic.Inventory.Holds.{
  acquire_lines, set_order, acquire_payment_hold, acquire_line, reserved_by, release_lines,
  release_line, held_column, released,
}
use pubky_marketplace_servic.Inventory.Holds.Sufficient.{Suffices, acquire_lines_iff}
use pubky_marketplace_servic.Payments.Confirmation.{
  ConfirmKeys, Confirmation, confirm_order, convert_reservation, assign_edition, sell_lines,
  sell_line, sold_by, issue, insert_receipt, put_receipt, pin_lines, settle_order, delivered_now,
}
use pubky_marketplace_servic.Payments.Confirmation.Once.{confirm_order_once}
use pubky_marketplace_servic.Inventory.Ledger.{
  Operation, start_payment, confirm, perform_all, Runs, stock_of, total_units, perform,
}
use pubky_marketplace_servic.Inventory.Ledger.Refinement.{perform_all-Refines}
use pubky_marketplace_servic.Examples.Samples.{
  empty_db, lamp, order_one, with_order, command, rows, success,
}
use pubky_marketplace_servic.Domain.Machines.{can_transition, order_machine}
use pubky_marketplace_servic.Payments.Pins.{unpinnable}
use pubky_marketplace_servic.Domain.Ids.{order_aggregate_id}

abbrev keys : ConfirmKeys
keys = record { pickup = none; digital = none; content_hash = λ payload. "hash" }

abbrev payment : PaymentRow
payment = record {
  id = "p1";
  order_id = "o1";
  buyer_pubky = "bea";
  seller_pubky = "sam";
  revision = 1;
  adapter = "sandbox";
  state = "detected";
  confirmations = 1;
  manual_review_entered_at = none;
  review_reason = none;
  resolution_outcome = none;
  created_at = 20;
  updated_at = 20;
}

abbrev held_order : OrderRow
held_order = record order_one {
  stock_held = true;
  hold_expires_at = some 60000000100;
  hold_source = some "checkout";
  updated_at = 100;
}

abbrev held_db : Db
held_db = record (with_order held_order) {
  listings =
      write empty_db.listings lamp.aggregate_id
        (record lamp { available_quantity = 2; reserved_quantity = 3 });
}

abbrev confirm_run : Outcome Confirmation
confirm_run = confirm_order keys "bea" command payment held_order 200 held_db

abbrev confirmation : Confirmation
confirmation = elim confirm_run [
  | done r db ↦ r
  | _ ↦ record { order = order_one; receipt_id = ""; receipt_event_id = "" }
]

confirm_order_once_example :
    is_refused (confirm_order keys "ann" command payment confirmation.order 300 (rows confirm_run))
    ≡ true
unfolding confirm_order can_transition order_machine unpinnable convert_reservation assign_edition
    sell_lines sell_line sold_by issue insert_receipt put_receipt pin_lines settle_order set_order
    delivered_now
confirm_order_once_example =
    confirm_order_once keys keys "bea" "ann" command command payment payment held_order 200 300
      held_db (rows confirm_run) confirmation refl refl

abbrev both : List Operation
both =
    start_payment order_one 60 "checkout" 100
    ∷ confirm keys "bea" command payment held_order 200
    ∷ []

abbrev both_run : Outcome (Unit {0})
both_run = perform_all both (with_order order_one)

perform_all-Refines_example :
    (l' : ListingRow) × ((rows both_run).listings "listing:sam/lamp" ≡ some l')
    × Runs "listing:sam/lamp" both (stock_of lamp) (stock_of l')
    × (l'.total_quantity ≡ lamp.total_quantity)
    × (total_units (stock_of l') ≡ total_units (stock_of lamp))
unfolding issue insert_receipt perform_all perform acquire_payment_hold acquire_lines acquire_line
    reserved_by set_order confirm_order can_transition order_machine unpinnable convert_reservation
    assign_edition sell_lines sell_line sold_by put_receipt pin_lines settle_order delivered_now
perform_all-Refines_example =
    perform_all-Refines "listing:sam/lamp" both lamp (with_order order_one) (rows both_run) refl
      refl

acquire_lines_iff_example :
    ((db' : Db) × (acquire_lines 20 100 order_one.lines (with_order order_one) ≡ done tt db'))
    ↔ Suffices 20 order_one.lines (with_order order_one)
acquire_lines_iff_example = acquire_lines_iff 20 100 order_one.lines (with_order order_one)

abbrev pending_order : OrderRow
pending_order = record order_one { state = "cancel_requested" }

abbrev sold_db : Db
sold_db = record (with_order pending_order) {
  listings =
      write empty_db.listings lamp.aggregate_id
        (record lamp { available_quantity = 2; sold_quantity = 3 });
}

sold_db-IsKeyed : IsKeyed sold_db
sold_db-IsKeyed k o found = ground (arith, eq_iff k "o1")

abbrev cancel_run : Outcome HandlerSuccess
cancel_run = approve_cancellation "sam" command "o1" 400 sold_db

approve_cancellation-GaveBack_example :
    (o : OrderRow) × (mid : Db) × (sold_db.orders "o1" ≡ some o)
    × (o.seller_pubky ≡ "sam")
    × GaveBack o (releasable_lines o sold_db) sold_db mid
    × Advanced "order.cancel_approve" "order.cancelled" "sam" o.buyer_pubky command o
        (cancelled 400 (bumped o))
        mid
        (rows cancel_run)
        (success cancel_run)
unfolding approve_cancellation order_aggregate_id return_and_cancel credit_order_drop release_lines
    releasable_lines release_line held_column released advance_order update_order
    finish_order_action
approve_cancellation-GaveBack_example =
    approve_cancellation-GaveBack "sam" command 400 sold_db (rows cancel_run) (success cancel_run)
      "o1" sold_db-IsKeyed refl
