-- ===== src/Payments/Confirmation/Once.antt =====
-- crates/service/src/handlers/payment.rs: confirming an order again.
use pubky_marketplace_servic.Prelude.{
  ℕ, String, true, false, some, ◌≡◌, inl, inr, ap, sym, ◌∙◌, any, arith, Option-cases, Bool-cases,
}
use pubky_marketplace_servic.Domain.Machines.{can_transition, order_machine}
use pubky_marketplace_servic.Store.{OrderRow, PaymentRow, Db, Command, done, is_refused}
use pubky_marketplace_servic.Payments.Pins.{unpinnable}
use pubky_marketplace_servic.Payments.Confirmation.{
  ConfirmKeys, Confirmation, is_winning, convert_reservation, confirmed, confirm_order,
}
use pubky_marketplace_servic.Payments.Confirmation.Laws.{NoneWinning, confirm_order-Confirmed}

module _ (keys : ConfirmKeys) (actor : String) (c : Command) (payment : PaymentRow) (now : ℕ)
    (o : OrderRow) (db : Db) where
  -- An order without stock and without an active winning reservation cannot be confirmed.
  confirm_order_refused :
      o.stock_held ≡ false
      → NoneWinning o db
      → is_refused (confirm_order keys actor c payment o now db) ≡ true
  unfolding confirm_order convert_reservation
  confirm_order_refused no_stock none_left =
      elim (Bool-cases (can_transition order_machine o.state "paid")) [
        | inr final ↦ ground arith
        | inl payable ↦ elim (Bool-cases (unpinnable o db)) [
          | inl gone ↦ ground arith
          | inr pinnable ↦ elim (Option-cases o.auction_aggregate_id) [
            | inl ordinary ↦ ground arith
            | inr (a, auctioned) ↦ ground (arith, none_left a auctioned)
          ]
        ]
      ]

-- An order is confirmed once: after a confirmation has succeeded, any further confirmation of the
-- same order, under any payment, by anyone and at any time, is refused on the rows that it left.
pub confirm_order_once :
    (keys keys' : ConfirmKeys) (actor actor' : String) (c c' : Command)
    (payment payment' : PaymentRow) (order : OrderRow) (now later : ℕ) (db db' : Db)
    (r : Confirmation)
    → db.orders order.id ≡ some order
    → confirm_order keys actor c payment order now db ≡ done r db'
    → is_refused (confirm_order keys' actor' c' payment' r.order later db') ≡ true
unfolding confirmed
confirm_order_once keys keys' actor actor' c c' payment payment' order now later db db' r stored h =
    let facts = confirm_order-Confirmed keys actor c payment order now db db' r stored h in
    confirm_order_refused keys' actor' c' payment' later r.order db'
      (ap (λ o. o.stock_held) facts.row)
      (λ l e.
        ap (λ o. any (is_winning l o.buyer_pubky) db'.reservations) facts.row
        ∙ facts.none_winning l (sym (ap (λ o. o.auction_aggregate_id) facts.row) ∙ e))
