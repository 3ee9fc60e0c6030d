-- ===== src/Orders/Cancellation.antt =====
-- crates/service/src/handlers/cancellation.rs: the seller's approval, and the returns of held stock.
pub mod Laws
use pubky_marketplace_servic.Prelude.{
  ℕ, String, Bool, true, false, Option, none, some, List, [], ◌∷◌, ◌==◌, string_key, nat_key, ◌&&◌,
  not, if◌then◌else◌, ◌+◌, any, is_some, map,
}
use pubky_marketplace_servic.Domain.ErrorCode.{ErrorCode}
use pubky_marketplace_servic.Store.{
  OrderRow, OrderLine, ReservationRow, Db, Tx, RefusalKind, CommandFailure, failure, Outcome, done,
  refused, fault, panic, ◌>>=◌, ◌>>◌, pure, refuse, refuse_if, gets, Command,
}
use pubky_marketplace_servic.Orders.Action.{
  HandlerSuccess, fetch_order_for_update, guard_order_action, advance_order,
}
use pubky_marketplace_servic.Inventory.Holds.{reserved, sold, release_lines}
use pubky_marketplace_servic.Drops.Gate.{credit_drop_release}
use pubky_marketplace_servic.Payments.Pins.{instant_kind}

unfoldable pub units : List OrderLine → ℕ
units [] = 0
units (line ∷ lines) = let rest = units lines in line.quantity + rest

-- The lines' units go back to the order's drop, before its listings are released.
unfoldable pub credit_order_drop : OrderRow → List OrderLine → ℕ → Tx (Unit {0})
credit_order_drop order lines now = elim order.drop_aggregate_id [
  | none ↦ pure tt
  | some drop_aggregate_id ↦ do
    credited ← credit_drop_release drop_aggregate_id order.buyer_pubky (units lines) now
    refuse_if (not credited) (
        failure RefusalKind.invariant_violation ErrorCode.invariant_violation
          "The drop units held by this order are no longer accounted to its drop.")
]

opened : OrderRow → ℕ → Db → Bool
opened order line_index db =
    any (λ a. a.order_id == order.id && a.line_index == line_index) db.digital_access

releasable_from : OrderRow → Db → ℕ → List OrderLine → List OrderLine
unfolding opened
releasable_from order db index [] = []
releasable_from order db index (line ∷ lines) =
    let rest = releasable_from order db (index + 1) lines in
    if is_some (instant_kind line) && opened order index db then rest else line ∷ rest

-- An instant line that the buyer has opened stays sold.
unfoldable pub releasable_lines : OrderRow → Db → List OrderLine
unfolding releasable_from
releasable_lines order db =
    if not (order.fulfillment == "digital")
    then order.lines
    else releasable_from order db 0 order.lines

unfoldable pub cancelled : ℕ → OrderRow → OrderRow
cancelled now row = record row { state = "cancelled"; updated_at = now }

-- The drop's credit and the listings' release, then the order.
unfoldable pub return_and_cancel :
    String → Command → OrderRow → List OrderLine → ℕ → Tx HandlerSuccess
unfolding cancelled
return_and_cancel actor command order lines now = do
  credit_order_drop order lines now
  release_lines sold now lines
  advance_order actor command order (cancelled now) "order.cancelled" "order_cancelled"
      (λ updated. updated.buyer_pubky) now

unfoldable pub approve_cancellation : String → Command → String → ℕ → Tx HandlerSuccess
unfolding fetch_order_for_update guard_order_action
approve_cancellation actor command order_id now = do
  order ← fetch_order_for_update order_id
  guard_order_action actor command order
  refuse_if (not (order.seller_pubky == actor)) (
      failure RefusalKind.unauthorized ErrorCode.unauthorized
        "Only the seller may approve cancellation.")
  refuse_if (not (order.state == "cancel_requested"))
      (failure RefusalKind.invalid_state ErrorCode.invalid_state "No cancellation is pending.")
  releasable ← gets (releasable_lines order)
  return_and_cancel actor command order releasable now

is_held_for : String → String → ReservationRow → Bool
is_held_for listing buyer r =
    r.listing_aggregate_id == listing && r.buyer_pubky == buyer && r.status == "active"

given_up : String → String → ℕ → ReservationRow → ReservationRow
unfolding is_held_for
given_up listing buyer now r =
    if is_held_for listing buyer r then record r { status = "released"; updated_at = now } else r

-- A cancelled auction winner's stock comes back only through the reservation that flips from active
-- to released.
unfoldable pub release_reserved_hold : OrderRow → ℕ → Tx (Unit {0})
unfolding is_held_for given_up
release_reserved_hold order now db = elim order.auction_aggregate_id [
  | none ↦ fault panic
  | some listing ↦
      if any (is_held_for listing order.buyer_pubky) db.reservations
      then release_lines reserved now order.lines (record db {
        reservations = map (given_up listing order.buyer_pubky now) db.reservations;
      })
      else done tt db
]
