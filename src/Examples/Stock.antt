-- ===== src/Examples/Stock.antt =====
-- A lock point of an order with two lines on one listing, and the release of its stock.
use pubky_marketplace_servic.Prelude.{
  String, some, true, false, is_some, ◌||◌, ◌≡◌, refl, write, string_key, arith, eq_iff, ◌+◌,
}
use pubky_marketplace_servic.Store.{ListingRow, OrderRow, Outcome, Db, done}
use pubky_marketplace_servic.Inventory.Holds.{
  acquire_payment_hold, acquire_lines, acquire_line, reserved_by, release_lines, set_order, held,
  seconds, reserved,
}
use pubky_marketplace_servic.Inventory.Holds.Movement.{Reserves, needed}
use pubky_marketplace_servic.Inventory.Holds.Arming.{acquire_payment_hold_arms}
use pubky_marketplace_servic.Inventory.Holds.RoundTrip.{release-acquire, SameStock}
use pubky_marketplace_servic.Inventory.Holds.Laws.{
  IsBalanced, acquire_payment_hold-Reserves, acquire_payment_hold-IsBalanced,
}
use pubky_marketplace_servic.Examples.Samples.{lamp, order_one, with_order, rows}

abbrev hold_run : Outcome OrderRow
hold_run = acquire_payment_hold order_one 60 "checkout" 100 (with_order order_one)

abbrev held_order : OrderRow
held_order = held (100 + seconds 60) "checkout" 100 order_one

-- Balanced rows, since the lamp is the only one.
with_order-IsBalanced : (order : OrderRow) → IsBalanced (with_order order)
with_order-IsBalanced order k l found = ground (arith, eq_iff k lamp.aggregate_id)

-- Three lamps of five are held.
acquire_payment_hold-Reserves_example :
    (l' : ListingRow) × ((rows hold_run).listings "listing:sam/lamp" ≡ some l')
    × Reserves 3 lamp l'
    × ((is_some order_one.auction_aggregate_id || order_one.stock_held) ≡ false
        → held_order.stock_held ≡ true)
unfolding acquire_payment_hold acquire_lines acquire_line reserved_by set_order held needed
acquire_payment_hold-Reserves_example =
    acquire_payment_hold-Reserves order_one 60 "checkout" 100 (with_order order_one) (rows hold_run)
      held_order refl "listing:sam/lamp" lamp refl

acquire_payment_hold_arms_example :
    (order_one.state ≡ "pending_payment")
    × (held_order ≡ held (100 + seconds 60) "checkout" 100 order_one)
    × (held_order.stock_held ≡ true)
    × (held_order.hold_expires_at ≡ some (100 + seconds 60))
    × (held_order.hold_source ≡ some "checkout")
    × (held_order.state ≡ order_one.state)
    × (held_order.lines ≡ order_one.lines)
    × ((rows hold_run).orders ≡ write (with_order order_one).orders "o1" held_order)
unfolding acquire_payment_hold acquire_lines acquire_line reserved_by set_order held
acquire_payment_hold_arms_example =
    acquire_payment_hold_arms order_one 60 "checkout" 100 (with_order order_one) (rows hold_run)
      held_order refl refl refl

acquire_payment_hold-IsBalanced_example : IsBalanced (rows hold_run)
unfolding acquire_payment_hold acquire_lines acquire_line reserved_by set_order held
acquire_payment_hold-IsBalanced_example =
    acquire_payment_hold-IsBalanced order_one 60 "checkout" 100 (with_order order_one)
      (rows hold_run) held_order refl (with_order-IsBalanced order_one)

abbrev taken : Outcome (Unit {0})
taken = acquire_lines 20 100 order_one.lines (with_order order_one)

release-acquire_example :
    (back : Db) × (release_lines reserved 200 order_one.lines (rows taken) ≡ done tt back)
    × ((k : String) (l : ListingRow)
        → (with_order order_one).listings k ≡ some l
        → (l' : ListingRow) × (back.listings k ≡ some l') × SameStock l l')
unfolding acquire_lines acquire_line reserved_by
release-acquire_example =
    release-acquire 20 100 200 order_one.lines (with_order order_one) (rows taken) refl
