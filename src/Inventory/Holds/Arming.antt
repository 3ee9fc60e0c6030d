-- ===== src/Inventory/Holds/Arming.antt =====
-- crates/service/src/handlers/holds.rs: the order row at a lock point.
use pubky_marketplace_servic.Prelude.{
  ℕ, String, true, false, some, List, [], ◌∷◌, string_key, ◌≡◌, ◌+◌, inl, inr, refl, ap, ◌∙◌, arith,
  eq_iff, Option-cases, Bool-cases, is_some, write,
}
use pubky_marketplace_servic.Store.{OrderRow, OrderLine, Db, done, >>-eq-done}
use pubky_marketplace_servic.Inventory.Holds.{
  acquire_line, acquire_lines, acquire_payment_hold, set_order, armed, held, seconds,
}

acquire_line-orders :
    (created_at now : ℕ) (line : OrderLine) (db mid : Db)
    → acquire_line created_at now line db ≡ done tt mid
    → mid.orders ≡ db.orders
unfolding acquire_line
acquire_line-orders created_at now line db mid h =
    elim (Option-cases (db.listings line.listing_aggregate_id)) [
      | inl missing ↦ absurd (ground arith)
      | inr (x, at_line) ↦ ground arith
    ]

acquire_lines-orders :
    (created_at now : ℕ) (lines : List OrderLine) (db db' : Db)
    → acquire_lines created_at now lines db ≡ done tt db'
    → db'.orders ≡ db.orders
unfolding acquire_lines
acquire_lines-orders created_at now [] db db' h = ground arith
acquire_lines-orders created_at now (line ∷ lines) db db' h =
    let (_, mid, first, rest) =
      >>-eq-done (acquire_line created_at now line) (acquire_lines created_at now lines) db db' tt
        h in
    acquire_lines-orders created_at now lines mid db' rest
    ∙ acquire_line-orders created_at now line db mid first

module _ (order : OrderRow) (window_seconds : ℕ) (source : String) (now : ℕ) (db db' : Db)
    (order' : OrderRow) (stored : db.orders order.id ≡ some order)
    (ordinary : is_some order.auction_aggregate_id ≡ false)
    (acquired : acquire_payment_hold order window_seconds source now db ≡ done order' db') where
  set_order_row :
      (set : OrderRow → OrderRow) (mid : Db)
      → mid.orders ≡ db.orders
      → set_order order set mid ≡ done order' db'
      → (order' ≡ set order) × (db'.orders ≡ write db.orders order.id (set order))
  unfolding set_order
  set_order_row set mid same h =
      let row : mid.orders order.id ≡ some order = ap (λ t. t order.id) same ∙ stored in
      (ground arith, ground arith)

  -- A lock point of an order that is no auction's succeeds only while the order is pending payment.
  -- It leaves the order holding stock under this lock point's source until the window has passed,
  -- also where it re-arms an earlier hold, and changes no other order.
  pub acquire_payment_hold_arms :
      (order.state ≡ "pending_payment")
      × (order' ≡ held (now + seconds window_seconds) source now order)
      × (order'.stock_held ≡ true)
      × (order'.hold_expires_at ≡ some (now + seconds window_seconds))
      × (order'.hold_source ≡ some source)
      × (order'.state ≡ order.state)
      × (order'.lines ≡ order.lines)
      × (db'.orders ≡ write db.orders order.id order')
  unfolding acquire_payment_hold held armed
  acquire_payment_hold_arms = elim (Bool-cases order.stock_held) [
    | inl again ↦
        let (row, put) =
          set_order_row (armed (now + seconds window_seconds) source now) db refl (ground arith) in
        (
          ground (arith, eq_iff order.state "pending_payment"),
          ground arith,
          ground arith,
          ground arith,
          ground arith,
          ground arith,
          ground arith,
          ground arith,
        )
    | inr first ↦
        let (_, mid, took, marked) =
          >>-eq-done (acquire_lines order.created_at now order.lines)
            (set_order order (held (now + seconds window_seconds) source now)) db db' order'
            (ground arith) in
        let (row, put) =
          set_order_row (held (now + seconds window_seconds) source now) mid
            (acquire_lines-orders order.created_at now order.lines db mid took) marked in
        (
          ground (arith, eq_iff order.state "pending_payment"),
          row,
          ap (λ o. o.stock_held) row,
          ap (λ o. o.hold_expires_at) row,
          ap (λ o. o.hold_source) row,
          ap (λ o. o.state) row,
          ap (λ o. o.lines) row,
          ground arith,
        )
  ]
