-- ===== src/Inventory/Holds/Laws.antt =====
-- crates/service/src/handlers/holds.rs: the listings at a lock point, and the stock balance.
use pubky_marketplace_servic.Prelude.{
  ℕ, String, true, false, some, List, [], ◌∷◌, string_key, ◌≡◌, ◌+◌, ◌⊎◌, inl, inr, ap, ◌∙◌,
  if◌then◌else◌, arith, Option-cases, Bool-cases, is_some, ◌||◌, sym,
}
use pubky_marketplace_servic.Store.{ListingRow, OrderRow, OrderLine, Db, done, >>-eq-done}
use pubky_marketplace_servic.Inventory.Holds.{
  HeldQuantity, held_column, released, release_line, release_lines, reserved_by, acquire_line,
  acquire_lines, acquire_payment_hold, set_order, armed, held, seconds,
}
use pubky_marketplace_servic.Inventory.Holds.Movement.{needed, Reserves, acquire_lines-Reserves}

-- The constraint `listings_quantity_balance`, of every row.
abbrev pub IsBalanced : Db → Type 0
IsBalanced db =
    (k : String) (l : ListingRow)
    → db.listings k ≡ some l
    → l.available_quantity + l.reserved_quantity + l.sold_quantity ≡ l.total_quantity

acquire_line-IsBalanced :
    (created_at now : ℕ) (line : OrderLine) (db mid : Db)
    → IsBalanced db
    → acquire_line created_at now line db ≡ done tt mid
    → IsBalanced mid
unfolding acquire_line reserved_by
acquire_line-IsBalanced created_at now line db mid bal h k l at_mid =
    elim (Option-cases (db.listings line.listing_aggregate_id)) [
      | inl missing ↦ absurd (ground arith)
      | inr (x, at_line) ↦ ground (arith, bal line.listing_aggregate_id x at_line, bal k l)
    ]

release_line-IsBalanced :
    (column : HeldQuantity) (now : ℕ) (line : OrderLine) (db mid : Db)
    → IsBalanced db
    → release_line column now line db ≡ done tt mid
    → IsBalanced mid
unfolding release_line released held_column
release_line-IsBalanced column now line db mid bal h k l at_mid =
    elim (Option-cases (db.listings line.listing_aggregate_id)) [
      | inl missing ↦ absurd (ground arith)
      | inr (x, at_line) ↦ ground (arith, bal line.listing_aggregate_id x at_line, bal k l)
    ]

acquire_lines-IsBalanced :
    (created_at now : ℕ) (lines : List OrderLine) (db db' : Db)
    → IsBalanced db
    → acquire_lines created_at now lines db ≡ done tt db'
    → IsBalanced db'
unfolding acquire_lines
acquire_lines-IsBalanced created_at now [] db db' bal h = λ k l found. bal k l (ground arith)
acquire_lines-IsBalanced created_at now (line ∷ lines) db db' bal h =
    let (_, mid, first, rest) =
      >>-eq-done (acquire_line created_at now line) (acquire_lines created_at now lines) db db' tt
        h in
    acquire_lines-IsBalanced created_at now lines mid db'
      (acquire_line-IsBalanced created_at now line db mid bal first) rest

-- A release keeps available, reserved and sold adding up to the total, in every listing.
pub release_lines-IsBalanced :
    (column : HeldQuantity) (now : ℕ) (lines : List OrderLine) (db db' : Db)
    → IsBalanced db
    → release_lines column now lines db ≡ done tt db'
    → IsBalanced db'
unfolding release_lines
release_lines-IsBalanced column now [] db db' bal h = λ k l found. bal k l (ground arith)
release_lines-IsBalanced column now (line ∷ lines) db db' bal h =
    let (_, mid, first, rest) =
      >>-eq-done (release_line column now line) (release_lines column now lines) db db' tt h in
    release_lines-IsBalanced column now lines mid db'
      (release_line-IsBalanced column now line db mid bal first) rest

module _ (order : OrderRow) (window_seconds : ℕ) (source : String) (now : ℕ) (db db' : Db)
    (order' : OrderRow)
    (acquired : acquire_payment_hold order window_seconds source now db ≡ done order' db') where
  -- How the lock point came through: by the acquired lines, or with no stock moved.
  abbrev Route : Type 0
  Route =
      ((mid : Db) × ((is_some order.auction_aggregate_id || order.stock_held) ≡ false)
        × (acquire_lines order.created_at now order.lines db ≡ done tt mid)
        × (db'.listings ≡ mid.listings))
      ⊎ (((is_some order.auction_aggregate_id || order.stock_held) ≡ true)
          × (db'.listings ≡ db.listings))

  set_order_listings :
      (set : OrderRow → OrderRow) (mid : Db)
      → set_order order set mid ≡ done order' db'
      → db'.listings ≡ mid.listings
  unfolding set_order
  set_order_listings set mid h = elim (Option-cases (mid.orders order.id)) [
    | inl missing ↦ absurd (ground arith)
    | inr (row, found) ↦ ground arith
  ]

  route : Route
  unfolding acquire_payment_hold
  route = elim (Bool-cases (is_some order.auction_aggregate_id || order.stock_held)) [
    | inl idle ↦ inr (
      idle,
      elim (Bool-cases (is_some order.auction_aggregate_id)) [
        | inl auction ↦ ground arith
        | inr ordinary ↦
            set_order_listings (armed (now + seconds window_seconds) source now) db (ground arith)
      ],
    )
    | inr first ↦
        let (_, mid, took, marked) =
          >>-eq-done (acquire_lines order.created_at now order.lines)
            (set_order order (held (now + seconds window_seconds) source now)) db db' order'
            (ground arith) in
        inl (
          mid,
          first,
          took,
          set_order_listings (held (now + seconds window_seconds) source now) mid marked,
        )
  ]

  set_order_held :
      (expires : ℕ) (mid : Db)
      → set_order order (held expires source now) mid ≡ done order' db'
      → order'.stock_held ≡ true
  unfolding set_order held
  set_order_held expires mid h = elim (Option-cases (mid.orders order.id)) [
    | inl missing ↦ absurd (ground arith)
    | inr (row, found) ↦ ground arith
  ]

  marks :
      (is_some order.auction_aggregate_id || order.stock_held) ≡ false → order'.stock_held ≡ true
  unfolding acquire_payment_hold
  marks first =
      let (_, mid, took, marked) =
        >>-eq-done (acquire_lines order.created_at now order.lines)
          (set_order order (held (now + seconds window_seconds) source now)) db db' order'
          (ground arith) in
      set_order_held (now + seconds window_seconds) mid marked

  -- A lock point that succeeds moves, of each listing, what the order's lines ask of it together
  -- from available to reserved, if the order held nothing yet and is no auction's; otherwise it
  -- moves nothing. An order that took its stock is marked as holding it, so that a later lock point
  -- of the marked order moves nothing.
  pub acquire_payment_hold-Reserves :
      (k : String) (l : ListingRow)
      → db.listings k ≡ some l
      → (l' : ListingRow) × (db'.listings k ≡ some l')
        × Reserves
            (if is_some order.auction_aggregate_id || order.stock_held
              then 0
              else needed k order.lines)
            l
            l'
        × ((is_some order.auction_aggregate_id || order.stock_held) ≡ false
            → order'.stock_held ≡ true)
  acquire_payment_hold-Reserves k l found = elim route [
    | inl (mid, first, took, same) ↦
        let (l', at_mid, moved) =
          acquire_lines-Reserves k l order.created_at now order.lines db mid found took in
        (l', ap (λ t. t k) same ∙ at_mid, rw first moved, λ e. marks first)
    | inr (idle, same) ↦
        (l, ap (λ t. t k) same ∙ found, rw idle (ground arith), λ e. absurd (ground arith))
  ]

  -- A lock point keeps available, reserved and sold adding up to the total, in every listing.
  pub acquire_payment_hold-IsBalanced : IsBalanced db → IsBalanced db'
  acquire_payment_hold-IsBalanced bal = λ k l found. elim route [
    | inl (mid, first, took, same) ↦
        acquire_lines-IsBalanced order.created_at now order.lines db mid bal took k l
          (sym (ap (λ t. t k) same) ∙ found)
    | inr (idle, same) ↦ bal k l (sym (ap (λ t. t k) same) ∙ found)
  ]
