-- ===== src/Payments/Confirmation/Rows.antt =====
-- crates/service/src/handlers/payment.rs: the tables that the steps of a confirmation leave alone.
use pubky_marketplace_servic.Prelude.{
  ℕ, String, Option, none, some, List, [], ◌∷◌, ◌==◌, string_key, nat_key, option_key, ◌&&◌, ◌≡◌,
  ◌+◌, inl, inr, refl, ap, sym, ◌∙◌, if◌then◌else◌, any, arith, Option-cases, Bool-cases,
}
use pubky_marketplace_servic.Store.{
  OrderRow, OrderLine, DropRow, PaymentRow, Db, Tx, Command, done, pure, ◌>>=◌, ◌>>◌, >>-eq-done,
  >>=-eq-done,
}
use pubky_marketplace_servic.Inventory.Holds.Movement.{needed}
use pubky_marketplace_servic.Drops.Lifecycle.{apply_time_transitions}
use pubky_marketplace_servic.Drops.Commands.{
  pay_unit, end_sold_out, end_if_sold_out, record_paid_unit,
}
use pubky_marketplace_servic.Inventory.Reservations.Gating.{
  Elsewhere, apply_time_transitions-Elsewhere,
}
use pubky_marketplace_servic.Payments.Pins.{
  SealKeys, details_aad, snapshot_aad, version_aad, insert_snapshot, pin_pickup_line,
  pin_pickup_from, pin_pickup_lines, insert_pin, pin_digital_line, pin_digital_from,
  pin_digital_lines, instant_kind, current_version, current_details,
}
use pubky_marketplace_servic.Payments.Confirmation.{ConfirmKeys, assign_edition, pin_lines}

pub Elsewhere-trans : (a b c : Db) → Elsewhere a b → Elsewhere b c → Elsewhere a c
Elsewhere-trans a b c one two = record {
  listings = two.listings ∙ one.listings;
  orders = two.orders ∙ one.orders;
  reservations = two.reservations ∙ one.reservations;
  payments = two.payments ∙ one.payments;
  receipts = two.receipts ∙ one.receipts;
}

pub Elsewhere-same : (a b : Db) → a ≡ b → Elsewhere a b
Elsewhere-same a b e = record {
  listings = ap (λ d. d.listings) (sym e);
  orders = ap (λ d. d.orders) (sym e);
  reservations = ap (λ d. d.reservations) (sym e);
  payments = ap (λ d. d.payments) (sym e);
  receipts = ap (λ d. d.receipts) (sym e);
}

pay_unit-Elsewhere :
    (id : String) (now : ℕ) (d : DropRow) (db db' : Db)
    → pay_unit id now db ≡ done d db'
    → Elsewhere db db'
unfolding pay_unit
pay_unit-Elsewhere id now d db db' h = elim (Option-cases (db.drops id)) [
  | inl missing ↦ absurd (ground arith)
  | inr (row, found) ↦ record {
    listings = ground arith;
    orders = ground arith;
    reservations = ground arith;
    payments = ground arith;
    receipts = ground arith;
  }
]

end_if_sold_out-Elsewhere :
    (d : DropRow) (id actor : String) (c : Command) (now : ℕ) (db db' : Db)
    → end_if_sold_out d id actor c now db ≡ done tt db'
    → Elsewhere db db'
unfolding end_if_sold_out end_sold_out
end_if_sold_out-Elsewhere d id actor c now db db' h = elim (Option-cases (db.drops id)) [
  | inl missing ↦ record {
    listings = ground arith;
    orders = ground arith;
    reservations = ground arith;
    payments = ground arith;
    receipts = ground arith;
  }
  | inr (row, found) ↦ record {
    listings = ground arith;
    orders = ground arith;
    reservations = ground arith;
    payments = ground arith;
    receipts = ground arith;
  }
]

record_paid_unit-Elsewhere :
    (id actor : String) (c : Command) (now edition : ℕ) (db db' : Db)
    → record_paid_unit id actor c now db ≡ done edition db'
    → Elsewhere db db'
unfolding record_paid_unit
record_paid_unit-Elsewhere id actor c now edition db db' h = elim (Option-cases (db.drops id)) [
  | inl missing ↦ absurd (ground arith)
  | inr (d, found) ↦
      let (d1, m1, applied, rest) =
        >>-eq-done (apply_time_transitions d c now)
          (pay_unit id now >>= λ drop.
            end_if_sold_out drop id actor c now >> pure drop.paid_quantity)
          db db' edition (ground arith) in
      let (d2, m2, paid, last) =
        >>=-eq-done (pay_unit id now)
          (λ drop. end_if_sold_out drop id actor c now >> pure drop.paid_quantity) m1 db' edition
          rest in
      let (_, m3, ended, numbered) =
        >>-eq-done (end_if_sold_out d2 id actor c now) (pure d2.paid_quantity) m2 db' edition
          last in
      Elsewhere-trans db m1 db' (apply_time_transitions-Elsewhere d d1 now db m1 c applied) (
        Elsewhere-trans m1 m2 db' (pay_unit-Elsewhere id now d2 m1 m2 paid) (
          Elsewhere-trans m2 m3 db' (end_if_sold_out-Elsewhere d2 id actor c now m2 m3 ended)
            (Elsewhere-same m3 db' (ground arith))))
]

pub assign_edition-Elsewhere :
    (order : OrderRow) (actor : String) (c : Command) (now : ℕ) (edition : Option ℕ) (db db' : Db)
    → assign_edition order actor c now db ≡ done edition db'
    → Elsewhere db db'
unfolding assign_edition
assign_edition-Elsewhere order actor c now edition db db' h =
    elim (Option-cases order.drop_aggregate_id) [
      | inl plain ↦ Elsewhere-same db db' (ground arith)
      | inr (id, stamped) ↦
          let (n, mid, recorded, ended) =
            >>=-eq-done (record_paid_unit id actor c now) (λ (n : ℕ). pure (some n)) db db' edition
              (ground arith) in
          Elsewhere-trans db mid db' (record_paid_unit-Elsewhere id actor c now n db mid recorded)
            (Elsewhere-same mid db' (ground arith))
    ]

insert_snapshot-Elsewhere :
    (o : String) (i : ℕ) (l : String) (v : ℕ) (x a : String) (db : Db)
    → Elsewhere db (insert_snapshot o i l v x a db)
unfolding insert_snapshot
insert_snapshot-Elsewhere o i l v x a db =
    elim (Bool-cases (any (λ s. s.order_id == o && s.line_index == i) db.pickup_snapshots)) [
      | inl pinned ↦ Elsewhere-same db (insert_snapshot o i l v x a db) (ground arith)
      | inr fresh ↦ record {
        listings = ground arith;
        orders = ground arith;
        reservations = ground arith;
        payments = ground arith;
        receipts = ground arith;
      }
    ]

pin_pickup_line-Elsewhere :
    (keys : SealKeys) (o a : String) (i : ℕ) (line pinned : OrderLine) (db db' : Db)
    → pin_pickup_line keys o a i line db ≡ done pinned db'
    → Elsewhere db db'
unfolding pin_pickup_line
pin_pickup_line-Elsewhere keys o a i line pinned db db' h =
    elim (Bool-cases (line.fulfillment == some "pickup")) [
      | inr other ↦ Elsewhere-same db db' (ground arith)
      | inl pickup ↦ elim (Option-cases (current_details line.listing_aggregate_id db)) [
        | inl unset ↦ Elsewhere-same db db' (ground arith)
        | inr (d, at) ↦
            elim (Option-cases (
              keys.open_sealed (details_aad line.listing_aggregate_id d.version)
                d.details_ciphertext)) [
                  | inl sealed ↦ absurd (ground arith)
                  | inr (text, opened) ↦
                      let put =
                        insert_snapshot o i line.listing_aggregate_id d.version
                          (keys.seal (snapshot_aad o i d.version) text) a db in
                      Elsewhere-trans db put db'
                        (insert_snapshot-Elsewhere o i line.listing_aggregate_id d.version
                          (keys.seal (snapshot_aad o i d.version) text) a db)
                        (Elsewhere-same put db' (ground arith))
                ]
      ]
    ]

pin_pickup_line-stock :
    (keys : SealKeys) (o a : String) (i : ℕ) (line pinned : OrderLine) (db db' : Db)
    → pin_pickup_line keys o a i line db ≡ done pinned db'
    → (pinned.listing_aggregate_id ≡ line.listing_aggregate_id) × (pinned.quantity ≡ line.quantity)
unfolding pin_pickup_line
pin_pickup_line-stock keys o a i line pinned db db' h =
    elim (Option-cases (current_details line.listing_aggregate_id db)) [
      | inl unset ↦ (ground arith, ground arith)
      | inr (d, at) ↦
          elim (Option-cases (
            keys.open_sealed (details_aad line.listing_aggregate_id d.version)
              d.details_ciphertext)) [
                | inl sealed ↦ (ground arith, ground arith)
                | inr (text, opened) ↦ (ground arith, ground arith)
              ]
    ]

-- The lines ask the same of every listing.
abbrev pub SameNeeds : List OrderLine → List OrderLine → Type 0
SameNeeds lines pinned = (k : String) → needed k pinned ≡ needed k lines

pin_pickup_from-Elsewhere :
    (keys : SealKeys) (o a : String) (i : ℕ) (lines pinned : List OrderLine) (db db' : Db)
    → pin_pickup_from keys o a i lines db ≡ done pinned db'
    → Elsewhere db db' × SameNeeds lines pinned
unfolding pin_pickup_from needed
pin_pickup_from-Elsewhere keys o a i [] pinned db db' h =
    (Elsewhere-same db db' (ground arith), λ k. ap (needed k) {x = pinned} {y = []} (ground arith))
pin_pickup_from-Elsewhere keys o a i (line ∷ lines) pinned db db' h =
    let (p, mid, first, rest) =
      >>=-eq-done (pin_pickup_line keys o a i line)
        (λ p. pin_pickup_from keys o a (i + 1) lines >>= λ others. pure (p ∷ others)) db db' pinned
        h in
    let (ps, last, more, ended) =
      >>=-eq-done (pin_pickup_from keys o a (i + 1) lines) (λ others. pure (p ∷ others)) mid db'
        pinned rest in
    let (kept, same) = pin_pickup_from-Elsewhere keys o a (i + 1) lines ps mid last more in
    let (listing, quantity) = pin_pickup_line-stock keys o a i line p db mid first in
    let whole : pinned ≡ p ∷ ps = ground arith in
    (
      Elsewhere-trans db mid db' (pin_pickup_line-Elsewhere keys o a i line p db mid first)
          (Elsewhere-trans mid last db' kept (Elsewhere-same last db' (ground arith))),
      λ k. ap (needed k) whole ∙ rw (listing, quantity, same k) refl,
    )

pin_digital_line-Elsewhere :
    (keys : Option SealKeys) (o a : String) (i : ℕ) (line : OrderLine) (kind : String) (db db' : Db)
    → pin_digital_line keys o a i line kind db ≡ done tt db'
    → Elsewhere db db'
unfolding pin_digital_line insert_pin
pin_digital_line-Elsewhere none o a i line kind db db' h = absurd (ground arith)
pin_digital_line-Elsewhere (some keys) o a i line kind db db' h =
    elim (Option-cases (current_version line.listing_aggregate_id db)) [
      | inl unset ↦ absurd (ground arith)
      | inr (v, at) ↦
          elim (Option-cases (
            keys.open_sealed (version_aad line.listing_aggregate_id v.deliverable_id v.version kind)
              v.payload_ciphertext)) [
                | inl sealed ↦ absurd (ground arith)
                | inr (text, opened) ↦ record {
                  listings = ground arith;
                  orders = ground arith;
                  reservations = ground arith;
                  payments = ground arith;
                  receipts = ground arith;
                }
              ]
    ]

pin_digital_from-Elsewhere :
    (keys : Option SealKeys) (o a : String) (i : ℕ) (lines : List OrderLine) (db db' : Db)
    → pin_digital_from keys o a i lines db ≡ done tt db'
    → Elsewhere db db'
unfolding pin_digital_from
pin_digital_from-Elsewhere keys o a i [] db db' h = Elsewhere-same db db' (ground arith)
pin_digital_from-Elsewhere keys o a i (line ∷ lines) db db' h =
    elim (Option-cases (instant_kind line)) [
      | inl manual ↦ pin_digital_from-Elsewhere keys o a (i + 1) lines db db' (ground arith)
      | inr (kind, instant) ↦
          let (_, mid, first, rest) =
            >>-eq-done (pin_digital_line keys o a i line kind)
              (pin_digital_from keys o a (i + 1) lines) db db' tt (ground arith) in
          Elsewhere-trans db mid db' (pin_digital_line-Elsewhere keys o a i line kind db mid first)
            (pin_digital_from-Elsewhere keys o a (i + 1) lines mid db' rest)
    ]

pin_pickup-Elsewhere :
    (keys : ConfirmKeys) (order : OrderRow) (adapter : String) (lines : List OrderLine)
    (db db' : Db)
    → (if order.fulfillment == "pickup"
          then pin_pickup_lines order.id order.lines adapter keys.pickup
          else pure order.lines)
        db
      ≡ done lines db'
    → Elsewhere db db' × SameNeeds order.lines lines
unfolding pin_pickup_lines
pin_pickup-Elsewhere keys order adapter lines db db' h =
    elim (Bool-cases (order.fulfillment == "pickup")) [
      | inr other ↦ unpinned (ground arith)
      | inl pickup ↦ elim (Option-cases keys.pickup) [
        | inl off ↦ unpinned (ground arith)
        | inr (k, on) ↦
            pin_pickup_from-Elsewhere k order.id adapter 0 order.lines lines db db' (ground arith)
      ]
    ]
  where
    unpinned : done order.lines db ≡ done lines db' → Elsewhere db db' × SameNeeds order.lines lines
    unpinned e = (
      Elsewhere-same db db' (ground arith),
      λ k. ap (needed k) {x = lines} {y = order.lines} (ground arith),
    )

pub pin_lines-Elsewhere :
    (keys : ConfirmKeys) (order : OrderRow) (payment : PaymentRow) (lines : List OrderLine)
    (db db' : Db)
    → pin_lines keys order payment db ≡ done lines db'
    → Elsewhere db db' × SameNeeds order.lines lines
unfolding pin_lines pin_digital_lines
pin_lines-Elsewhere keys order payment lines db db' h =
    let pickup : Tx (List OrderLine) =
      if order.fulfillment == "pickup"
      then pin_pickup_lines order.id order.lines payment.adapter keys.pickup
      else pure order.lines in
    let digital : Tx (Unit {0}) =
      if order.fulfillment == "digital"
      then pin_digital_from keys.digital order.id payment.adapter 0 order.lines
      else pure tt in
    let (pinned, mid, first, rest) = >>=-eq-done pickup (λ x. digital >> pure x) db db' lines h in
    let (_, last, second, ended) = >>-eq-done digital (pure pinned) mid db' lines rest in
    let (kept, same) = pin_pickup-Elsewhere keys order payment.adapter pinned db mid first in
    let kept2 : Elsewhere mid last = elim (Bool-cases (order.fulfillment == "digital")) [
      | inl yes_digital ↦
          pin_digital_from-Elsewhere keys.digital order.id payment.adapter 0 order.lines mid last
            (ground arith)
      | inr other ↦ Elsewhere-same mid last (ground arith)
    ] in
    let whole : lines ≡ pinned = ground arith in
    (
      Elsewhere-trans db mid db' kept
          (Elsewhere-trans mid last db' kept2 (Elsewhere-same last db' (ground arith))),
      λ k. ap (needed k) whole ∙ same k,
    )
