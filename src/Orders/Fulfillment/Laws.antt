-- ===== src/Orders/Fulfillment/Laws.antt =====
-- crates/service/src/handlers/fulfillment.rs: the fulfillment commands, on success.
use pubky_marketplace_servic.Prelude.{
  ℕ, String, true, false, some, ◌==◌, string_key, ◌≡◌, ◌≢◌, refl, arith, inl, inr, ◌⊎◌,
  Option-cases, Bool-cases, eq_iff, sym, if◌then◌else◌,
}
use pubky_marketplace_servic.Domain.Machines.{order_machine}
use pubky_marketplace_servic.Store.{OrderRow, Shipment, Db, Command, done, format_timestamp}
use pubky_marketplace_servic.Orders.Action.{HandlerSuccess}
use pubky_marketplace_servic.Orders.Contract.{
  Advanced, IsKeyed, bumped, triggers, advance_order-Advanced, untouched, Untouched, at_state,
  at_either_state,
}
use pubky_marketplace_servic.Orders.Fulfillment.{
  ShipOrderPayload, shipped, ship, shipment_under_way, delivered, confirm_delivery,
  ready_for_pickup, mark_ready, order_has_unresolved_terms_change, confirming_role, insert_handover,
  handed_over, confirm_pickup,
}

confirming_role_other :
    (actor : String) (o : OrderRow)
    → (actor == o.buyer_pubky) ≡ false
    → (confirming_role actor o == "seller") ≡ true
unfolding confirming_role
confirming_role_other actor o e = rw e

module _ (actor : String) (c : Command) (now : ℕ) (db db' : Db) (s : HandlerSuccess) where
  -- A shipment that succeeds was made by the seller of an order that is neither picked up nor
  -- digital, and moves it from `paid` or `processing` along an edge that `fulfillment.ship`
  -- triggers, with its event and the buyer's notification.
  pub ship-Advanced :
      (p : ShipOrderPayload)
      → IsKeyed db
      → ship actor c p now db ≡ done s db'
      → (o : OrderRow) × (db.orders p.order_id ≡ some o)
        × (o.seller_pubky ≡ actor)
        × (o.fulfillment ≢ "pickup")
        × (o.fulfillment ≢ "digital")
        × Advanced "fulfillment.ship" "fulfillment.shipped" actor o.buyer_pubky c o
            (shipped p now (bumped o))
            db
            db'
            s
  unfolding ship shipped triggers order_machine
  ship-Advanced p keyed h = elim (Option-cases (db.orders p.order_id)) [
    | inl missing ↦ absurd (ground arith)
    | inr (o, found) ↦ (
      o,
      found,
      ground (arith, eq_iff o.seller_pubky actor),
      ground (arith, eq_iff o.fulfillment "pickup"),
      ground (arith, eq_iff o.fulfillment "digital"),
      advance_order-Advanced "fulfillment.ship" actor c o (shipped p now) "fulfillment.shipped"
          "order_shipped" (λ u. u.buyer_pubky) now db db db' s refl (untouched db)
          (ground (arith, keyed p.order_id o found)) (ground arith) (ground arith)
          (at_either_state "fulfillment.ship" "shipped" o.state "paid" "processing" (ground arith)
            refl refl)
          (ground arith),
    )
  ]

  -- A delivery confirmation that succeeds was made by the buyer of a shipped order that is neither
  -- picked up nor digital, keeps the shipment but for its state and instant of delivery, and moves
  -- the order along an edge that `fulfillment.confirm_delivery` triggers.
  pub confirm_delivery-Advanced :
      (order_id : String)
      → IsKeyed db
      → confirm_delivery actor c order_id now db ≡ done s db'
      → (o : OrderRow) × (shipment : Shipment) × (db.orders order_id ≡ some o)
        × (o.buyer_pubky ≡ actor)
        × (o.shipment ≡ some shipment)
        × (o.fulfillment ≢ "pickup")
        × (o.fulfillment ≢ "digital")
        × ((delivered shipment now (bumped o)).shipment
            ≡ some (record shipment {
              state = "delivered";
              delivered_at = some (format_timestamp now);
            }))
        × Advanced "fulfillment.confirm_delivery" "fulfillment.delivered" actor o.seller_pubky c o
            (delivered shipment now (bumped o))
            db
            db'
            s
  unfolding confirm_delivery delivered shipment_under_way triggers order_machine
  confirm_delivery-Advanced order_id keyed h = elim (Option-cases (db.orders order_id)) [
    | inl missing ↦ absurd (ground arith)
    | inr (o, found) ↦ elim (Option-cases (shipment_under_way o)) [
      | inl out ↦ absurd (ground arith)
      | inr (shipment, within) ↦ (
        o,
        shipment,
        found,
        ground (arith, eq_iff o.buyer_pubky actor),
        ground arith,
        ground (arith, eq_iff o.fulfillment "pickup"),
        ground (arith, eq_iff o.fulfillment "digital"),
        refl,
        advance_order-Advanced "fulfillment.confirm_delivery" actor c o (delivered shipment now)
            "fulfillment.delivered" "order_delivered" (λ u. u.seller_pubky) now db db db' s refl
            (untouched db) (ground (arith, keyed order_id o found)) (ground arith) (ground arith)
            (at_state "fulfillment.confirm_delivery" "delivered" o.state "shipped" (ground arith)
              refl)
            (ground arith),
      )
    ]
  ]

  -- Readiness that succeeds was armed by the seller of a paid pickup order, and moves it along the
  -- edge that `fulfillment.mark_ready` triggers.
  pub mark_ready-Advanced :
      (order_id : String)
      → IsKeyed db
      → mark_ready actor c order_id now db ≡ done s db'
      → (o : OrderRow) × (db.orders order_id ≡ some o)
        × (o.seller_pubky ≡ actor)
        × (o.fulfillment ≡ "pickup")
        × Advanced "fulfillment.mark_ready" "fulfillment.ready_for_pickup" actor o.buyer_pubky c o
            (ready_for_pickup now (bumped o))
            db
            db'
            s
  unfolding mark_ready ready_for_pickup triggers order_machine
  mark_ready-Advanced order_id keyed h = elim (Option-cases (db.orders order_id)) [
    | inl missing ↦ absurd (ground arith)
    | inr (o, found) ↦ (
      o,
      found,
      ground (arith, eq_iff o.seller_pubky actor),
      ground (arith, eq_iff o.fulfillment "pickup"),
      advance_order-Advanced "fulfillment.mark_ready" actor c o (ready_for_pickup now)
          "fulfillment.ready_for_pickup" "pickup_ready" (λ u. u.buyer_pubky) now db db db' s refl
          (untouched db) (ground (arith, keyed order_id o found)) (ground arith) (ground arith)
          (at_state "fulfillment.mark_ready" "ready_for_pickup" o.state "paid" (ground arith) refl)
          (ground arith),
    )
  ]

  insert_handover-Untouched :
      (order_id role : String)
      → Untouched db (insert_handover order_id role now db)
        × ((insert_handover order_id role now db).orders ≡ db.orders)
  unfolding insert_handover
  insert_handover-Untouched order_id role = elim (Option-cases (db.handovers order_id)) [
    | inl none_yet ↦ (ground arith, ground arith)
    | inr (row, known) ↦ (ground arith, ground arith)
  ]

  -- A handover that succeeds is of a pickup order and was confirmed by its buyer, or by its seller
  -- while no pickup terms changed after the payment; it moves the order from `paid` or
  -- `ready_for_pickup` along an edge that `fulfillment.confirm_pickup` triggers and notifies the
  -- other party.
  pub confirm_pickup-Advanced :
      (order_id : String)
      → IsKeyed db
      → confirm_pickup actor c order_id now db ≡ done s db'
      → (o : OrderRow) × (db.orders order_id ≡ some o)
        × (o.fulfillment ≡ "pickup")
        × ((o.buyer_pubky ≡ actor)
            ⊎ ((o.seller_pubky ≡ actor) × (order_has_unresolved_terms_change o db ≡ false)))
        × Advanced "fulfillment.confirm_pickup" "fulfillment.delivered" actor
            (if confirming_role actor o == "buyer" then o.seller_pubky else o.buyer_pubky)
            c
            o
            (handed_over now (bumped o))
            db
            db'
            s
  unfolding confirm_pickup handed_over triggers order_machine
  confirm_pickup-Advanced order_id keyed h = elim (Option-cases (db.orders order_id)) [
    | inl missing ↦ absurd (ground arith)
    | inr (o, found) ↦
        let role = confirming_role actor o in
        let (same, put) = insert_handover-Untouched o.id role in
        (
          o,
          found,
          ground (arith, eq_iff o.fulfillment "pickup"),
          elim (Bool-cases (actor == o.buyer_pubky)) [
            | inl e ↦ inl (sym ((eq_iff actor o.buyer_pubky).0 e))
            | inr e ↦ inr (
              ground (arith, eq_iff actor o.seller_pubky, confirming_role_other actor o e),
              ground (arith, confirming_role_other actor o e),
            )
          ],
          advance_order-Advanced "fulfillment.confirm_pickup" actor c o (handed_over now)
              "fulfillment.delivered" "order_delivered"
              (λ u. if confirming_role actor o == "buyer" then u.seller_pubky else u.buyer_pubky)
              now db (insert_handover o.id role now db) db' s put same
              (ground (arith, keyed order_id o found)) (ground arith) (ground arith)
              (at_either_state "fulfillment.confirm_pickup" "delivered" o.state "paid"
                "ready_for_pickup" (ground arith) refl refl)
              (ground arith),
        )
  ]
