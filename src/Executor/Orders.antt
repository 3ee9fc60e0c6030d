-- ===== src/Executor/Orders.antt =====
-- crates/service/src/executor.rs: the orders over runs of the modelled commands.
use pubky_marketplace_servic.Prelude.{
  refl, some, ℕ, String, Option, List, [], ◌∷◌, string_key, ◌≡◌, inl, inr, ap, sym, subst, ◌∙◌,
  arith, eq_iff, Option-cases,
}
use pubky_marketplace_servic.Store.{OrderRow, Db, Command, done}
use pubky_marketplace_servic.Orders.Action.{HandlerSuccess}
use pubky_marketplace_servic.Orders.Returns.Laws.{
  request-Advanced, approve-Advanced, receive-Advanced,
}
use pubky_marketplace_servic.Orders.Refund.Laws.{record_external_refund-Advanced}
use pubky_marketplace_servic.Orders.Fulfillment.Laws.{
  ship-Advanced, confirm_delivery-Advanced, mark_ready-Advanced, confirm_pickup-Advanced,
}
use pubky_marketplace_servic.Orders.Cancellation.Laws.{approve_cancellation-GaveBack}
use pubky_marketplace_servic.Inventory.Holds.{reserved_by}
use pubky_marketplace_servic.Inventory.Reservations.Laws.{reserve-Held, Gated-Elsewhere}
use pubky_marketplace_servic.Auctions.Bidding.{auction_updated}
use pubky_marketplace_servic.Auctions.Bidding.Laws.{place_bid-Settled}
use pubky_marketplace_servic.Drops.Commands.{cancel}
use pubky_marketplace_servic.Executor.{Submission, Handlers, State, execute, store}
use pubky_marketplace_servic.Executor.Laws.{Call, run, execute_state}
use pubky_marketplace_servic.Executor.Dispatch.{
  CommandPayload, kind, dispatch, cancel_drop, place_bid_payload, close_auction, ship_order,
  confirm_delivery_payload, mark_ready_for_pickup, confirm_pickup_payload, request_return,
  approve_return, receive_return, record_refund, reserve_inventory, approve_cancellation_payload,
}
use pubky_marketplace_servic.Executor.Sound.{
  Moved, Evolves, same-Evolves, before-Evolves, Advanced-Evolves, Closed-Evolves, IsSound,
  same-IsSound, Advanced-IsSound, stored_at, Closed-IsSound,
}
use pubky_marketplace_servic.Auctions.Closing.Laws.{close-Closed}

module _ (actor : String) (c : Command) (now : ℕ) (db db' : Db) (s : HandlerSuccess) where
  cancel_rows :
      cancel actor c now db ≡ done s db' → (db'.orders ≡ db.orders) × (db'.listings ≡ db.listings)
  unfolding cancel
  cancel_rows h = elim (Option-cases (db.drops c.aggregate_id)) [
    | inl missing ↦ absurd (ground arith)
    | inr (d, found) ↦ (ground arith, ground arith)
  ]

  -- Every modelled command keeps the rows sound.
  dispatch-IsSound :
      (attestor : Option (String → String)) (p : CommandPayload)
      → IsSound db
      → dispatch attestor actor c p now db ≡ done s db'
      → IsSound db'
  unfolding dispatch auction_updated reserved_by
  dispatch-IsSound attestor cancel_drop sound h =
      let (orders, listings) = cancel_rows h in
      same-IsSound db db' orders
        (λ k l at. sound.listings_keyed k l (sym (ap (λ t. t k) listings) ∙ at)) sound
  dispatch-IsSound attestor (place_bid_payload p) sound h =
      let (
        l, a, leader, others, live, auctioned, seller, admissible, placed, ranking, best, settled,
      ) =
        place_bid-Settled actor c now db db' s p sound.listings_keyed h in
      same-IsSound db db' settled.same_orders
        (λ k x at. ground (
          arith,
          sym (ap (λ t. t k) settled.stored) ∙ at,
          eq_iff k l.aggregate_id,
          sound.listings_keyed k x,
        ))
        sound
  dispatch-IsSound attestor close_auction sound h =
      let (l, a, reserve, found, seller, active, current, ended, kept, closed) =
        close-Closed actor c now db db' s sound.listings_keyed h in
      Closed-IsSound c l a reserve now db db'
        (ap db.listings (sound.listings_keyed c.aggregate_id l found) ∙ found) closed sound
  dispatch-IsSound attestor (ship_order p) sound h =
      let (o, found, seller, shipped, physical, moved) =
        ship-Advanced actor c now db db' s p sound.orders_keyed h in
      Advanced-IsSound _ _ _ _ c o _ db db' s sound (stored_at db p.order_id o sound found) moved
  dispatch-IsSound attestor (confirm_delivery_payload id) sound h =
      let (o, shipment, found, buyer, sent, shipped, physical, kept_shipment, moved) =
        confirm_delivery-Advanced actor c now db db' s id sound.orders_keyed h in
      Advanced-IsSound _ _ _ _ c o _ db db' s sound (stored_at db id o sound found) moved
  dispatch-IsSound attestor (mark_ready_for_pickup id) sound h =
      let (o, found, seller, pickup, moved) =
        mark_ready-Advanced actor c now db db' s id sound.orders_keyed h in
      Advanced-IsSound _ _ _ _ c o _ db db' s sound (stored_at db id o sound found) moved
  dispatch-IsSound attestor (confirm_pickup_payload id) sound h =
      let (o, found, pickup, party, moved) =
        confirm_pickup-Advanced actor c now db db' s id sound.orders_keyed h in
      Advanced-IsSound _ _ _ _ c o _ db db' s sound (stored_at db id o sound found) moved
  dispatch-IsSound attestor (request_return p) sound h =
      let (o, found, buyer, physical, covered, moved) =
        request-Advanced actor c now db db' s p sound.orders_keyed h in
      Advanced-IsSound _ _ _ _ c o _ db db' s sound (stored_at db p.order_id o sound found) moved
  dispatch-IsSound attestor (approve_return id) sound h =
      let (o, r, found, seller, asked, stamped, moved) =
        approve-Advanced actor c now db db' s id sound.orders_keyed h in
      Advanced-IsSound _ _ _ _ c o _ db db' s sound (stored_at db id o sound found) moved
  dispatch-IsSound attestor (receive_return id) sound h =
      let (o, r, found, seller, asked, stamped, moved) =
        receive-Advanced actor c now db db' s id sound.orders_keyed h in
      Advanced-IsSound _ _ _ _ c o _ db db' s sound (stored_at db id o sound found) moved
  dispatch-IsSound attestor (record_refund p) sound h =
      let (o, found, seller, state, covered, recorded, moved) =
        record_external_refund-Advanced actor c now db db' s attestor p sound.orders_keyed h in
      Advanced-IsSound _ _ _ _ c o _ db db' s sound (stored_at db p.order_id o sound found) moved
  dispatch-IsSound attestor (reserve_inventory p) sound h =
      let (l, stamp, mid, found, live, other, listings, gated, held) =
        reserve-Held actor c p now db db' s h in
      let elsewhere = Gated-Elsewhere actor c p l stamp now db mid gated in
      same-IsSound db db' (held.orders ∙ elsewhere.orders)
        (λ k x at. ground (
          arith,
          sym (ap (λ t. t k) held.stored) ∙ at,
          eq_iff k c.aggregate_id,
          sound.listings_keyed c.aggregate_id l found,
          sound.listings_keyed k x,
          ap (λ t. t k) listings,
        ))
        sound
  dispatch-IsSound attestor (approve_cancellation_payload id) sound h =
      let (o, mid, found, seller, gave, moved) =
        approve_cancellation-GaveBack actor c now db db' s id sound.orders_keyed h in
      let mid_sound = same-IsSound db mid gave.orders (gave.keyed sound.listings_keyed) sound in
      Advanced-IsSound _ _ _ _ c o _ mid db' s mid_sound
        (ap (λ t. t o.id) gave.orders ∙ stored_at db id o sound found) moved

  -- Every modelled command leaves each order as it was or moves it along an edge of its own.
  dispatch-Evolves :
      (attestor : Option (String → String)) (p : CommandPayload)
      → IsSound db
      → dispatch attestor actor c p now db ≡ done s db'
      → Evolves (kind p) db db'
  unfolding dispatch kind
  dispatch-Evolves attestor cancel_drop sound h = same-Evolves _ db db' (cancel_rows h).0
  dispatch-Evolves attestor (place_bid_payload p) sound h =
      let (
        l, a, leader, others, live, auctioned, seller, admissible, placed, ranking, best, settled,
      ) =
        place_bid-Settled actor c now db db' s p sound.listings_keyed h in
      same-Evolves _ db db' settled.same_orders
  dispatch-Evolves attestor close_auction sound h =
      let (l, a, reserve, found, seller, active, current, ended, kept, closed) =
        close-Closed actor c now db db' s sound.listings_keyed h in
      Closed-Evolves _ c l a reserve now db db' closed
  dispatch-Evolves attestor (ship_order p) sound h =
      let (o, found, seller, shipped, physical, moved) =
        ship-Advanced actor c now db db' s p sound.orders_keyed h in
      Advanced-Evolves _ _ _ _ c o _ db db' s (stored_at db p.order_id o sound found) moved
  dispatch-Evolves attestor (confirm_delivery_payload id) sound h =
      let (o, shipment, found, buyer, sent, shipped, physical, kept_shipment, moved) =
        confirm_delivery-Advanced actor c now db db' s id sound.orders_keyed h in
      Advanced-Evolves _ _ _ _ c o _ db db' s (stored_at db id o sound found) moved
  dispatch-Evolves attestor (mark_ready_for_pickup id) sound h =
      let (o, found, seller, pickup, moved) =
        mark_ready-Advanced actor c now db db' s id sound.orders_keyed h in
      Advanced-Evolves _ _ _ _ c o _ db db' s (stored_at db id o sound found) moved
  dispatch-Evolves attestor (confirm_pickup_payload id) sound h =
      let (o, found, pickup, party, moved) =
        confirm_pickup-Advanced actor c now db db' s id sound.orders_keyed h in
      Advanced-Evolves _ _ _ _ c o _ db db' s (stored_at db id o sound found) moved
  dispatch-Evolves attestor (request_return p) sound h =
      let (o, found, buyer, physical, covered, moved) =
        request-Advanced actor c now db db' s p sound.orders_keyed h in
      Advanced-Evolves _ _ _ _ c o _ db db' s (stored_at db p.order_id o sound found) moved
  dispatch-Evolves attestor (approve_return id) sound h =
      let (o, r, found, seller, asked, stamped, moved) =
        approve-Advanced actor c now db db' s id sound.orders_keyed h in
      Advanced-Evolves _ _ _ _ c o _ db db' s (stored_at db id o sound found) moved
  dispatch-Evolves attestor (receive_return id) sound h =
      let (o, r, found, seller, asked, stamped, moved) =
        receive-Advanced actor c now db db' s id sound.orders_keyed h in
      Advanced-Evolves _ _ _ _ c o _ db db' s (stored_at db id o sound found) moved
  dispatch-Evolves attestor (record_refund p) sound h =
      let (o, found, seller, state, covered, recorded, moved) =
        record_external_refund-Advanced actor c now db db' s attestor p sound.orders_keyed h in
      Advanced-Evolves _ _ _ _ c o _ db db' s (stored_at db p.order_id o sound found) moved
  dispatch-Evolves attestor (reserve_inventory p) sound h =
      let (l, stamp, mid, found, live, other, listings, gated, held) =
        reserve-Held actor c p now db db' s h in
      let elsewhere = Gated-Elsewhere actor c p l stamp now db mid gated in
      same-Evolves _ db db' (held.orders ∙ elsewhere.orders)
  dispatch-Evolves attestor (approve_cancellation_payload id) sound h =
      let (o, mid, found, seller, gave, moved) =
        approve_cancellation-GaveBack actor c now db db' s id sound.orders_keyed h in
      before-Evolves _ db mid db' gave.orders (
        Advanced-Evolves _ _ _ _ c o _ mid db' s
          (ap (λ t. t o.id) gave.orders ∙ stored_at db id o sound found) moved)

-- The executor with the modelled handlers, around the sealing that it is given.
abbrev pub handlers : Option (String → String) → Handlers CommandPayload → Handlers CommandPayload
handlers attestor sealing = record sealing { kind = kind; dispatch = dispatch attestor }

execute-IsSound :
    (attestor : Option (String → String)) (sealing : Handlers CommandPayload) (a : String)
    (s : Submission CommandPayload) (now : ℕ) (state : State)
    → IsSound state.db
    → let after = (execute (handlers attestor sealing) a s now state).1.db in
      IsSound after × Evolves (kind s.payload) state.db after
unfolding store
execute-IsSound attestor sealing a s now state sound =
    elim (execute_state (handlers attestor sealing) a s now state) [
      | inl (same, _) ↦
          subst (λ x. IsSound x.db × Evolves (kind s.payload) state.db x.db) (sym same)
            (sound, same-Evolves (kind s.payload) state.db state.db refl)
      | inr (fresh, success, db, durable, ran, sealed, e) ↦
          subst (λ x. IsSound x.1.db × Evolves (kind s.payload) state.db x.1.db) (sym e)
            (
              dispatch-IsSound a s.command now state.db db success attestor s.payload sound ran,
              dispatch-Evolves a s.command now state.db db success attestor s.payload sound ran,
            )
    ]

-- What becomes of an order along the submissions: at each it stays as it is, or takes one edge of the
-- order machine that the submitted command triggers.
abbrev pub History : List (Call CommandPayload) → OrderRow → OrderRow → Type 0
History [] o o' = o' ≡ o
History (x ∷ calls) o o' =
    (mid : OrderRow) × Moved (kind x.submission.payload) o mid × History calls mid o'

-- From sound rows, after any sequence of submissions of the modelled commands, whatever their actors,
-- their times, their order and their answers: the tables are keyed by their own ids, every order is in
-- a state that a run of the order machine reaches, and every order that was there is there still, and
-- has at each submission stayed as it was or taken one edge of the order machine that the submitted
-- command triggers.
pub run-IsSound :
    (attestor : Option (String → String)) (sealing : Handlers CommandPayload)
    (calls : List (Call CommandPayload)) (state : State)
    → IsSound state.db
    → IsSound (run (handlers attestor sealing) calls state).db
      × ((k : String) (o : OrderRow)
          → state.db.orders k ≡ some o
          → (o' : OrderRow) × ((run (handlers attestor sealing) calls state).db.orders k ≡ some o')
            × History calls o o')
run-IsSound attestor sealing [] state sound = (sound, λ k o found. (o, found, refl))
run-IsSound attestor sealing (x ∷ calls) state sound =
    let next = (execute (handlers attestor sealing) x.actor x.submission x.now state).1 in
    let (kept, moves) = execute-IsSound attestor sealing x.actor x.submission x.now state sound in
    let (ended, later) = run-IsSound attestor sealing calls next kept in
    (
      ended,
      λ k o found.
          let (mid, at, moved) = moves k o found in
          let (o', at_end, history) = later k mid at in (o', at_end, (mid, moved, history)),
    )
