-- ===== src/Orders/Cancellation/Laws.antt =====
-- crates/service/src/handlers/cancellation.rs: the seller's approval, on success.
use pubky_marketplace_servic.Prelude.{
  ℕ, String, true, some, List, [], ◌∷◌, ◌==◌, string_key, ◌≡◌, refl, ap, sym, ◌∙◌, inl, inr, arith,
  eq_iff, Option-cases,
}
use pubky_marketplace_servic.Domain.Machines.{order_machine}
use pubky_marketplace_servic.Store.{
  ListingRow, OrderRow, OrderLine, Db, Command, done, ◌>>◌, >>-eq-done,
}
use pubky_marketplace_servic.Orders.Action.{
  HandlerSuccess, update_order, finish_order_action, advance_order,
}
use pubky_marketplace_servic.Orders.Contract.{
  Advanced, IsKeyed, bumped, triggers, advance_order-Advanced, untouched, at_state,
}
use pubky_marketplace_servic.Inventory.Holds.{
  HeldQuantity, sold, released, release_line, release_lines,
}
use pubky_marketplace_servic.Inventory.Listings.{IsKeyed as ListingsKeyed}
use pubky_marketplace_servic.Inventory.Holds.Movement.{needed, Returns, release_lines-Returns}
use pubky_marketplace_servic.Inventory.Holds.Laws.{IsBalanced, release_lines-IsBalanced}
use pubky_marketplace_servic.Drops.Gate.{credit_drop_release}
use pubky_marketplace_servic.Orders.Cancellation.{
  credit_order_drop, releasable_lines, cancelled, return_and_cancel, approve_cancellation,
}

-- The tables that giving stock back leaves alone.
record StockOnly (db mid : Db) : Type 0 where
  orders : mid.orders ≡ db.orders
  events : mid.events ≡ db.events
  outbox : mid.outbox ≡ db.outbox

release_line-StockOnly :
    (held : HeldQuantity) (now : ℕ) (line : OrderLine) (db mid : Db)
    → release_line held now line db ≡ done tt mid
    → StockOnly db mid
unfolding release_line
release_line-StockOnly held now line db mid h =
    elim (Option-cases (db.listings line.listing_aggregate_id)) [
      | inl missing ↦ absurd (ground arith)
      | inr (x, at_line) ↦ record {
        orders = ground arith;
        events = ground arith;
        outbox = ground arith;
      }
    ]

release_lines-StockOnly :
    (held : HeldQuantity) (now : ℕ) (lines : List OrderLine) (db mid : Db)
    → release_lines held now lines db ≡ done tt mid
    → StockOnly db mid
unfolding release_lines
release_lines-StockOnly held now [] db mid h = record {
  orders = ground arith;
  events = ground arith;
  outbox = ground arith;
}
release_lines-StockOnly held now (line ∷ lines) db mid h =
    let (_, next, first, rest) =
      >>-eq-done (release_line held now line) (release_lines held now lines) db mid tt h in
    let one = release_line-StockOnly held now line db next first in
    let more = release_lines-StockOnly held now lines next mid rest in
    record {
      orders = more.orders ∙ one.orders;
      events = more.events ∙ one.events;
      outbox = more.outbox ∙ one.outbox;
    }

release_line_keyed :
    (held : HeldQuantity) (now : ℕ) (line : OrderLine) (db mid : Db)
    → release_line held now line db ≡ done tt mid
    → ListingsKeyed db
    → ListingsKeyed mid
unfolding release_line released
release_line_keyed held now line db mid h keyed k l at =
    elim (Option-cases (db.listings line.listing_aggregate_id)) [
      | inl missing ↦ absurd (ground arith)
      | inr (x, at_line) ↦ ground (
        arith,
        eq_iff k line.listing_aggregate_id,
        keyed line.listing_aggregate_id x at_line,
        keyed k l,
      )
    ]

release_lines_keyed :
    (held : HeldQuantity) (now : ℕ) (lines : List OrderLine) (db mid : Db)
    → release_lines held now lines db ≡ done tt mid
    → ListingsKeyed db
    → ListingsKeyed mid
unfolding release_lines
release_lines_keyed held now [] db mid h keyed = λ k l at. keyed k l (ground arith)
release_lines_keyed held now (line ∷ lines) db mid h keyed =
    let (_, next, first, rest) =
      >>-eq-done (release_line held now line) (release_lines held now lines) db mid tt h in
    release_lines_keyed held now lines next mid rest
      (release_line_keyed held now line db next first keyed)

credit_order_drop-StockOnly :
    (o : OrderRow) (lines : List OrderLine) (now : ℕ) (db mid : Db)
    → credit_order_drop o lines now db ≡ done tt mid
    → StockOnly db mid × (mid.listings ≡ db.listings)
unfolding credit_order_drop credit_drop_release
credit_order_drop-StockOnly o lines now db mid h = elim (Option-cases o.drop_aggregate_id) [
  | inl plain ↦
      (record { orders = ground arith; events = ground arith; outbox = ground arith }, ground arith)
  | inr (d, stamped) ↦ elim (Option-cases (db.drops d)) [
    | inl missing ↦ absurd (ground arith)
    | inr (row, found) ↦ elim (Option-cases (db.drop_purchases d o.buyer_pubky)) [
      | inl none_held ↦ absurd (ground arith)
      | inr (count, held) ↦ (
        record { orders = ground arith; events = ground arith; outbox = ground arith },
        ground arith,
      )
    ]
  ]
]

advance_order_listings :
    (actor : String) (c : Command) (o : OrderRow) (set : OrderRow → OrderRow) (kind note : String)
    (to : OrderRow → String) (now : ℕ) (db db' : Db) (s : HandlerSuccess)
    → advance_order actor c o set kind note to now db ≡ done s db'
    → db'.listings ≡ db.listings
unfolding advance_order update_order finish_order_action
advance_order_listings actor c o set kind note to now db db' s h =
    elim (Option-cases (db.orders o.id)) [
      | inl missing ↦ absurd (ground arith)
      | inr (row, found) ↦ ground arith
    ]

-- The stock after the approved return, of any order.
pub return_and_cancel-Returns :
    (k : String) (l : ListingRow) (actor : String) (c : Command) (o : OrderRow)
    (lines : List OrderLine) (now : ℕ) (db db' : Db) (s : HandlerSuccess)
    → db.listings k ≡ some l
    → return_and_cancel actor c o lines now db ≡ done s db'
    → (l' : ListingRow) × (db'.listings k ≡ some l') × Returns sold (needed k lines) l l'
unfolding return_and_cancel
return_and_cancel-Returns k l actor c o lines now db db' s found h =
    let finish =
      advance_order actor c o (cancelled now) "order.cancelled" "order_cancelled"
        (λ updated. updated.buyer_pubky) now in
    let (_, m1, credit, r1) =
      >>-eq-done (credit_order_drop o lines now) (release_lines sold now lines >> finish) db db' s
        h in
    let (_, mid, gave, last) = >>-eq-done (release_lines sold now lines) finish m1 db' s r1 in
    let (first, listings) = credit_order_drop-StockOnly o lines now db m1 credit in
    let (l', at, moved) =
      release_lines-Returns k l sold now lines m1 mid (ap (λ t. t k) listings ∙ found) gave in
    (
      l',
      ap (λ t. t k)
            (advance_order_listings actor c o (cancelled now) "order.cancelled" "order_cancelled"
              (λ updated. updated.buyer_pubky) now mid db' s last)
          ∙ at,
      moved,
    )

-- The rows between the return of the stock and the order's own step.
pub record GaveBack (o : OrderRow) (lines : List OrderLine) (db mid : Db) : Type 0 where
  pub orders : mid.orders ≡ db.orders
  pub events : mid.events ≡ db.events
  pub outbox : mid.outbox ≡ db.outbox
  pub stock :
      (k : String) (l : ListingRow)
      → db.listings k ≡ some l
      → (l' : ListingRow) × (mid.listings k ≡ some l') × Returns sold (needed k lines) l l'
  pub balanced : IsBalanced db → IsBalanced mid
  pub keyed : ListingsKeyed db → ListingsKeyed mid

module _ (actor : String) (c : Command) (now : ℕ) (db db' : Db) (s : HandlerSuccess) where
  return_and_cancel-GaveBack :
      (o : OrderRow) (lines : List OrderLine)
      → db.orders o.id ≡ some o
      → c.expected_revision ≡ o.revision
      → (o.state == "cancel_requested") ≡ true
      → return_and_cancel actor c o lines now db ≡ done s db'
      → (mid : Db) × GaveBack o lines db mid
        × Advanced "order.cancel_approve" "order.cancelled" actor o.buyer_pubky c o
            (cancelled now (bumped o))
            mid
            db'
            s
  unfolding return_and_cancel cancelled triggers order_machine
  return_and_cancel-GaveBack o lines found checked pending h =
      let finish =
        advance_order actor c o (cancelled now) "order.cancelled" "order_cancelled"
          (λ updated. updated.buyer_pubky) now in
      let (_, m1, credit, r1) =
        >>-eq-done (credit_order_drop o lines now) (release_lines sold now lines >> finish) db db' s
          h in
      let (_, mid, gave, last) = >>-eq-done (release_lines sold now lines) finish m1 db' s r1 in
      let (first, listings) = credit_order_drop-StockOnly o lines now db m1 credit in
      let second = release_lines-StockOnly sold now lines m1 mid gave in
      let orders = second.orders ∙ first.orders in
      (
        mid,
        record {
          orders = orders;
          events = second.events ∙ first.events;
          outbox = second.outbox ∙ first.outbox;
          stock = λ k l at.
              release_lines-Returns k l sold now lines m1 mid (ap (λ t. t k) listings ∙ at) gave;
          balanced = λ bal.
              release_lines-IsBalanced sold now lines m1 mid
                (λ k l at. bal k l (sym (ap (λ t. t k) listings) ∙ at)) gave;
          keyed = λ keyed.
              release_lines_keyed sold now lines m1 mid gave
                (λ k l at. keyed k l (sym (ap (λ t. t k) listings) ∙ at));
        },
        advance_order-Advanced "order.cancel_approve" actor c o (cancelled now) "order.cancelled"
            "order_cancelled" (λ u. u.buyer_pubky) now mid mid db' s refl (untouched mid)
            (ap (λ t. t o.id) orders ∙ found) checked (ground arith)
            (at_state "order.cancel_approve" "cancelled" o.state "cancel_requested" pending refl)
            last,
      )

  -- A cancellation approval that succeeds was made by the seller of an order whose cancellation was
  -- requested. It returns exactly the units of the releasable lines from sold to available, listing
  -- by listing, keeps a balanced stock balanced, and then moves the order to cancelled along an edge
  -- that the command triggers, with its event and the buyer's notification.
  pub approve_cancellation-GaveBack :
      (order_id : String)
      → IsKeyed db
      → approve_cancellation actor c order_id now db ≡ done s db'
      → (o : OrderRow) × (mid : Db) × (db.orders order_id ≡ some o)
        × (o.seller_pubky ≡ actor)
        × GaveBack o (releasable_lines o db) db mid
        × Advanced "order.cancel_approve" "order.cancelled" actor o.buyer_pubky c o
            (cancelled now (bumped o))
            mid
            db'
            s
  unfolding approve_cancellation
  approve_cancellation-GaveBack order_id keyed h = elim (Option-cases (db.orders order_id)) [
    | inl missing ↦ absurd (ground arith)
    | inr (o, found) ↦
        let (mid, gave, moved) =
          return_and_cancel-GaveBack o (releasable_lines o db)
            (ground (arith, keyed order_id o found)) (ground arith) (ground arith) (ground arith) in
        (o, mid, found, ground (arith, eq_iff o.seller_pubky actor), gave, moved)
  ]
