-- ===== src/Auctions/Closing/Award.antt =====
-- crates/service/src/handlers/auction.rs: the rows that a close adds beside the listing.
use pubky_marketplace_servic.Prelude.{
  ℕ, suc, Table, String, Option, none, some, List, [], ◌∷◌, ◌++◌, string_key, nat_key, ◌≡◌, inl,
  inr, ap, sym, ◌∙◌, write, is_some, arith, Option-cases, if◌then◌else◌,
}
use pubky_marketplace_servic.Store.{
  AuctionState, ListingRow, ReservationRow, OrderRow, PaymentRow, Db, done, Command, ◌>>=◌, ◌>>◌,
  >>-eq-done, >>=-eq-done, gets, pure, insert_event, insert_notification_intent, new_uuid,
}
use pubky_marketplace_servic.Domain.Ids.{order_aggregate_id}
use pubky_marketplace_servic.Orders.Action.{HandlerSuccess}
use pubky_marketplace_servic.Inventory.Reservations.{insert_reservation}
use pubky_marketplace_servic.Auctions.Awarding.{
  indexed, winning_reservation, won_order, won_payment, insert_order, insert_payment, open_order,
  award, award_winner, announce_order,
}
use pubky_marketplace_servic.Auctions.Closing.{
  distinct_bidders, notify_ended, tell_ended, publish_close,
}

-- The rows that a notification leaves alone.
pub record Same (db db' : Db) : Type 0 where
  pub listings : db'.listings ≡ db.listings
  pub reservations : db'.reservations ≡ db.reservations
  pub orders : db'.orders ≡ db.orders

Same-trans : (a b c : Db) → Same a b → Same b c → Same a c
Same-trans a b c p q = record {
  listings = q.listings ∙ p.listings;
  reservations = q.reservations ∙ p.reservations;
  orders = q.orders ∙ p.orders;
}

tell_ended-Same :
    (actor : String) (l : ListingRow) (a : AuctionState) (w : Option String) (event_id : String)
    (now : ℕ) (bidder : String) (db db' : Db)
    → tell_ended actor l a w event_id now bidder db ≡ done tt db'
    → Same db db'
unfolding tell_ended
tell_ended-Same actor l a w event_id now bidder db db' h = record {
  listings = ground arith;
  reservations = ground arith;
  orders = ground arith;
}

notify_ended-Same :
    (actor : String) (l : ListingRow) (a : AuctionState) (w : Option String) (event_id : String)
    (now : ℕ) (bidders : List String) (db db' : Db)
    → notify_ended actor l a w event_id now bidders db ≡ done tt db'
    → Same db db'
unfolding notify_ended
notify_ended-Same actor l a w event_id now [] db db' h = record {
  listings = ground arith;
  reservations = ground arith;
  orders = ground arith;
}
notify_ended-Same actor l a w event_id now (bidder ∷ bidders) db db' h =
    let (_, mid, first, rest) =
      >>-eq-done (tell_ended actor l a w event_id now bidder)
        (notify_ended actor l a w event_id now bidders) db db' tt h in
    Same-trans db mid db' (tell_ended-Same actor l a w event_id now bidder db mid first)
      (notify_ended-Same actor l a w event_id now bidders mid db' rest)

-- What the winner receives, under the order's id.
pub record Awarded (c : Command) (l : ListingRow) (a : AuctionState) (w : String) (now : ℕ)
    (db db' : Db) : Type 0 where
  pub order_id : String
  pub fresh : db.orders order_id ≡ none
  pub listings : db'.listings ≡ db.listings
  pub reservations : db'.reservations ≡ db.reservations ++ winning_reservation c l w now ∷ []
  pub orders : db'.orders ≡ write db.orders order_id (won_order l a w order_id now)

insert_payment-Same :
    (p : PaymentRow) (db mid : Db) → insert_payment p db ≡ done tt mid → Same db mid
unfolding insert_payment
insert_payment-Same p db mid h = record {
  listings = ground arith;
  reservations = ground arith;
  orders = ground arith;
}

insert_order_done :
    (o : OrderRow) (db mid : Db)
    → insert_order o db ≡ done tt mid
    → (db.orders o.id ≡ none)
      × (mid ≡ record db {
        orders = write db.orders o.id o;
        auction_winners = indexed o db.auction_winners;
      })
unfolding insert_order
insert_order_done o db mid h = elim (Option-cases (db.orders o.id)) [
  | inl fresh ↦ (fresh, ground arith)
  | inr (x, taken) ↦ absurd (ground arith)
]

announce_order-Same :
    (actor : String) (c : Command) (l : ListingRow) (a : AuctionState) (w event_id : String)
    (now : ℕ) (o : OrderRow) (payment_id : String) (db db' : Db) (ids : List String)
    → announce_order actor c l a w event_id now o payment_id db ≡ done ids db'
    → Same db db'
unfolding announce_order
announce_order-Same actor c l a w event_id now o payment_id db db' ids h =
    let tell =
      insert_event c (order_aggregate_id o.id) 1 actor "order.created" now >>= λ order_event_id.
      insert_notification_intent event_id "auction_won" w actor l.aggregate_id
        (some a.current_price) now
      >> pure (order_event_id ∷ []) in
    let (_, mid, paid, rest) =
      >>-eq-done (insert_payment (won_payment o payment_id now)) tell db db' ids h in
    Same-trans db mid db' (insert_payment-Same (won_payment o payment_id now) db mid paid)
      (record { listings = ground arith; reservations = ground arith; orders = ground arith })

open_order_done :
    (actor : String) (c : Command) (l : ListingRow) (a : AuctionState) (w event_id : String)
    (now : ℕ) (o : OrderRow) (payment_id : String) (db db' : Db) (ids : List String)
    → open_order actor c l a w event_id now o payment_id db ≡ done ids db'
    → (db.orders o.id ≡ none)
      × (db'.listings ≡ db.listings)
      × (db'.reservations ≡ db.reservations)
      × (db'.orders ≡ write db.orders o.id o)
unfolding open_order
open_order_done actor c l a w event_id now o payment_id db db' ids h =
    let (_, mid, stored, rest) =
      >>-eq-done (insert_order o) (announce_order actor c l a w event_id now o payment_id) db db'
        ids h in
    let (fresh, written) = insert_order_done o db mid stored in
    let same = announce_order-Same actor c l a w event_id now o payment_id mid db' ids rest in
    (
      fresh,
      same.listings ∙ ap (λ d. d.listings) written,
      same.reservations ∙ ap (λ d. d.reservations) written,
      same.orders ∙ ap (λ d. d.orders) written,
    )

insert_reservation_done :
    (r : ReservationRow) (db mid : Db)
    → insert_reservation r db ≡ done tt mid
    → mid ≡ record db { reservations = db.reservations ++ r ∷ [] }
unfolding insert_reservation
insert_reservation_done r db mid h = ground arith

award_done :
    (actor : String) (c : Command) (l : ListingRow) (a : AuctionState) (w event_id : String)
    (now : ℕ) (db db' : Db) (ids : List String)
    → award actor c l a w event_id now db ≡ done ids db'
    → Awarded c l a w now db db'
unfolding award won_order
award_done actor c l a w event_id now db db' ids h =
    let order_with = λ (order_id payment_id : String).
      open_order actor c l a w event_id now (won_order l a w order_id now) payment_id in
    let (_, mid, put, rest) =
      >>-eq-done (insert_reservation (winning_reservation c l w now))
        (new_uuid >>= λ order_id. new_uuid >>= λ payment_id. order_with order_id payment_id) db db'
        ids h in
    let drawn : Db = record mid { drawn = suc (suc mid.drawn) } in
    let (fresh, listings, reservations, orders) =
      open_order_done actor c l a w event_id now (won_order l a w (mid.uuids mid.drawn) now)
        (mid.uuids (suc mid.drawn)) drawn db' ids rest in
    let inserted = insert_reservation_done (winning_reservation c l w now) db mid put in
    record {
      order_id = mid.uuids mid.drawn;
      fresh = sym (ap (λ d. d.orders (mid.uuids mid.drawn)) inserted) ∙ fresh;
      listings = listings ∙ ap (λ d. d.listings) inserted;
      reservations = reservations ∙ ap (λ d. d.reservations) inserted;
      orders =
          orders
          ∙ ap
              (λ (t : Table String OrderRow).
                write t (mid.uuids mid.drawn) (won_order l a w (mid.uuids mid.drawn) now))
              (ap (λ d. d.orders) inserted);
    }

-- The rows beside the listing that a close adds.
abbrev pub Given : Command → ListingRow → AuctionState → Option String → ℕ → Db → Db → Type 0
Given c l a none now db db' = Same db db'
Given c l a (some w) now db db' = Awarded c l a w now db db'

pub Given-listings :
    (c : Command) (l : ListingRow) (a : AuctionState) (w : Option String) (now : ℕ) (db db' : Db)
    → Given c l a w now db db'
    → db'.listings ≡ db.listings
Given-listings c l a none now db db' given = given.listings
Given-listings c l a (some w) now db db' given = given.listings

Given-within :
    (c : Command) (l : ListingRow) (a : AuctionState) (w : Option String) (now : ℕ)
    (first db mid db' : Db)
    → Same first db
    → Given c l a w now db mid
    → Same mid db'
    → Given c l a w now first db'
Given-within c l a none now first db mid db' before given after =
    Same-trans first db db' before (Same-trans db mid db' given after)
Given-within c l a (some w) now first db mid db' before given after = record {
  order_id = given.order_id;
  fresh = sym (ap (λ t. t given.order_id) before.orders) ∙ given.fresh;
  listings = after.listings ∙ given.listings ∙ before.listings;
  reservations =
      after.reservations
      ∙ given.reservations
      ∙ ap (λ rows. rows ++ winning_reservation c l w now ∷ []) before.reservations;
  orders =
      after.orders
      ∙ given.orders
      ∙ ap
          (λ (t : Table String OrderRow).
            write t given.order_id (won_order l a w given.order_id now))
          before.orders;
}

award_winner-Given :
    (actor : String) (c : Command) (l : ListingRow) (a : AuctionState) (w : Option String)
    (event_id : String) (now : ℕ) (db db' : Db) (ids : List String)
    → award_winner actor c l a w event_id now db ≡ done ids db'
    → Given c l a w now db db'
unfolding award_winner
award_winner-Given actor c l a none event_id now db db' ids h = record {
  listings = ground arith;
  reservations = ground arith;
  orders = ground arith;
}
award_winner-Given actor c l a (some w) event_id now db db' ids h =
    award_done actor c l a w event_id now db db' ids h

insert_event-Same :
    (c : Command) (id : String) (revision : ℕ) (actor kind : String) (now : ℕ) (db db' : Db)
    (event_id : String)
    → insert_event c id revision actor kind now db ≡ done event_id db'
    → Same db db'
unfolding insert_event
insert_event-Same c id revision actor kind now db db' event_id h = record {
  listings = ground arith;
  reservations = ground arith;
  orders = ground arith;
}

pub publish_close-Given :
    (actor : String) (c : Command) (l : ListingRow) (a : AuctionState) (w : Option String) (now : ℕ)
    (updated : ListingRow) (db db' : Db) (s : HandlerSuccess)
    → publish_close actor c l a w now updated db ≡ done s db'
    → Given c l a w now db db'
unfolding publish_close
publish_close-Given actor c l a w now updated db db' s h =
    let kind = if is_some w then "auction.closed_sold" else "auction.closed_unsold" in
    let told = λ (event_id : String) (ids bidders : List String).
      notify_ended actor l a w event_id now bidders
      >> pure (record { revision = updated.server_revision; event_ids = event_id ∷ ids }) in
    let bidding = λ (event_id : String) (ids : List String).
      gets (λ db. distinct_bidders db.collates l.aggregate_id db.bids) >>= told event_id ids in
    let (event_id, m0, logged, r0) =
      >>=-eq-done (insert_event c l.aggregate_id updated.server_revision actor kind now)
        (λ event_id. award_winner actor c l a w event_id now >>= bidding event_id) db db' s h in
    let (ids, m1, awarded, r1) =
      >>=-eq-done (award_winner actor c l a w event_id now) (bidding event_id) m0 db' s r0 in
    let bidders = distinct_bidders m1.collates l.aggregate_id m1.bids in
    let result : HandlerSuccess = record {
      revision = updated.server_revision;
      event_ids = event_id ∷ ids;
    } in
    let (_, m2, notified, r2) =
      >>-eq-done (notify_ended actor l a w event_id now bidders) (pure result) m1 db' s r1 in
    let last = notify_ended-Same actor l a w event_id now bidders m1 m2 notified in
    Given-within c l a w now db m0 m1 db'
      (insert_event-Same c l.aggregate_id updated.server_revision actor kind now db m0 event_id
        logged)
      (award_winner-Given actor c l a w event_id now m0 m1 ids awarded)
      (Same-trans m1 m2 db' last
        (record { listings = ground arith; reservations = ground arith; orders = ground arith }))
