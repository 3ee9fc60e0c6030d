-- ===== src/Auctions/Closing/Laws.antt =====
-- crates/service/src/handlers/auction.rs: what a close does.
use pubky_marketplace_servic.Prelude.{
  ℕ, String, Bool, true, false, Option, none, some, [], ◌∷◌, ◌+◌, refl, if◌then◌else◌, string_key,
  nat_key, subst, ◌≡◌, ◌≤◌, inl, inr, ap, sym, ◌∙◌, leb, write, is_some, arith, eq_iff,
  Option-cases,
}
use pubky_marketplace_servic.Store.{
  AuctionState, ListingRow, OrderLine, AuctionReserveRow, Db, done, Command, >>=-eq-done,
}
use pubky_marketplace_servic.Orders.Action.{HandlerSuccess}
use pubky_marketplace_servic.Inventory.Holds.Laws.{IsBalanced}
use pubky_marketplace_servic.Inventory.Listings.{IsKeyed}
use pubky_marketplace_servic.Auctions.Bidding.{auction_updated, to_value}
use pubky_marketplace_servic.Auctions.Awarding.{
  winning_reservation, won_order, auction_hold_seconds,
}
use pubky_marketplace_servic.Inventory.Holds.{seconds, is_deleted}
use pubky_marketplace_servic.Auctions.Closing.{
  closed_auction, consistent, reserve_satisfied, winner_of, closed_listing, close_listing,
  publish_close, settle_close, close_locked_auction, guard_close, active_auction, close,
}
use pubky_marketplace_servic.Auctions.Closing.Award.{Given, Given-listings, publish_close-Given}

-- The reserve price, if there is one, is at most the visible price.
unfoldable pub meets : AuctionReserveRow → AuctionState → Bool
meets reserve auction = elim reserve.reserve_price [
  | none ↦ true
  | some price ↦ leb price.amount_minor auction.current_price.amount_minor
]

reserve_satisfied-meets :
    (l : ListingRow) (a : AuctionState) (r : AuctionReserveRow) (satisfied : Bool) (db mid : Db)
    → reserve_satisfied l a r db ≡ done satisfied mid
    → (mid ≡ db) × (consistent l a r ≡ true) × (satisfied ≡ meets r a)
unfolding reserve_satisfied meets
reserve_satisfied-meets l a r satisfied db mid h = elim (Option-cases r.reserve_price) [
  | inl unreserved ↦ (ground arith, ground arith, ground arith)
  | inr (price, priced) ↦ (ground arith, ground arith, ground arith)
]

close_listing_done :
    (id : String) (sold : Bool) (a : AuctionState) (now : ℕ) (l updated : ListingRow) (db mid : Db)
    → db.listings id ≡ some l
    → close_listing id sold a now db ≡ done updated mid
    → (mid ≡ record db { listings = write db.listings id (closed_listing sold a now l) })
      × (sold ≡ true → 1 ≤ l.available_quantity)
unfolding close_listing
close_listing_done id sold a now l updated db mid found h = (ground arith, λ e. ground arith)

-- The winner's reservation is of one unit and runs for half an hour; the winner's order is of one
-- unit at the visible price, with the listing's shipping.
pub record WinningTerms (c : Command) (l : ListingRow) (a : AuctionState) (w order_id : String)
    (now : ℕ) : Type 0 where
  pub reserved_listing : (winning_reservation c l w now).listing_aggregate_id ≡ l.aggregate_id
  pub reserved_for : (winning_reservation c l w now).buyer_pubky ≡ w
  pub reserved_units : (winning_reservation c l w now).quantity ≡ 1
  pub reserved_status : (winning_reservation c l w now).status ≡ "active"
  pub reserved_until : (winning_reservation c l w now).expires_at ≡ now + seconds 1800
  pub bought_by : (won_order l a w order_id now).buyer_pubky ≡ w
  pub sold_by : (won_order l a w order_id now).seller_pubky ≡ l.seller_pubky
  pub pending : (won_order l a w order_id now).state ≡ "pending_payment"
  pub of_auction : (won_order l a w order_id now).auction_aggregate_id ≡ some l.aggregate_id
  pub total :
      (won_order l a w order_id now).total_minor ≡ a.current_price.amount_minor + l.shipping_minor
  pub one_unit :
      (line : OrderLine) × ((won_order l a w order_id now).lines ≡ line ∷ [])
      × (line.listing_aggregate_id ≡ l.aggregate_id)
      × (line.quantity ≡ 1)

winning_terms :
    (c : Command) (l : ListingRow) (a : AuctionState) (w order_id : String) (now : ℕ)
    → WinningTerms c l a w order_id now
unfolding winning_reservation won_order auction_hold_seconds
winning_terms c l a w order_id now = record {
  reserved_listing = refl;
  reserved_for = refl;
  reserved_units = refl;
  reserved_status = refl;
  reserved_until = refl;
  bought_by = refl;
  sold_by = refl;
  pending = refl;
  of_auction = refl;
  total = refl;
  one_unit = (_, refl, refl, refl);
}

-- The listing's row after the close: one revision on, its auction sold or unsold, and with a unit
-- moved from available to reserved if it is sold.
pub record ClosedRow (sold : Bool) (l after : ListingRow) : Type 0 where
  pub revision : after.server_revision ≡ l.server_revision + 1
  pub reserved_unit :
      sold ≡ true
      → (after.available_quantity + 1 ≡ l.available_quantity)
        × (after.reserved_quantity ≡ l.reserved_quantity + 1)
        × (after.state ≡ "reserved")
  pub kept_units :
      sold ≡ false
      → (after.available_quantity ≡ l.available_quantity)
        × (after.reserved_quantity ≡ l.reserved_quantity)
        × (after.state ≡ "available")
  pub same_sold : after.sold_quantity ≡ l.sold_quantity
  pub outcome :
      (a' : AuctionState) × (after.auction ≡ some a')
      × (a'.status ≡ (if sold then "sold" else "unsold"))

closed_listing-ClosedRow :
    (sold : Bool) (a : AuctionState) (now : ℕ) (l : ListingRow)
    → (sold ≡ true → 1 ≤ l.available_quantity)
    → ClosedRow sold l (closed_listing sold a now l)
unfolding closed_listing auction_updated closed_auction to_value
closed_listing-ClosedRow sold a now l stocked = record {
  revision = refl;
  reserved_unit = λ e. (ground (arith, stocked), ground arith, ground arith);
  kept_units = λ e. (ground arith, ground arith, ground arith);
  same_sold = refl;
  outcome = (_, refl, refl);
}

-- Who wins: the leader of an auction whose listing is not deleted and whose price meets the reserve.
pub record Chosen (l : ListingRow) (a : AuctionState) (reserve : AuctionReserveRow)
    (winner : Option String) : Type 0 where
  pub leading : meets reserve a ≡ true → l.deleted_at ≡ none → winner ≡ a.leader_pubky
  pub unmet : meets reserve a ≡ false → winner ≡ none
  pub withdrawn : is_some l.deleted_at ≡ true → winner ≡ none

winner_of-Chosen :
    (l : ListingRow) (a : AuctionState) (reserve : AuctionReserveRow)
    → Chosen l a reserve (winner_of l a (meets reserve a))
unfolding winner_of is_deleted
winner_of-Chosen l a reserve = record {
  leading = λ met here. ground arith;
  unmet = λ low. ground arith;
  withdrawn = λ gone. ground arith;
}

-- What a close does: it writes the listing's row with the auction sold or unsold, and a sold one
-- moves one available unit to reserved and gives the winner a reservation and an order.
pub record Closed (c : Command) (l : ListingRow) (a : AuctionState) (reserve : AuctionReserveRow)
    (now : ℕ) (db db' : Db) : Type 0 where
  pub in_asset : consistent l a reserve ≡ true
  pub stocked : is_some (winner_of l a (meets reserve a)) ≡ true → 1 ≤ l.available_quantity
  pub chosen : Chosen l a reserve (winner_of l a (meets reserve a))
  pub row :
      ClosedRow
        (is_some (winner_of l a (meets reserve a)))
        l
        (closed_listing (is_some (winner_of l a (meets reserve a))) a now l)
  pub terms : (w order_id : String) → WinningTerms c l a w order_id now
  pub given :
      Given c l a
        (winner_of l a (meets reserve a))
        now
        (record db {
          listings =
              write db.listings l.aggregate_id
                (closed_listing (is_some (winner_of l a (meets reserve a))) a now l);
        })
        db'
  pub balanced : IsBalanced db → IsBalanced db'

closed-IsBalanced :
    (sold : Bool) (a : AuctionState) (now : ℕ) (l : ListingRow) (db db' : Db)
    → db.listings l.aggregate_id ≡ some l
    → (sold ≡ true → 1 ≤ l.available_quantity)
    → db'.listings ≡ write db.listings l.aggregate_id (closed_listing sold a now l)
    → IsBalanced db
    → IsBalanced db'
unfolding closed_listing auction_updated
closed-IsBalanced sold a now l db db' found stocked same bal k x at = ground (
  arith,
  sym (ap (λ t. t k) same) ∙ at,
  eq_iff k l.aggregate_id,
  bal l.aggregate_id l found,
  bal k x,
  stocked,
)

close_locked_auction-Closed :
    (actor : String) (c : Command) (l : ListingRow) (a : AuctionState) (now : ℕ) (db db' : Db)
    (s : HandlerSuccess)
    → db.listings l.aggregate_id ≡ some l
    → close_locked_auction actor c l a now db ≡ done s db'
    → (reserve : AuctionReserveRow) × (db.auction_reserves l.aggregate_id ≡ some reserve)
      × Closed c l a reserve now db db'
unfolding close_locked_auction settle_close
close_locked_auction-Closed actor c l a now db db' s found h =
    elim (Option-cases (db.auction_reserves l.aggregate_id)) [
      | inl missing ↦ absurd (ground arith)
      | inr (reserve, kept) ↦
          let settle =
            λ (satisfied : Bool). settle_close actor c l a (winner_of l a satisfied) now in
          let (satisfied, m0, tested, r0) =
            >>=-eq-done (reserve_satisfied l a reserve) settle db db' s (ground arith) in
          let (start, in_asset, met) = reserve_satisfied-meets l a reserve satisfied db m0 tested in
          let w = winner_of l a (meets reserve a) in
          let r1 : settle_close actor c l a w now db ≡ done s db' =
            sym (ap (λ d. settle_close actor c l a w now d) start)
            ∙ sym (ap (λ b. settle b m0) met)
            ∙ r0 in
          let (updated, m1, moved, r2) =
            >>=-eq-done (close_listing l.aggregate_id (is_some w) a now)
              (publish_close actor c l a w now) db db' s r1 in
          let (written, stocked) =
            close_listing_done l.aggregate_id (is_some w) a now l updated db m1 found moved in
          let given =
            subst (λ d. Given c l a w now d db') written
              (publish_close-Given actor c l a w now updated m1 db' s r2) in
          (
            reserve,
            kept,
            record {
              in_asset = in_asset;
              stocked = stocked;
              chosen = winner_of-Chosen l a reserve;
              row = closed_listing-ClosedRow (is_some w) a now l stocked;
              terms = λ winner order_id. winning_terms c l a winner order_id now;
              given = given;
              balanced =
                  closed-IsBalanced (is_some w) a now l db db' found stocked
                    (Given-listings c l a w now _ db' given);
            },
          )
    ]

module _ (actor : String) (c : Command) (now : ℕ) (db db' : Db) (s : HandlerSuccess) where
  -- `auction.close` succeeds only for the seller's active auction whose end has passed. The winner is
  -- the leader, if the listing is not deleted and the visible price meets the reserve. A sold auction
  -- moves one available unit to reserved and adds one active reservation of one unit for half an hour
  -- and one pending order of one unit, both of the winner, the order's total the visible price and the
  -- listing's shipping; an unsold one adds neither. Available, reserved and sold still add up to the
  -- total.
  pub close-Closed :
      IsKeyed db
      → close actor c now db ≡ done s db'
      → (l : ListingRow) × (a : AuctionState) × (reserve : AuctionReserveRow) × (db.listings
            c.aggregate_id
          ≡ some l)
        × (l.seller_pubky ≡ actor)
        × (active_auction l ≡ some a)
        × (c.expected_revision ≡ l.server_revision)
        × (a.ends_at ≤ now)
        × (db.auction_reserves l.aggregate_id ≡ some reserve)
        × Closed c l a reserve now db db'
  unfolding close guard_close
  close-Closed keyed h = elim (Option-cases (db.listings c.aggregate_id)) [
    | inl missing ↦ absurd (ground arith)
    | inr (l, found) ↦ elim (Option-cases (active_auction l)) [
      | inl inactive ↦ absurd (ground arith)
      | inr (a, active) ↦
          let (reserve, kept, closed) =
            close_locked_auction-Closed actor c l a now db db' s
              (ap db.listings (keyed c.aggregate_id l found) ∙ found) (ground arith) in
          (
            l,
            a,
            reserve,
            found,
            ground (arith, eq_iff l.seller_pubky actor),
            active,
            ground arith,
            ground arith,
            kept,
            closed,
          )
    ]
  ]
