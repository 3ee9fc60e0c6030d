-- ===== src/Auctions/Closing/Once.antt =====
-- crates/service/src/handlers/auction.rs: a second close of an auction.
use pubky_marketplace_servic.Prelude.{
  ℕ, String, Bool, true, false, none, some, ◌==◌, string_key, ◌≡◌, inl, inr, refl, ap, write,
  is_some, arith, eq_iff, Bool-cases,
}
use pubky_marketplace_servic.Store.{AuctionState, ListingRow, Db, done, is_refused, Command}
use pubky_marketplace_servic.Orders.Action.{HandlerSuccess}
use pubky_marketplace_servic.Inventory.Listings.{IsKeyed}
use pubky_marketplace_servic.Auctions.Bidding.{parse_auction, auction_updated, to_value}
use pubky_marketplace_servic.Auctions.Closing.{
  winner_of, closed_auction, closed_listing, active_auction, close,
}
use pubky_marketplace_servic.Auctions.Closing.Award.{Given-listings}
use pubky_marketplace_servic.Auctions.Closing.Laws.{meets, close-Closed}

-- A closed auction is sold or unsold, not active.
closed_listing-inactive :
    (sold : Bool) (a : AuctionState) (now : ℕ) (l : ListingRow)
    → active_auction (closed_listing sold a now l) ≡ none
unfolding active_auction parse_auction closed_listing closed_auction auction_updated to_value
closed_listing-inactive true a now l = elim (Bool-cases (l.sale_format == "auction")) [
  | inl auctioned ↦ rw (active_auction, auctioned) refl
  | inr fixed ↦ rw (active_auction, fixed) refl
]
closed_listing-inactive false a now l = elim (Bool-cases (l.sale_format == "auction")) [
  | inl auctioned ↦ rw (active_auction, auctioned) refl
  | inr fixed ↦ rw (active_auction, fixed) refl
]

inactive_refused :
    (actor : String) (c : Command) (now : ℕ) (l : ListingRow) (db : Db)
    → db.listings c.aggregate_id ≡ some l
    → active_auction l ≡ none
    → is_refused (close actor c now db) ≡ true
unfolding close
inactive_refused actor c now l db found inactive = elim (Bool-cases (l.seller_pubky == actor)) [
  | inl seller ↦ ground arith
  | inr other ↦ ground arith
]

module _ (actor actor' : String) (c c' : Command) (now now' : ℕ) (db db' : Db)
    (s : HandlerSuccess) where
  -- After an auction has been closed, every close of it is refused, whoever sends it, at whatever time
  -- and revision.
  pub close_once :
      IsKeyed db
      → close actor c now db ≡ done s db'
      → c'.aggregate_id ≡ c.aggregate_id
      → is_refused (close actor' c' now' db') ≡ true
  close_once keyed h same =
      let (l, a, reserve, found, seller, active, current, ended, kept, closed) =
        close-Closed actor c now db db' s keyed h in
      let w = winner_of l a (meets reserve a) in
      let after = closed_listing (is_some w) a now l in
      let stored : db'.listings ≡ write db.listings l.aggregate_id after =
        Given-listings c l a w now _ db' closed.given in
      let at : db'.listings c'.aggregate_id ≡ some after = ground (
        arith,
        ap (λ t. t c'.aggregate_id) stored,
        keyed c.aggregate_id l found,
        eq_iff c'.aggregate_id l.aggregate_id,
      ) in
      inactive_refused actor' c' now' after db' at (closed_listing-inactive (is_some w) a now l)
