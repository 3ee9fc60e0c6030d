-- ===== src/Auctions/Bidding/Laws.antt =====
-- crates/service/src/handlers/auction.rs: `auction.place_bid` as a whole, on success.
use pubky_marketplace_servic.Prelude.{
  ℕ, String, true, some, List, [], ◌∷◌, ◌++◌, string_key, nat_key, not, ◌≡◌, ◌+◌, refl, ◌≢◌, ◌≤◌,
  ◌<◌, refl, subst, ap, ◌∙◌, inl, inr, all, arith, eq_iff, Option-cases,
}
use pubky_marketplace_servic.Store.{
  AuctionState, ListingRow, BidRow, Db, Command, done, ◌>>◌, >>-eq-done,
}
use pubky_marketplace_servic.Domain.Money.{Money}
use pubky_marketplace_servic.Orders.Action.{HandlerSuccess}
use pubky_marketplace_servic.Auctions.Ranking.{
  personal_minimum_next_bid, outranks, ranked_bidder_maximums,
}
use pubky_marketplace_servic.Auctions.Ranking.Pricing.{leader_is_best}
use pubky_marketplace_servic.Inventory.Listings.{fetch_live_listing, IsKeyed, live_stored}
use pubky_marketplace_servic.Auctions.Bidding.Settlement.{Settled, settle_bid-Settled}
use pubky_marketplace_servic.Auctions.Bidding.{
  PlaceBidPayload, parse_auction, fetch_bids, bidder_maximum, insert_bid, settle_bid, new_bid,
  guard_bid, accept_bid, place_bid,
}

-- The bids that the ranking sees: the listing's, and the new one.
abbrev pub all_bids : ListingRow → Db → BidRow → List BidRow
all_bids l db bid = fetch_bids l.aggregate_id db.bids ++ bid ∷ []

-- What the guards on an auction's bid leave.
pub record Admissible (c : Command) (l : ListingRow) (a : AuctionState) (m : Money)
    (previous now : ℕ) : Type 0 where
  pub active : a.status ≡ "active"
  pub current : c.expected_revision ≡ l.server_revision
  pub started : a.starts_at ≤ now
  pub open_still : now < a.ends_at
  pub currency : m.currency ≡ l.unit_price_currency
  pub exponent : m.exponent ≡ l.unit_price_exponent
  pub enough :
      personal_minimum_next_bid a.current_price.amount_minor a.minimum_increment.amount_minor
        previous
      ≤ m.amount_minor

-- The stored bid is the actor's, at the maximum of the payload, next in the auction's sequence.
pub record Placed (actor : String) (l : ListingRow) (a : AuctionState) (m : Money) (bid : BidRow)
    : Type 0 where
  pub bidder : bid.bidder_pubky ≡ actor
  pub maximum : bid.maximum_amount_minor ≡ m.amount_minor
  pub listing : bid.listing_aggregate_id ≡ l.aggregate_id
  pub in_sequence : bid.sequence ≡ a.bid_count + 1

guard_bid-Admissible :
    (c : Command) (l : ListingRow) (a : AuctionState) (m : Money) (previous now : ℕ) (db mid : Db)
    → guard_bid c l a m previous now db ≡ done tt mid
    → (mid ≡ db) × Admissible c l a m previous now
unfolding guard_bid
guard_bid-Admissible c l a m previous now db mid h = (
  ground arith,
  record {
    active = ground (arith, eq_iff a.status "active");
    current = ground arith;
    started = ground arith;
    open_still = ground arith;
    currency = ground (arith, eq_iff m.currency l.unit_price_currency);
    exponent = ground arith;
    enough = ground arith;
  },
)

insert_bid_done :
    (bid : BidRow) (db mid : Db)
    → insert_bid bid db ≡ done tt mid
    → mid ≡ record db { bids = db.bids ++ bid ∷ [] }
unfolding insert_bid
insert_bid_done bid db mid h = ground arith

module _ (actor : String) (c : Command) (now : ℕ) (db db' : Db) (s : HandlerSuccess) where
  abbrev with_bid : BidRow → Db
  with_bid bid = record db { bids = db.bids ++ bid ∷ [] }

  Settled-ranking :
      (l : ListingRow) (a : AuctionState) (bid : BidRow) (ranked : List BidRow)
      → db.listings l.aggregate_id ≡ some l
      → settle_bid actor c l a bid ranked now (with_bid bid) ≡ done s db'
      → (leader : BidRow) × (others : List BidRow) × (ranked ≡ leader ∷ others)
        × Settled actor c l a bid leader others now (with_bid bid) db' s
  unfolding settle_bid
  Settled-ranking l a bid [] found h = absurd (ground arith)
  Settled-ranking l a bid (leader ∷ others) found h = (
    leader,
    others,
    refl,
    settle_bid-Settled actor c l a bid leader others now (with_bid bid) db' s found h,
  )

  accept_bid-Settled :
      (l : ListingRow) (a : AuctionState) (m : Money)
      → db.listings l.aggregate_id ≡ some l
      → accept_bid actor c l a m now db ≡ done s db'
      → Admissible c l a m (bidder_maximum actor (fetch_bids l.aggregate_id db.bids)) now
        × (leader : BidRow) × (others : List BidRow) × (ranked_bidder_maximums
              (all_bids l db (new_bid actor c l a m now))
            ≡ leader ∷ others)
        × Settled actor c l a
            (new_bid actor c l a m now)
            leader
            others
            now
            (with_bid (new_bid actor c l a m now))
            db'
            s
  unfolding accept_bid
  accept_bid-Settled l a m found h =
      let bids = fetch_bids l.aggregate_id db.bids in
      let bid = new_bid actor c l a m now in
      let ranked = ranked_bidder_maximums (bids ++ bid ∷ []) in
      let (_, m1, guarded, stored) =
        >>-eq-done (guard_bid c l a m (bidder_maximum actor bids) now)
          (insert_bid bid >> settle_bid actor c l a bid ranked now) db db' s h in
      let (same, admissible) =
        guard_bid-Admissible c l a m (bidder_maximum actor bids) now db m1 guarded in
      let (_, m2, put, settled) =
        >>-eq-done (insert_bid bid) (settle_bid actor c l a bid ranked now) m1 db' s stored in
      let rows : m2 ≡ with_bid bid =
        insert_bid_done bid m1 m2 put
        ∙ ap (λ (x : Db). record x { bids = x.bids ++ bid ∷ [] }) same in
      let (leader, others, ranking, promise) =
        Settled-ranking l a bid ranked found
          (subst (λ x. settle_bid actor c l a bid ranked now x ≡ done s db') rows settled) in
      (admissible, leader, others, ranking, promise)

  pub place_bid-Settled :
      (p : PlaceBidPayload)
      → IsKeyed db
      → place_bid actor c p now db ≡ done s db'
      → (l : ListingRow) × (a : AuctionState) × (leader : BidRow) × (others : List BidRow)
        × (fetch_live_listing c.aggregate_id db ≡ some l)
        × (parse_auction l ≡ some a)
        × (l.seller_pubky ≢ actor)
        × Admissible c l a p.maximum_amount
            (bidder_maximum actor (fetch_bids l.aggregate_id db.bids))
            now
        × Placed actor l a p.maximum_amount (new_bid actor c l a p.maximum_amount now)
        × (ranked_bidder_maximums (all_bids l db (new_bid actor c l a p.maximum_amount now))
            ≡ leader ∷ others)
        × (all
              (λ b. not (outranks b leader))
              (all_bids l db (new_bid actor c l a p.maximum_amount now))
            ≡ true)
        × Settled actor c l a
            (new_bid actor c l a p.maximum_amount now)
            leader
            others
            now
            (with_bid (new_bid actor c l a p.maximum_amount now))
            db'
            s
  unfolding place_bid new_bid
  place_bid-Settled p keyed h = elim (Option-cases (fetch_live_listing c.aggregate_id db)) [
    | inl missing ↦ absurd (ground arith)
    | inr (l, live) ↦ elim (Option-cases (parse_auction l)) [
      | inl plain ↦ absurd (ground arith)
      | inr (a, auctioned) ↦ elim (Option-cases (db.auction_reserves c.aggregate_id)) [
        | inl lost ↦ absurd (ground arith)
        | inr (reserve, there) ↦
            let (admissible, leader, others, ranked, settled) =
              accept_bid-Settled l a p.maximum_amount
                (ap db.listings (keyed c.aggregate_id l ((live_stored c.aggregate_id db l live).0))
                  ∙ (live_stored c.aggregate_id db l live).0)
                (ground arith) in
            (
              l,
              a,
              leader,
              others,
              live,
              auctioned,
              ground (arith, eq_iff l.seller_pubky actor),
              admissible,
              record { bidder = refl; maximum = refl; listing = refl; in_sequence = refl },
              ranked,
              leader_is_best (all_bids l db (new_bid actor c l a p.maximum_amount now)) leader
                  others ranked,
              settled,
            )
      ]
    ]
  ]
