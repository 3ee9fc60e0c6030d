-- ===== src/Examples/Auctions.antt =====
-- Three bids of two bidders, and the one that a third bidder places over them.
use pubky_marketplace_servic.Prelude.{
  ◌⊎◌, ℕ, String, true, none, some, List, [], ◌∷◌, ◌≡◌, ◌≤◌, ◌==◌, string_key, nat_key, refl, write,
  all, leb, ◌||◌,
}
use pubky_marketplace_servic.Domain.Money.{Money}
use pubky_marketplace_servic.Store.{AuctionState, ListingRow, BidRow, Db, Command, Outcome}
use pubky_marketplace_servic.Orders.Action.{HandlerSuccess}
use pubky_marketplace_servic.Auctions.Ranking.{
  outranks, absorb, absorb_all, insert_ranked, sort_ranked, ranked_bidder_maximums, visible_amount,
}
use pubky_marketplace_servic.Auctions.Ranking.Representatives.{is_distinct, represented}
use pubky_marketplace_servic.Auctions.Ranking.Laws.{is_ranked, ranked_bidder_maximums_ranks}
use pubky_marketplace_servic.Auctions.Ranking.Pricing.{visible_amount_second_price}
use pubky_marketplace_servic.Auctions.Bidding.{PlaceBidPayload, place_bid}
use pubky_marketplace_servic.Examples.Samples.{empty_db, lamp}

abbrev usd : ℕ → Money
usd amount_minor = record { amount_minor = amount_minor; currency = "USD"; exponent = 2 }

abbrev bid : String → String → ℕ → ℕ → BidRow
bid id bidder maximum sequence = record {
  id = id;
  listing_aggregate_id = "listing:sam/lamp";
  bidder_pubky = bidder;
  maximum_amount_minor = maximum;
  currency = "USD";
  exponent = 2;
  sequence = sequence;
  created_at = 40;
  visible_amount_minor = none;
}

abbrev three_bids : List BidRow
three_bids = bid "b1" "ann" 800 1 ∷ bid "b2" "bob" 1000 2 ∷ bid "b3" "ann" 1000 3 ∷ []

ranked_bidder_maximums_ranks_example :
    (is_ranked (ranked_bidder_maximums three_bids) ≡ true)
    × (is_distinct (ranked_bidder_maximums three_bids) ≡ true)
    × (all (represented (ranked_bidder_maximums three_bids)) three_bids ≡ true)
ranked_bidder_maximums_ranks_example = ranked_bidder_maximums_ranks three_bids

visible_amount_second_price_example :
    (visible_amount 700 50 (bid "b2" "bob" 1000 2) (bid "b3" "ann" 1000 3 ∷ []) ≤ 1000)
    × (visible_amount 700 50 (bid "b2" "bob" 1000 2) (bid "b3" "ann" 1000 3 ∷ []) ≤ 1050)
    × ((visible_amount 700 50 (bid "b2" "bob" 1000 2) (bid "b3" "ann" 1000 3 ∷ []) ≡ 1000)
        ⊎ (visible_amount 700 50 (bid "b2" "bob" 1000 2) (bid "b3" "ann" 1000 3 ∷ []) ≡ 1050))
    × (all
          (λ b.
            b.bidder_pubky == "bob"
            || leb b.maximum_amount_minor
                (visible_amount 700 50 (bid "b2" "bob" 1000 2) (bid "b3" "ann" 1000 3 ∷ [])))
          three_bids
        ≡ true)
unfolding ranked_bidder_maximums absorb_all absorb sort_ranked insert_ranked outranks
visible_amount_second_price_example =
    visible_amount_second_price three_bids (bid "b2" "bob" 1000 2) 700 50 (bid "b3" "ann" 1000 3) []
      refl

abbrev auction : AuctionState
auction = record {
  starts_at = 0;
  ends_at = 900000000;
  minimum_increment = usd 50;
  anti_sniping_window_seconds = 60;
  anti_sniping_extension_seconds = 120;
  status = "active";
  current_price = usd 1000;
  leader_pubky = some "bob";
  bid_count = 3;
}

abbrev auction_lamp : ListingRow
auction_lamp = record lamp { sale_format = "auction"; auction = some auction }

abbrev auction_db : Db
auction_db = record empty_db {
  listings = write empty_db.listings "listing:sam/lamp" auction_lamp;
  auction_reserves = write empty_db.auction_reserves "listing:sam/lamp" (record {
    listing_aggregate_id = "listing:sam/lamp";
    listing_revision = 1;
    reserve_price = none;
  });
  bids = three_bids;
}

abbrev command : Command
command = record { command_id = "b4"; aggregate_id = "listing:sam/lamp"; expected_revision = 4 }

abbrev payload : PlaceBidPayload
payload = record { maximum_amount = usd 1500 }

abbrev bid_run : Outcome HandlerSuccess
bid_run = place_bid "cid" command payload 500 auction_db
