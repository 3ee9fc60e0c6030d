-- ===== src/Examples/Closing.antt =====
-- An auction that its seller closes sold to the leading bidder, and a second close.
use pubky_marketplace_servic.Prelude.{
  ℕ, true, some, ◌∷◌, [], ◌≡◌, ◌≤◌, refl, write, string_key, arith, eq_iff,
}
use pubky_marketplace_servic.Domain.Money.{Money}
use pubky_marketplace_servic.Store.{
  clashes, AuctionState, ListingRow, BidRow, AuctionReserveRow, Db, Command, Outcome, is_refused,
  format_timestamp, insert_event, insert_notification_intent, failure, failure_with_revision,
  put_event,
}
use pubky_marketplace_servic.Orders.Action.{HandlerSuccess}
use pubky_marketplace_servic.Inventory.Listings.{IsKeyed}
use pubky_marketplace_servic.Auctions.Awarding.{
  award_winner, award, open_order, announce_order, auction_hold_seconds, insert_order,
  insert_payment, winning_reservation, won_order, won_payment, indexed, is_won,
}
use pubky_marketplace_servic.Auctions.Closing.{
  close, active_auction, close_locked_auction, reserve_satisfied, settle_close, close_listing,
  winner_of, publish_close, notify_ended, distinct_bidders, insert_bidder, tell_ended,
  closed_auction, closed_listing, consistent, guard_close, is_open,
}
use pubky_marketplace_servic.Auctions.Closing.Laws.{Closed, close-Closed}
use pubky_marketplace_servic.Auctions.Closing.Once.{close_once}
use pubky_marketplace_servic.Examples.Samples.{empty_db, lamp, rows, success}
use pubky_marketplace_servic.Auctions.Bidding.{parse_auction, auction_updated, to_value}
use pubky_marketplace_servic.Inventory.Reservations.{insert_reservation}
use pubky_marketplace_servic.Domain.Ids.{order_aggregate_id}
use pubky_marketplace_servic.Inventory.Holds.{is_deleted}

abbrev price : ℕ → Money
price amount_minor = record { amount_minor = amount_minor; currency = "USD"; exponent = 2 }

abbrev ended : AuctionState
ended = record {
  starts_at = 0;
  ends_at = 900000000;
  minimum_increment = price 50;
  anti_sniping_window_seconds = 60;
  anti_sniping_extension_seconds = 120;
  status = "active";
  current_price = price 1000;
  leader_pubky = some "bob";
  bid_count = 1;
}

abbrev only_bid : BidRow
only_bid = record {
  id = "b1";
  listing_aggregate_id = "listing:sam/lamp";
  bidder_pubky = "bob";
  maximum_amount_minor = 1200;
  currency = "USD";
  exponent = 2;
  sequence = 1;
  created_at = 40;
  visible_amount_minor = some 1000;
}

abbrev ended_db : Db
ended_db = record empty_db {
  listings =
      write empty_db.listings "listing:sam/lamp"
        (record lamp { sale_format = "auction"; auction = some ended });
  auction_reserves = write empty_db.auction_reserves "listing:sam/lamp" (record {
    listing_aggregate_id = "listing:sam/lamp";
    listing_revision = 1;
    reserve_price = some (price 900);
  });
  bids = only_bid ∷ [];
}

ended_db-IsKeyed : IsKeyed ended_db
ended_db-IsKeyed k l found = ground (arith, eq_iff k "listing:sam/lamp")

abbrev close_command : Command
close_command = record {
  command_id = "c7";
  aggregate_id = "listing:sam/lamp";
  expected_revision = 4;
}

abbrev close_run : Outcome HandlerSuccess
close_run = close "sam" close_command 900000001 ended_db

close-Closed_example :
    (l : ListingRow) × (a : AuctionState) × (reserve : AuctionReserveRow) × (ended_db.listings
        "listing:sam/lamp"
      ≡ some l)
    × (l.seller_pubky ≡ "sam")
    × (active_auction l ≡ some a)
    × (4 ≡ l.server_revision)
    × (a.ends_at ≤ 900000001)
    × (ended_db.auction_reserves l.aggregate_id ≡ some reserve)
    × Closed close_command l a reserve 900000001 ended_db (rows close_run)
unfolding clashes close active_auction parse_auction close_locked_auction reserve_satisfied
    settle_close close_listing winner_of publish_close award_winner award insert_reservation
    open_order order_aggregate_id notify_ended distinct_bidders insert_bidder announce_order
    auction_hold_seconds indexed insert_order insert_payment is_won winning_reservation won_order
    won_payment auction_updated to_value closed_auction closed_listing consistent guard_close
    is_open tell_ended is_deleted format_timestamp insert_event insert_notification_intent put_event
    failure failure_with_revision
close-Closed_example =
    close-Closed "sam" close_command 900000001 ended_db (rows close_run) (success close_run)
      ended_db-IsKeyed refl

close_once_example : is_refused (close "sam" close_command 900000002 (rows close_run)) ≡ true
unfolding clashes close active_auction parse_auction close_locked_auction reserve_satisfied
    settle_close close_listing winner_of publish_close award_winner award insert_reservation
    open_order order_aggregate_id notify_ended distinct_bidders insert_bidder tell_ended
close_once_example =
    close_once "sam" "sam" close_command close_command 900000001 900000002 ended_db (rows close_run)
      (success close_run) ended_db-IsKeyed refl refl
