-- ===== src/Auctions/Bidding.antt =====
-- crates/service/src/handlers/auction.rs: `auction.place_bid`.
pub mod Settlement
pub mod Laws
use pubky_marketplace_servic.Prelude.{
  ℕ, String, Bool, true, false, Option, none, some, List, [], ◌∷◌, ◌++◌, ◌==◌, string_key, nat_key,
  ◌&&◌, ◌||◌, not, if◌then◌else◌, leb, ltb, ◌+◌, ◌-◌, ◌*◌, ◌/◌, max, any, map, write,
}
use pubky_marketplace_servic.Domain.ErrorCode.{ErrorCode}
use pubky_marketplace_servic.Domain.Money.{Money, with_amount}
use pubky_marketplace_servic.Store.{
  AuctionState, ListingRow, BidRow, Db, Tx, RefusalKind, CommandFailure, failure,
  failure_with_revision, Outcome, done, refused, fault, row_not_found, constraint, unique_violation,
  panic, ◌>>=◌, ◌>>◌, pure, refuse_if, some_or, fail, gets, modify, Command, format_timestamp,
  insert_event, insert_notification_intent,
}
use pubky_marketplace_servic.Orders.Action.{HandlerSuccess}
use pubky_marketplace_servic.Inventory.Holds.{seconds}
use pubky_marketplace_servic.Inventory.Listings.{fetch_live_listing}
use pubky_marketplace_servic.Auctions.Ranking.{
  personal_minimum_next_bid, ranked_bidder_maximums, visible_amount,
}

pub record PlaceBidPayload : Type 0 where
  pub maximum_amount : Money

unfoldable pub parse_auction : ListingRow → Option AuctionState
parse_auction listing = if listing.sale_format == "auction" then listing.auction else none

-- `ORDER BY sequence`.
unfoldable pub insert_by_sequence : BidRow → List BidRow → List BidRow
insert_by_sequence bid [] = bid ∷ []
insert_by_sequence bid (other ∷ others) =
    let rest = insert_by_sequence bid others in
    if leb bid.sequence other.sequence then bid ∷ other ∷ others else other ∷ rest

-- `SELECT … FROM bids WHERE listing_aggregate_id = $1 ORDER BY sequence`
unfoldable pub fetch_bids : String → List BidRow → List BidRow
fetch_bids listing_aggregate_id [] = []
fetch_bids listing_aggregate_id (bid ∷ bids) =
    let rest = fetch_bids listing_aggregate_id bids in
    if bid.listing_aggregate_id == listing_aggregate_id then insert_by_sequence bid rest else rest

-- `filter(…).map(maximum_amount_minor).max().unwrap_or(0)`
unfoldable pub bidder_maximum : String → List BidRow → ℕ
bidder_maximum actor [] = 0
bidder_maximum actor (bid ∷ bids) =
    let rest = bidder_maximum actor bids in
    if bid.bidder_pubky == actor then max bid.maximum_amount_minor rest else rest

-- The row's keys and its CHECK on the maximum.
pub insert_bid : BidRow → Tx (Unit {0})
insert_bid bid db =
    if any
      (λ b.
        b.id == bid.id
        || b.listing_aggregate_id == bid.listing_aggregate_id && b.sequence == bid.sequence)
      db.bids
    then fault unique_violation
    else if bid.maximum_amount_minor == 0
    then fault constraint
    else done tt (record db { bids = db.bids ++ bid ∷ [] })

-- `UPDATE bids SET visible_amount_minor = $2 WHERE id = $1`
pub set_visible : String → ℕ → BidRow → BidRow
set_visible id visible_amount_minor bid =
    if bid.id == id then record bid { visible_amount_minor = some visible_amount_minor } else bid

show_bid : String → ℕ → Tx (Unit {0})
unfolding set_visible
show_bid id visible_amount_minor =
    modify λ db. record db { bids = map (set_visible id visible_amount_minor) db.bids }

unfoldable pub to_value : AuctionState → AuctionState
unfolding format_timestamp
to_value auction = record auction {
  starts_at = format_timestamp auction.starts_at;
  ends_at = format_timestamp auction.ends_at;
}

should_extend : AuctionState → ℕ → Bool
should_extend auction now =
    ltb 0 auction.anti_sniping_window_seconds
    && leb (auction.ends_at - now) (seconds auction.anti_sniping_window_seconds)

pub bid_upon : AuctionState → String → ℕ → ℕ → AuctionState
unfolding should_extend with_amount
bid_upon auction leader visible now = record auction {
  ends_at =
      if should_extend auction now
      then now + seconds auction.anti_sniping_extension_seconds
      else auction.ends_at;
  current_price = with_amount auction.current_price visible;
  leader_pubky = some leader;
  bid_count = auction.bid_count + 1;
}

-- `UPDATE listings SET server_revision = server_revision + 1, auction = $2, updated_at = $3 …`
unfoldable pub auction_updated : AuctionState → ℕ → ListingRow → ListingRow
unfolding to_value
auction_updated auction now listing = record listing {
  server_revision = listing.server_revision + 1;
  auction = some (to_value auction);
  updated_at = now;
}

update_listing : String → (ListingRow → ListingRow) → Tx ListingRow
update_listing aggregate_id set db = elim (db.listings aggregate_id) [
  | none ↦ fault row_not_found
  | some row ↦ done (set row) (record db { listings = write db.listings aggregate_id (set row) })
]

-- The displaced leader hears of the new visible price.
pub notify_outbid : Option String → String → String → String → String → Money → ℕ → Tx (Unit {0})
unfolding insert_notification_intent
notify_outbid none leader actor aggregate_id event_id price now = pure tt
notify_outbid (some previous_leader) leader actor aggregate_id event_id price now =
    if not (previous_leader == leader) && not (previous_leader == actor)
    then insert_notification_intent event_id "outbid" previous_leader actor aggregate_id
        (some price) now
    else pure tt

pub listing_price : ListingRow → ℕ → Money
listing_price listing amount_minor = record {
  amount_minor = amount_minor;
  currency = listing.unit_price_currency;
  exponent = listing.unit_price_exponent;
}

-- The part of the handler after the ranking: the accepted bid's price, its auction and its event.
pub settle_bid :
    String → Command → ListingRow → AuctionState → BidRow → List BidRow → ℕ → Tx HandlerSuccess
unfolding show_bid bid_upon auction_updated update_listing insert_event notify_outbid listing_price
settle_bid actor command listing auction bid [] now = fail panic
settle_bid actor command listing auction bid (leader ∷ others) now = do
  let visible =
      visible_amount listing.unit_price_amount_minor auction.minimum_increment.amount_minor leader
        others
  show_bid bid.id visible
  updated ←
      update_listing listing.aggregate_id
        (auction_updated (bid_upon auction leader.bidder_pubky visible now) now)
  event_id ←
      insert_event command listing.aggregate_id updated.server_revision actor "auction.bid_placed"
        now
  notify_outbid auction.leader_pubky leader.bidder_pubky actor listing.aggregate_id event_id
      (listing_price listing visible) now
  pure (record { revision = updated.server_revision; event_ids = event_id ∷ [] })

pub new_bid : String → Command → ListingRow → AuctionState → Money → ℕ → BidRow
new_bid actor command listing auction maximum_amount now = record {
  id = command.command_id;
  listing_aggregate_id = listing.aggregate_id;
  bidder_pubky = actor;
  maximum_amount_minor = maximum_amount.amount_minor;
  currency = maximum_amount.currency;
  exponent = maximum_amount.exponent;
  sequence = auction.bid_count + 1;
  created_at = now;
  visible_amount_minor = none;
}

not_open : CommandFailure
unfolding failure
not_open =
    failure RefusalKind.auction_closed ErrorCode.auction_closed
      "The auction is not open for bidding."

-- The guards that follow the listing and its auction, in their order.
pub guard_bid : Command → ListingRow → AuctionState → Money → ℕ → ℕ → Tx (Unit {0})
unfolding not_open
guard_bid command listing auction maximum_amount previous_maximum now = do
  refuse_if (not (auction.status == "active")) not_open
  refuse_if (not (command.expected_revision == listing.server_revision)) (
      failure_with_revision RefusalKind.revision_conflict ErrorCode.revision_conflict
        "The auction revision is stale." listing.server_revision)
  refuse_if (ltb now auction.starts_at || leb auction.ends_at now) not_open
  refuse_if
      (not (maximum_amount.currency == listing.unit_price_currency)
        || not (maximum_amount.exponent == listing.unit_price_exponent))
      (failure RefusalKind.bid_wrong_asset ErrorCode.invalid_command
        "Bid maximum must use the auction asset and exponent.")
  refuse_if
      (ltb maximum_amount.amount_minor (
        personal_minimum_next_bid auction.current_price.amount_minor
          auction.minimum_increment.amount_minor previous_maximum))
      (failure_with_revision RefusalKind.bid_too_low ErrorCode.bid_too_low
        "Bid maximum must meet the current visible price increment and exceed the prior maximum."
        listing.server_revision)

-- From the auction's guards on: the bid is checked, stored, ranked and settled.
unfoldable pub accept_bid :
    String → Command → ListingRow → AuctionState → Money → ℕ → Tx HandlerSuccess
unfolding guard_bid insert_bid new_bid settle_bid
accept_bid actor command listing auction maximum_amount now = do
  previous_bids ← gets (λ db. fetch_bids listing.aggregate_id db.bids)
  guard_bid command listing auction maximum_amount (bidder_maximum actor previous_bids) now
  let bid = new_bid actor command listing auction maximum_amount now
  insert_bid bid
  settle_bid actor command listing auction bid (ranked_bidder_maximums (previous_bids ++ bid ∷ []))
      now

unfoldable pub place_bid : String → Command → PlaceBidPayload → ℕ → Tx HandlerSuccess
unfolding fetch_live_listing parse_auction
place_bid actor command payload now = do
  fetched ← gets (fetch_live_listing command.aggregate_id)
  listing ← some_or fetched (
      failure RefusalKind.bid_listing_not_found ErrorCode.not_found
        "The auction listing is not registered.")
  refuse_if (listing.seller_pubky == actor) (
      failure RefusalKind.bid_seller_forbidden ErrorCode.unauthorized
        "A seller cannot bid on their own auction.")
  auction ← some_or (parse_auction listing) (
      failure RefusalKind.bid_not_auction ErrorCode.invalid_state "This listing is not an auction.")
  reserve ← gets (λ db. db.auction_reserves command.aggregate_id)
  some_or reserve (
      failure RefusalKind.invariant_violation ErrorCode.invariant_violation
        "The auction reserve authority is missing.")
  accept_bid actor command listing auction payload.maximum_amount now
