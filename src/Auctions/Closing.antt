-- ===== src/Auctions/Closing.antt =====
-- crates/service/src/handlers/auction.rs: `auction.close`.
pub mod Award
pub mod Laws
pub mod Once
use pubky_marketplace_servic.Prelude.{
  ℕ, String, Bool, true, false, Option, none, some, List, [], ◌∷◌, ◌==◌, string_key, nat_key, ◌&&◌,
  not, if◌then◌else◌, leb, ltb, ◌+◌, ◌-◌, write, is_some, contains,
}
use pubky_marketplace_servic.Domain.ErrorCode.{ErrorCode}
use pubky_marketplace_servic.Store.{
  AuctionState, ListingRow, BidRow, AuctionReserveRow, Tx, RefusalKind, failure,
  failure_with_revision, done, fault, row_not_found, constraint, protocol, ◌>>=◌, ◌>>◌, pure,
  refuse_if, some_or, fail, gets, Command, insert_event, insert_notification_intent,
}
use pubky_marketplace_servic.Orders.Action.{HandlerSuccess}
use pubky_marketplace_servic.Inventory.Holds.{is_deleted}
use pubky_marketplace_servic.Auctions.Bidding.{parse_auction, auction_updated}
use pubky_marketplace_servic.Auctions.Awarding.{award_winner}

-- The reserve must be of the listing's revision and every price in the listing's asset.
unfoldable pub consistent : ListingRow → AuctionState → AuctionReserveRow → Bool
consistent listing auction reserve =
    reserve.listing_aggregate_id == listing.aggregate_id
    && reserve.listing_revision == listing.listing_revision
    && auction.current_price.currency == listing.unit_price_currency
    && auction.current_price.exponent == listing.unit_price_exponent
    && auction.minimum_increment.currency == listing.unit_price_currency
    && auction.minimum_increment.exponent == listing.unit_price_exponent

unfoldable pub reserve_satisfied : ListingRow → AuctionState → AuctionReserveRow → Tx Bool
unfolding consistent
reserve_satisfied listing auction reserve =
    if not (consistent listing auction reserve) then fail protocol else elim reserve.reserve_price [
      | none ↦ pure true
      | some price ↦
          if price.currency == listing.unit_price_currency
            && price.exponent == listing.unit_price_exponent
          then pure (leb price.amount_minor auction.current_price.amount_minor)
          else fail protocol
    ]

-- A deleted auction closes unsold.
unfoldable pub winner_of : ListingRow → AuctionState → Bool → Option String
unfolding is_deleted
winner_of listing auction satisfied =
    if satisfied && not (is_deleted listing) then auction.leader_pubky else none

unfoldable pub closed_auction : Bool → AuctionState → AuctionState
closed_auction sold auction = record auction { status = if sold then "sold" else "unsold" }

unfoldable pub closed_listing : Bool → AuctionState → ℕ → ListingRow → ListingRow
closed_listing sold auction now row =
    record (auction_updated (closed_auction sold auction) now row) {
      state = if sold then "reserved" else "available";
      available_quantity = if sold then row.available_quantity - 1 else row.available_quantity;
      reserved_quantity = if sold then row.reserved_quantity + 1 else row.reserved_quantity;
    }

unfoldable pub is_open : ListingRow → Bool
is_open row = elim row.auction [ none ↦ false | some auction ↦ auction.status == "active" ]

-- `UPDATE listings SET … WHERE aggregate_id = $1 AND auction->>'status' = 'active'`, with the CHECK on
-- the available quantity.
unfoldable pub close_listing : String → Bool → AuctionState → ℕ → Tx ListingRow
unfolding is_open closed_listing
close_listing aggregate_id sold auction now db = elim (db.listings aggregate_id) [
  | none ↦ fault row_not_found
  | some row ↦
      if not (is_open row)
      then fault row_not_found
      else if sold && row.available_quantity == 0
      then fault constraint
      else done (closed_listing sold auction now row) (record db {
        listings = write db.listings aggregate_id (closed_listing sold auction now row);
      })
]

unfoldable pub insert_bidder : (String → String → Bool) → String → List String → List String
insert_bidder collates bidder [] = bidder ∷ []
insert_bidder collates bidder (other ∷ others) =
    let rest = insert_bidder collates bidder others in
    if collates bidder other then bidder ∷ other ∷ others else other ∷ rest

-- `SELECT DISTINCT bidder_pubky FROM bids WHERE listing_aggregate_id = $1 ORDER BY bidder_pubky`
unfoldable pub distinct_bidders : (String → String → Bool) → String → List BidRow → List String
distinct_bidders collates listing_aggregate_id [] = []
distinct_bidders collates listing_aggregate_id (bid ∷ bids) =
    let rest = distinct_bidders collates listing_aggregate_id bids in
    if bid.listing_aggregate_id == listing_aggregate_id && not (contains rest bid.bidder_pubky)
    then insert_bidder collates bid.bidder_pubky rest
    else rest

is_winner : Option String → String → Bool
is_winner none bidder = false
is_winner (some winner) bidder = winner == bidder

-- Every bidder but the winner hears that the auction ended.
unfoldable pub tell_ended :
    String → ListingRow → AuctionState → Option String → String → ℕ → String → Tx (Unit {0})
unfolding is_winner insert_notification_intent
tell_ended actor listing auction winner close_event_id now bidder =
    if is_winner winner bidder
    then pure tt
    else insert_notification_intent close_event_id "auction_ended" bidder actor listing.aggregate_id
        (some auction.current_price) now

unfoldable pub notify_ended :
    String → ListingRow → AuctionState → Option String → String → ℕ → List String → Tx (Unit {0})
notify_ended actor listing auction winner close_event_id now [] = pure tt
notify_ended actor listing auction winner close_event_id now (bidder ∷ bidders) =
    tell_ended actor listing auction winner close_event_id now bidder
    >> notify_ended actor listing auction winner close_event_id now bidders

-- The event, the winner's rows and the notifications.
unfoldable pub publish_close :
    String
    → Command
    → ListingRow
    → AuctionState
    → Option String
    → ℕ
    → ListingRow
    → Tx HandlerSuccess
unfolding insert_event
publish_close actor command listing auction winner now updated = do
  close_event_id ←
      insert_event command listing.aggregate_id updated.server_revision actor
        (if is_some winner then "auction.closed_sold" else "auction.closed_unsold") now
  order_event_ids ← award_winner actor command listing auction winner close_event_id now
  bidders ← gets (λ db. distinct_bidders db.collates listing.aggregate_id db.bids)
  notify_ended actor listing auction winner close_event_id now bidders
  pure (record { revision = updated.server_revision; event_ids = close_event_id ∷ order_event_ids })

unfoldable pub settle_close :
    String → Command → ListingRow → AuctionState → Option String → ℕ → Tx HandlerSuccess
settle_close actor command listing auction winner now =
    close_listing listing.aggregate_id (is_some winner) auction now
    >>= publish_close actor command listing auction winner now

unfoldable pub close_locked_auction :
    String → Command → ListingRow → AuctionState → ℕ → Tx HandlerSuccess
close_locked_auction actor command listing auction now db =
    elim (db.auction_reserves listing.aggregate_id) [
      | none ↦ fault protocol
      | some reserve ↦
          (reserve_satisfied listing auction reserve >>= λ satisfied.
          settle_close actor command listing auction (winner_of listing auction satisfied) now)
            db
    ]

unfoldable pub guard_close : Command → ListingRow → AuctionState → ℕ → Tx (Unit {0})
guard_close command listing auction now = do
  refuse_if (not (command.expected_revision == listing.server_revision)) (
      failure_with_revision RefusalKind.revision_conflict ErrorCode.revision_conflict
        "The auction revision is stale." listing.server_revision)
  refuse_if (ltb now auction.ends_at)
      (failure RefusalKind.auction_closed ErrorCode.auction_closed "The auction has not ended yet.")

unfoldable pub active_auction : ListingRow → Option AuctionState
active_auction listing = elim (parse_auction listing) [
  | none ↦ none
  | some auction ↦ if auction.status == "active" then some auction else none
]

unfoldable pub close : String → Command → ℕ → Tx HandlerSuccess
unfolding guard_close
close actor command now = do
  found ← gets (λ db. db.listings command.aggregate_id)
  listing ←
      some_or found
        (failure RefusalKind.not_found ErrorCode.not_found "The auction listing is not registered.")
  refuse_if (not (listing.seller_pubky == actor)) (
      failure RefusalKind.unauthorized ErrorCode.unauthorized
        "Only the seller may close this sandbox auction.")
  auction ←
      some_or (active_auction listing)
        (failure RefusalKind.invalid_state ErrorCode.invalid_state "The auction is not active.")
  guard_close command listing auction now
  close_locked_auction actor command listing auction now
