-- ===== src/Auctions/Bidding/Settlement.antt =====
-- crates/service/src/handlers/auction.rs: the last part of a bid, from its price on.
use Prim.Native.String.{◌++◌ as text_append}
use pubky_marketplace_servic.Prelude.{
  ℕ, String, Option, none, some, List, [], ◌∷◌, ◌++◌, ◌==◌, string_key, nat_key, ◌&&◌, not, ◌≡◌,
  ◌+◌, ◌-◌, ◌≤◌, ◌<◌, suc, refl, inl, inr, map, write, arith, Bool-cases,
}
use pubky_marketplace_servic.Store.{
  AuctionState, ListingRow, BidRow, EventRow, OutboxRow, Db, Command, done,
}
use pubky_marketplace_servic.Domain.Money.{Money}
use pubky_marketplace_servic.Inventory.Holds.{seconds}
use pubky_marketplace_servic.Orders.Action.{HandlerSuccess}
use pubky_marketplace_servic.Auctions.Ranking.{visible_amount}
use pubky_marketplace_servic.Auctions.Bidding.{
  set_visible, bid_upon, auction_updated, notify_outbid, settle_bid, listing_price,
}

-- What the ranking settles: the leader, the visible price and one event with the new revision.
pub record Settled (actor : String) (c : Command) (l : ListingRow) (a : AuctionState)
    (bid leader : BidRow) (others : List BidRow) (now : ℕ) (db db' : Db) (s : HandlerSuccess)
    : Type 0 where
  pub visible : ℕ
  pub price :
      visible
      ≡ visible_amount l.unit_price_amount_minor a.minimum_increment.amount_minor leader others
  pub leads : (bid_upon a leader.bidder_pubky visible now).leader_pubky ≡ some leader.bidder_pubky
  pub priced : (bid_upon a leader.bidder_pubky visible now).current_price.amount_minor ≡ visible
  pub counted : (bid_upon a leader.bidder_pubky visible now).bid_count ≡ a.bid_count + 1
  pub extended :
      0 < a.anti_sniping_window_seconds
      → a.ends_at - now ≤ seconds a.anti_sniping_window_seconds
      → (bid_upon a leader.bidder_pubky visible now).ends_at
        ≡ now + seconds a.anti_sniping_extension_seconds
  pub stored :
      db'.listings
      ≡ write db.listings l.aggregate_id
          (auction_updated (bid_upon a leader.bidder_pubky visible now) now l)
  pub shown : db'.bids ≡ map (set_visible bid.id visible) db.bids
  pub reported : s.revision ≡ l.server_revision + 1
  pub event : EventRow
  pub logged : db'.events ≡ db.events ++ event ∷ []
  pub event_kind : event.kind ≡ "auction.bid_placed"
  pub event_revision : event.revision ≡ l.server_revision + 1
  pub same_orders : db'.orders ≡ db.orders

-- The outbid notice never fails, and writes the outbox alone.
notify_outbid_done :
    (previous : Option String) (leader actor id event_id : String) (price : Money) (now : ℕ)
    (db : Db)
    → (rows : List OutboxRow) × (notify_outbid previous leader actor id event_id price now db
        ≡ done tt (record db { outbox = rows }))
unfolding notify_outbid
notify_outbid_done none leader actor id event_id price now db = (db.outbox, refl)
notify_outbid_done (some previous) leader actor id event_id price now db =
    elim (Bool-cases (not (previous == leader) && not (previous == actor))) [
      | inl displaced ↦ (
        db.outbox
            ++ record {
              event_id = event_id;
              kind = text_append "notification." "outbid";
              recipient_pubky = previous;
              actor_pubky = actor;
              aggregate_id = id;
              amount = some price;
              created_at = now;
            }
              ∷ [],
        ground arith,
      )
      | inr unmoved ↦ (db.outbox, ground arith)
    ]

pub settle_bid-Settled :
    (actor : String) (c : Command) (l : ListingRow) (a : AuctionState) (bid leader : BidRow)
    (others : List BidRow) (now : ℕ) (db db' : Db) (s : HandlerSuccess)
    → db.listings l.aggregate_id ≡ some l
    → settle_bid actor c l a bid (leader ∷ others) now db ≡ done s db'
    → Settled actor c l a bid leader others now db db' s
unfolding settle_bid auction_updated bid_upon listing_price
settle_bid-Settled actor c l a bid leader others now db db' s found h =
    let (rows, told) =
      notify_outbid_done a.leader_pubky leader.bidder_pubky actor l.aggregate_id (db.uuids db.drawn)
        (listing_price l visible) now after_event in
    record {
      visible = visible;
      price = refl;
      leads = refl;
      priced = refl;
      counted = refl;
      extended = λ some_window close_to_end. ground arith;
      stored = ground arith;
      shown = ground arith;
      reported = ground arith;
      event = event;
      logged = ground arith;
      event_kind = refl;
      event_revision = refl;
      same_orders = ground arith;
    }
  where
    visible : ℕ
    visible =
        visible_amount l.unit_price_amount_minor a.minimum_increment.amount_minor leader others

    event : EventRow
    event = record {
      id = db.uuids db.drawn;
      command_id = c.command_id;
      aggregate_id = l.aggregate_id;
      revision = l.server_revision + 1;
      actor_pubky = actor;
      kind = "auction.bid_placed";
      occurred_at = now;
    }

    after_event : Db
    after_event = record db {
      bids = map (set_visible bid.id visible) db.bids;
      listings =
          write db.listings l.aggregate_id
            (auction_updated (bid_upon a leader.bidder_pubky visible now) now l);
      drawn = suc db.drawn;
      events = db.events ++ event ∷ [];
    }
