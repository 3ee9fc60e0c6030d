-- ===== src/Auctions/Ranking.antt =====
-- crates/service/src/handlers/auction.rs: the proxy ranking of the bids and the prices it gives.
pub mod Representatives
pub mod Laws
pub mod Pricing
use pubky_marketplace_servic.Prelude.{
  ℕ, String, Bool, Option, none, some, List, [], ◌∷◌, ◌==◌, string_key, nat_key, ◌&&◌, ◌||◌,
  if◌then◌else◌, ltb, ◌+◌, min, max,
}
use pubky_marketplace_servic.Store.{BidRow}

abbrev i64_max : ℕ
i64_max = 9223372036854775807

abbrev saturating_add : ℕ → ℕ → ℕ
saturating_add a b = min (a + b) i64_max

-- The lowest proxy maximum accepted for the bidder's next bid.
unfoldable pub personal_minimum_next_bid : ℕ → ℕ → ℕ → ℕ
personal_minimum_next_bid current_price_minor minimum_increment_minor bidder_previous_maximum =
    let visible_price_minimum = saturating_add current_price_minor minimum_increment_minor in
    if bidder_previous_maximum == 0
    then visible_price_minimum
    else max visible_price_minimum (saturating_add bidder_previous_maximum 1)

-- A higher maximum, or the same maximum accepted earlier.
unfoldable pub outranks : BidRow → BidRow → Bool
outranks bid current =
    ltb current.maximum_amount_minor bid.maximum_amount_minor
    || bid.maximum_amount_minor == current.maximum_amount_minor && ltb bid.sequence current.sequence

-- One turn of the loop: the bidder's representative bid is replaced by a better one, or the bidder
-- is new.
unfoldable pub absorb : List BidRow → BidRow → List BidRow
absorb [] bid = bid ∷ []
absorb (current ∷ latest) bid =
    let rest = absorb latest bid in
    if current.bidder_pubky == bid.bidder_pubky
    then (if outranks bid current then bid else current) ∷ latest
    else current ∷ rest

unfoldable pub absorb_all : List BidRow → List BidRow → List BidRow
absorb_all latest [] = latest
absorb_all latest (bid ∷ bids) = absorb_all (absorb latest bid) bids

-- `sort_by`: a stable sort, by maximum downwards and sequence upwards.
unfoldable pub insert_ranked : BidRow → List BidRow → List BidRow
insert_ranked bid [] = bid ∷ []
insert_ranked bid (other ∷ others) =
    let rest = insert_ranked bid others in
    if outranks other bid then other ∷ rest else bid ∷ other ∷ others

unfoldable pub sort_ranked : List BidRow → List BidRow
sort_ranked [] = []
sort_ranked (bid ∷ bids) = insert_ranked bid (sort_ranked bids)

unfoldable pub ranked_bidder_maximums : List BidRow → List BidRow
ranked_bidder_maximums bids = sort_ranked (absorb_all [] bids)

-- The visible price: the opening price for a sole bidder, otherwise an increment over the
-- runner-up, up to the leader's own maximum.
pub visible_amount : ℕ → ℕ → BidRow → List BidRow → ℕ
visible_amount unit_price_amount_minor minimum_increment_minor leader [] = unit_price_amount_minor
visible_amount unit_price_amount_minor minimum_increment_minor leader (runner_up ∷ others) =
    min leader.maximum_amount_minor (runner_up.maximum_amount_minor + minimum_increment_minor)
