-- ===== src/Auctions/Ranking/Laws.antt =====
-- crates/service/src/handlers/auction.rs: the sort of `ranked_bidder_maximums`, and the whole of it.
use pubky_marketplace_servic.Prelude.{
  Bool, true, List, [], ◌∷◌, ◌==◌, string_key, nat_key, ◌&&◌, ◌||◌, not, ◌≡◌, any, all, Bool-cases,
  eq_iff, arith, refl, ◌∙◌, inl, inr,
}
use pubky_marketplace_servic.Store.{BidRow}
use pubky_marketplace_servic.Auctions.Ranking.{
  outranks, absorb_all, insert_ranked, sort_ranked, ranked_bidder_maximums,
}
use pubky_marketplace_servic.Auctions.Ranking.Representatives.{
  represented, is_distinct, outranks_trans, outranks_asym, absorb_all-covers, absorb_all-distinct,
}

-- No later bid of the list outranks an earlier one.
abbrev pub is_ranked : List BidRow → Bool
is_ranked [] = true
is_ranked (bid ∷ bids) = all (λ r. not (outranks r bid)) bids && is_ranked bids

all-insert :
    (p : BidRow → Bool) (x : BidRow) (bids : List BidRow)
    → all p (insert_ranked x bids) ≡ (p x && all p bids)
unfolding insert_ranked
all-insert p x [] = ground arith
all-insert p x (y ∷ bids) = elim (Bool-cases (outranks y x)) [
  | inl before ↦ ground (arith, all-insert p x bids)
  | inr after ↦ ground arith
]

all-sort : (p : BidRow → Bool) (bids : List BidRow) → all p (sort_ranked bids) ≡ all p bids
unfolding sort_ranked
all-sort p [] = refl
all-sort p (x ∷ bids) = ground (arith, all-insert p x (sort_ranked bids), all-sort p bids)

any-insert :
    (p : BidRow → Bool) (x : BidRow) (bids : List BidRow)
    → any p (insert_ranked x bids) ≡ (p x || any p bids)
unfolding insert_ranked
any-insert p x [] = ground arith
any-insert p x (y ∷ bids) = elim (Bool-cases (outranks y x)) [
  | inl before ↦ ground (arith, any-insert p x bids)
  | inr after ↦ ground arith
]

any-sort : (p : BidRow → Bool) (bids : List BidRow) → any p (sort_ranked bids) ≡ any p bids
unfolding sort_ranked
any-sort p [] = refl
any-sort p (x ∷ bids) = ground (arith, any-insert p x (sort_ranked bids), any-sort p bids)

pub all_weaken :
    (p q : BidRow → Bool) (bids : List BidRow)
    → ((x : BidRow) → p x ≡ true → q x ≡ true)
    → all p bids ≡ true
    → all q bids ≡ true
all_weaken p q [] w h = refl
all_weaken p q (x ∷ bids) w h = ground (arith, w x, all_weaken p q bids w)

insert-ranked :
    (x : BidRow) (bids : List BidRow)
    → is_ranked bids ≡ true
    → is_ranked (insert_ranked x bids) ≡ true
unfolding insert_ranked
insert-ranked x [] h = refl
insert-ranked x (y ∷ bids) h = elim (Bool-cases (outranks y x)) [
  | inl before ↦ ground (
    arith,
    insert-ranked x bids,
    all-insert (λ r. not (outranks r y)) x bids,
    outranks_asym y x before,
  )
  | inr after ↦ ground (
    arith,
    all_weaken (λ r. not (outranks r y)) (λ r. not (outranks r x)) bids
        (λ r k. ground (arith, outranks_trans r y x)),
  )
]

sort-ranked : (bids : List BidRow) → is_ranked (sort_ranked bids) ≡ true
unfolding sort_ranked
sort-ranked [] = refl
sort-ranked (x ∷ bids) = insert-ranked x (sort_ranked bids) (sort-ranked bids)

insert-distinct :
    (x : BidRow) (bids : List BidRow)
    → all (λ r. not (r.bidder_pubky == x.bidder_pubky)) bids ≡ true
    → is_distinct bids ≡ true
    → is_distinct (insert_ranked x bids) ≡ true
unfolding insert_ranked
insert-distinct x [] h k = refl
insert-distinct x (y ∷ bids) h k = elim (Bool-cases (outranks y x)) [
  | inl before ↦ ground (
    arith,
    insert-distinct x bids,
    all-insert (λ r. not (r.bidder_pubky == y.bidder_pubky)) x bids,
    eq_iff y.bidder_pubky x.bidder_pubky,
    eq_iff x.bidder_pubky y.bidder_pubky,
  )
  | inr after ↦ ground arith
]

sort-distinct :
    (bids : List BidRow) → is_distinct bids ≡ true → is_distinct (sort_ranked bids) ≡ true
unfolding sort_ranked
sort-distinct [] h = refl
sort-distinct (x ∷ bids) h =
    insert-distinct x (sort_ranked bids)
      (ground (arith, all-sort (λ r. not (r.bidder_pubky == x.bidder_pubky)) bids))
      (sort-distinct bids (ground arith))

all_same :
    (p q : BidRow → Bool) (bids : List BidRow)
    → ((x : BidRow) → p x ≡ q x)
    → all p bids ≡ all q bids
all_same p q [] e = refl
all_same p q (x ∷ bids) e = ground (arith, e x, all_same p q bids e)

-- For every list of bids the ranking is in order, by maximum downwards and then by the earliest
-- accepted sequence, it has each bidder once, and it represents every bid by a bid of the same
-- bidder that is no worse.
pub ranked_bidder_maximums_ranks :
    (bids : List BidRow)
    → (is_ranked (ranked_bidder_maximums bids) ≡ true)
      × (is_distinct (ranked_bidder_maximums bids) ≡ true)
      × (all (represented (ranked_bidder_maximums bids)) bids ≡ true)
unfolding ranked_bidder_maximums
ranked_bidder_maximums_ranks bids =
    let latest = absorb_all [] bids in
    (
      sort-ranked latest,
      sort-distinct latest (absorb_all-distinct [] bids refl),
      all_same (represented (sort_ranked latest)) (represented latest) bids
            (λ b. any-sort (λ r. r.bidder_pubky == b.bidder_pubky && not (outranks b r)) latest)
          ∙ absorb_all-covers [] bids,
    )
