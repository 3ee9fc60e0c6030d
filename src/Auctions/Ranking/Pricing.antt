-- ===== src/Auctions/Ranking/Pricing.antt =====
-- crates/service/src/handlers/auction.rs: the leader and the visible price, against all the bids.
use pubky_marketplace_servic.Prelude.{
  ℕ, Bool, true, false, List, ◌∷◌, ◌==◌, string_key, ◌&&◌, ◌||◌, not, ◌≡◌, ◌≤◌, ◌+◌, leb, all,
  any-all, eq_iff, arith, sym, ap, ◌∙◌, min, ◌⊎◌, inl, inr, Bool-cases,
}
use pubky_marketplace_servic.Store.{BidRow}
use pubky_marketplace_servic.Auctions.Ranking.{outranks, ranked_bidder_maximums, visible_amount}
use pubky_marketplace_servic.Auctions.Ranking.Representatives.{
  represented, outranks_trans, outranks_self,
}
use pubky_marketplace_servic.Auctions.Ranking.Laws.{
  is_ranked, all_weaken, ranked_bidder_maximums_ranks,
}

represented-bounded :
    (ranked : List BidRow) (q : BidRow → Bool) (b : BidRow)
    → all q ranked ≡ true
    → represented ranked b ≡ true
    → (r : BidRow) × (r.bidder_pubky ≡ b.bidder_pubky) × (outranks b r ≡ false) × (q r ≡ true)
represented-bounded ranked q b h k =
    let (r, hit, ok) =
      any-all (λ r. r.bidder_pubky == b.bidder_pubky && not (outranks b r)) q ranked k h in
    (r, ground (arith, eq_iff r.bidder_pubky b.bidder_pubky), ground arith, ok)

min-either : (a b : ℕ) → (min a b ≡ a) ⊎ (min a b ≡ b)
min-either a b = elim (Bool-cases (leb a b)) [
  | inl low ↦ inl (ground arith)
  | inr high ↦ inr (ground arith)
]

module _ (bids : List BidRow) (leader : BidRow) where
  -- The first bid of the ranking is outranked by no bid at all.
  pub leader_is_best :
      (others : List BidRow)
      → ranked_bidder_maximums bids ≡ leader ∷ others
      → all (λ b. not (outranks b leader)) bids ≡ true
  leader_is_best others e =
      let (ranked, distinct, covers) = ranked_bidder_maximums_ranks bids in
      let head : all (λ r. not (outranks r leader)) (leader ∷ others) ≡ true =
        ground (arith, ap is_ranked e, outranks_self leader) in
      all_weaken (represented (ranked_bidder_maximums bids)) (λ b. not (outranks b leader)) bids
        (λ b h.
          let (r, same, worse, best) =
            represented-bounded (ranked_bidder_maximums bids) (λ r. not (outranks r leader)) b
              (ap (all (λ r. not (outranks r leader))) e ∙ head) h in
          ground (arith, outranks_trans b r leader))
        covers

  -- With two bidders or more, the visible price is the least of the leader's maximum and an
  -- increment over the runner-up's, so the leader never pays more than its own maximum, and the
  -- price is at least the maximum of every bid of every other bidder.
  pub visible_amount_second_price :
      (unit_price_amount_minor minimum_increment_minor : ℕ) (runner_up : BidRow)
      (others : List BidRow)
      → ranked_bidder_maximums bids ≡ leader ∷ runner_up ∷ others
      → let price =
          visible_amount unit_price_amount_minor minimum_increment_minor leader
            (runner_up ∷ others) in
        (price ≤ leader.maximum_amount_minor)
        × (price ≤ runner_up.maximum_amount_minor + minimum_increment_minor)
        × ((price ≡ leader.maximum_amount_minor)
            ⊎ (price ≡ runner_up.maximum_amount_minor + minimum_increment_minor))
        × (all (λ b. b.bidder_pubky == leader.bidder_pubky || leb b.maximum_amount_minor price) bids
            ≡ true)
  unfolding visible_amount outranks
  visible_amount_second_price unit_price_amount_minor minimum_increment_minor runner_up others e =
      let price =
        min leader.maximum_amount_minor
          (runner_up.maximum_amount_minor + minimum_increment_minor) in
      let (ranked, distinct, covers) = ranked_bidder_maximums_ranks bids in
      let tested : BidRow → Bool =
        λ r. r.bidder_pubky == leader.bidder_pubky || not (outranks r runner_up) in
      let in_order : is_ranked (leader ∷ runner_up ∷ others) ≡ true =
        sym (ap is_ranked e) ∙ ranked in
      let tail : all tested (leader ∷ runner_up ∷ others) ≡ true = ground (
        arith,
        eq_iff leader.bidder_pubky leader.bidder_pubky,
        outranks_self runner_up,
        all_weaken (λ r. not (outranks r runner_up)) tested others (λ r h. ground arith),
      ) in
      (
        omega arith,
        omega arith,
        min-either leader.maximum_amount_minor
            (runner_up.maximum_amount_minor + minimum_increment_minor),
        all_weaken (represented (ranked_bidder_maximums bids))
            (λ b. b.bidder_pubky == leader.bidder_pubky || leb b.maximum_amount_minor price) bids
            (λ b h.
              let (r, same, worse, ok) =
                represented-bounded (ranked_bidder_maximums bids) tested b
                  (ap (all tested) e ∙ tail) h in
              ground (arith, outranks_trans b r runner_up, ap (λ s. s == leader.bidder_pubky) same))
            covers,
      )
