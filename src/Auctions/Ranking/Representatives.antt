-- ===== src/Auctions/Ranking/Representatives.antt =====
-- crates/service/src/handlers/auction.rs: the loop of `ranked_bidder_maximums`.
use pubky_marketplace_servic.Prelude.{
  String, Bool, true, false, List, [], ◌∷◌, ◌==◌, string_key, nat_key, ◌&&◌, not, ◌≡◌, any, all,
  Bool-cases, eq_iff, arith, refl, ap, inl, inr,
}
use pubky_marketplace_servic.Store.{BidRow}
use pubky_marketplace_servic.Auctions.Ranking.{outranks, absorb, absorb_all}

-- The bid's bidder is represented by a bid that is no worse.
abbrev pub represented : List BidRow → BidRow → Bool
represented latest bid =
    any (λ r. r.bidder_pubky == bid.bidder_pubky && not (outranks bid r)) latest

-- No two bids of the list are one bidder's.
abbrev pub is_distinct : List BidRow → Bool
is_distinct [] = true
is_distinct (bid ∷ bids) =
    all (λ r. not (r.bidder_pubky == bid.bidder_pubky)) bids && is_distinct bids

pub outranks_trans :
    (a b c : BidRow) → outranks a b ≡ false → outranks b c ≡ false → outranks a c ≡ false
unfolding outranks
outranks_trans a b c h k = ground arith

pub outranks_asym : (a b : BidRow) → outranks a b ≡ true → outranks b a ≡ false
unfolding outranks
outranks_asym a b h = ground arith

pub outranks_self : (a : BidRow) → outranks a a ≡ false
unfolding outranks
outranks_self a = ground arith

absorb-represented_new :
    (latest : List BidRow) (bid : BidRow) → represented (absorb latest bid) bid ≡ true
unfolding absorb
absorb-represented_new [] bid =
    ground (arith, eq_iff bid.bidder_pubky bid.bidder_pubky, outranks_self bid)
absorb-represented_new (current ∷ latest) bid =
    elim (Bool-cases (current.bidder_pubky == bid.bidder_pubky)) [
      | inl same ↦ elim (Bool-cases (outranks bid current)) [
        | inl better ↦ ground (arith, eq_iff bid.bidder_pubky bid.bidder_pubky, outranks_self bid)
        | inr worse ↦ ground arith
      ]
      | inr differ ↦ ground (arith, absorb-represented_new latest bid)
    ]

-- What a bidder's bid was represented by may only improve.
absorb-represented :
    (latest : List BidRow) (x bid : BidRow)
    → represented latest bid ≡ true
    → represented (absorb latest x) bid ≡ true
unfolding absorb
absorb-represented (current ∷ latest) x bid h =
    elim (Bool-cases (current.bidder_pubky == x.bidder_pubky)) [
      | inl same ↦ elim (Bool-cases (outranks x current)) [
        | inl better ↦ ground (
          arith,
          eq_iff current.bidder_pubky x.bidder_pubky,
          outranks_trans bid current x,
          outranks_asym x current better,
        )
        | inr worse ↦ ground arith
      ]
      | inr differ ↦ ground (arith, absorb-represented latest x bid)
    ]
absorb-represented [] x bid h = absurd (ground arith)

absorb-all-represented :
    (latest seen : List BidRow) (x : BidRow)
    → all (represented latest) seen ≡ true
    → all (represented (absorb latest x)) seen ≡ true
absorb-all-represented latest [] x h = refl
absorb-all-represented latest (b ∷ seen) x h =
    ground (arith, absorb-represented latest x b, absorb-all-represented latest seen x)

absorb_all-represented :
    (latest bids : List BidRow) (b : BidRow)
    → represented latest b ≡ true
    → represented (absorb_all latest bids) b ≡ true
unfolding absorb_all
absorb_all-represented latest [] b h = h
absorb_all-represented latest (x ∷ bids) b h =
    absorb_all-represented (absorb latest x) bids b (absorb-represented latest x b h)

pub absorb_all-covers :
    (latest bids : List BidRow) → all (represented (absorb_all latest bids)) bids ≡ true
unfolding absorb_all
absorb_all-covers latest [] = refl
absorb_all-covers latest (x ∷ bids) = ground (
  arith,
  absorb_all-represented (absorb latest x) bids x (absorb-represented_new latest x),
  absorb_all-covers (absorb latest x) bids,
)

absorb-other :
    (s : String) (latest : List BidRow) (x : BidRow)
    → all (λ r. not (r.bidder_pubky == s)) latest ≡ true
    → (x.bidder_pubky == s) ≡ false
    → all (λ r. not (r.bidder_pubky == s)) (absorb latest x) ≡ true
unfolding absorb
absorb-other s [] x h k = ground arith
absorb-other s (current ∷ latest) x h k = ground (arith, absorb-other s latest x)

absorb-distinct :
    (latest : List BidRow) (x : BidRow)
    → is_distinct latest ≡ true
    → is_distinct (absorb latest x) ≡ true
unfolding absorb
absorb-distinct [] x h = refl
absorb-distinct (current ∷ latest) x h =
    elim (Bool-cases (current.bidder_pubky == x.bidder_pubky)) [
      | inl same ↦ elim (Bool-cases (outranks x current)) [
        | inl better ↦ ground (
          arith,
          ap (λ s. all (λ r. not (r.bidder_pubky == s)) latest)
              ((eq_iff current.bidder_pubky x.bidder_pubky).0 same),
        )
        | inr worse ↦ ground arith
      ]
      | inr differ ↦ ground (
        arith,
        absorb-distinct latest x,
        absorb-other current.bidder_pubky latest x,
        eq_iff current.bidder_pubky x.bidder_pubky,
        eq_iff x.bidder_pubky current.bidder_pubky,
      )
    ]

pub absorb_all-distinct :
    (latest bids : List BidRow)
    → is_distinct latest ≡ true
    → is_distinct (absorb_all latest bids) ≡ true
unfolding absorb_all
absorb_all-distinct latest [] h = h
absorb_all-distinct latest (x ∷ bids) h =
    absorb_all-distinct (absorb latest x) bids (absorb-distinct latest x h)
