-- ===== src/Drops/Binding.antt =====
-- crates/service/src/handlers/drops.rs: the drop that a listing is bound to.
use pubky_marketplace_servic.Prelude.{
  String, Bool, Option, none, some, List, [], ◌∷◌, ◌==◌, string_key, nat_key, ◌&&◌, ◌||◌, not,
  if◌then◌else◌, ltb,
}
use pubky_marketplace_servic.Domain.Ids.{listing_aggregate_id}
use pubky_marketplace_servic.Store.{DropRow, DropListingRow, Db}

pub record Binding : Type 0 where
  pub active : Bool
  pub drop : DropRow

-- `ORDER BY dl.active DESC, d.updated_at DESC, d.aggregate_id`
unfoldable pub comes_before : (String → String → Bool) → Binding → Binding → Bool
comes_before collates b c =
    b.active && not c.active
    || not (b.active && not c.active)
      && not (c.active && not b.active)
      && (ltb c.drop.updated_at b.drop.updated_at
          || b.drop.updated_at == c.drop.updated_at
            && collates b.drop.aggregate_id c.drop.aggregate_id)

-- One row of the join: a binding of this listing, in its generation and not released.
unfoldable pub joined : String → String → Db → DropListingRow → Option Binding
joined seller_pubky listing_id db row =
    if row.seller_pubky == seller_pubky && row.listing_id == listing_id && not row.released
    then elim (db.listings (listing_aggregate_id seller_pubky listing_id)) [
      | none ↦ none
      | some listing ↦
          if row.listing_generation == listing.generation
          then elim (db.drops row.drop_aggregate_id) [
            | none ↦ none
            | some drop ↦ some (record { active = row.active; drop = drop })
          ]
          else none
    ]
    else none

unfoldable pub earlier : (String → String → Bool) → Option Binding → Option Binding → Option Binding
earlier collates none c = c
earlier collates (some b) none = some b
earlier collates (some b) (some c) = if comes_before collates c b then some c else some b

-- `LIMIT 1` of the ordered join.
unfoldable pub first_binding : String → String → Db → List DropListingRow → Option Binding
unfolding earlier
first_binding seller_pubky listing_id db [] = none
first_binding seller_pubky listing_id db (row ∷ rows) =
    let rest = first_binding seller_pubky listing_id db rows in
    earlier db.collates (joined seller_pubky listing_id db row) rest

unfoldable pub lock_bound_drop : String → String → Db → Option DropRow
lock_bound_drop seller_pubky listing_id db =
    elim (first_binding seller_pubky listing_id db db.drop_listings) [
      | none ↦ none
      | some binding ↦ some binding.drop
    ]
