-- ===== src/Inventory/Listings.antt =====
-- crates/service/src/handlers/mod.rs: reading the listing that a commitment is made upon.
use pubky_marketplace_servic.Prelude.{
  ℕ, String, Option, none, some, ◌≡◌, inl, inr, if◌then◌else◌, false, arith, Option-cases,
}
use pubky_marketplace_servic.Store.{ListingRow, Db}
use pubky_marketplace_servic.Inventory.Holds.{is_deleted}

-- A tombstoned listing reads as absent.
unfoldable pub fetch_live_listing : String → Db → Option ListingRow
unfolding is_deleted
fetch_live_listing aggregate_id db = elim (db.listings aggregate_id) [
  | none ↦ none
  | some listing ↦ if is_deleted listing then none else some listing
]

-- `SELECT server_revision FROM listings …`, 0 for a missing row.
unfoldable pub current_listing_revision : String → Db → ℕ
current_listing_revision aggregate_id db = elim (db.listings aggregate_id) [
  | none ↦ 0
  | some listing ↦ listing.server_revision
]

-- The table of listings is keyed by the row's own id.
abbrev pub IsKeyed : Db → Type 0
IsKeyed db = (k : String) (l : ListingRow) → db.listings k ≡ some l → l.aggregate_id ≡ k

pub live_stored :
    (k : String) (db : Db) (l : ListingRow)
    → fetch_live_listing k db ≡ some l
    → (db.listings k ≡ some l) × (is_deleted l ≡ false)
unfolding fetch_live_listing
live_stored k db l h = elim (Option-cases (db.listings k)) [
  | inl missing ↦ absurd (ground arith)
  | inr (row, found) ↦ (ground arith, ground arith)
]
