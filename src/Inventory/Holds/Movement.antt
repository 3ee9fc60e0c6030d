-- ===== src/Inventory/Holds/Movement.antt =====
-- crates/service/src/handlers/holds.rs: the stock that the two loops move, listing by listing.
use pubky_marketplace_servic.Prelude.{
  ℕ, String, some, List, [], ◌∷◌, ◌==◌, string_key, ◌≡◌, ◌+◌, inl, inr, ap, ◌∙◌, if◌then◌else◌,
  arith, eq_iff, Option-cases, Bool-cases,
}
use pubky_marketplace_servic.Store.{ListingRow, OrderLine, Db, done, >>-eq-done}
use pubky_marketplace_servic.Inventory.Holds.{
  HeldQuantity, held_column, released, release_line, release_lines, reserved_by, acquire_line,
  acquire_lines,
}

-- What the lines ask of one listing, all together.
unfoldable pub needed : String → List OrderLine → ℕ
needed k [] = 0
needed k (line ∷ lines) =
    let rest = needed k lines in
    if line.listing_aggregate_id == k then line.quantity + rest else rest

-- `n` units went from available to reserved, and nothing else moved.
pub record Reserves (n : ℕ) (l l' : ListingRow) : Type 0 where
  pub available : l'.available_quantity + n ≡ l.available_quantity
  pub into_reserved : l'.reserved_quantity ≡ l.reserved_quantity + n
  pub sold : l'.sold_quantity ≡ l.sold_quantity
  pub total : l'.total_quantity ≡ l.total_quantity

-- `n` units came back to available from the column that held them.
pub record Returns (held : HeldQuantity) (n : ℕ) (l l' : ListingRow) : Type 0 where
  pub available : l'.available_quantity ≡ l.available_quantity + n
  pub from_column : held_column held l' + n ≡ held_column held l
  pub kept : l'.reserved_quantity + l'.sold_quantity + n ≡ l.reserved_quantity + l.sold_quantity
  pub total : l'.total_quantity ≡ l.total_quantity

abbrev pub asked : String → OrderLine → ℕ
asked k line = if line.listing_aggregate_id == k then line.quantity else 0

module _ (k : String) (l : ListingRow) where
  acquire_line-Reserves :
      (created_at now : ℕ) (line : OrderLine) (db mid : Db)
      → db.listings k ≡ some l
      → acquire_line created_at now line db ≡ done tt mid
      → (l' : ListingRow) × (mid.listings k ≡ some l') × Reserves (asked k line) l l'
  unfolding acquire_line reserved_by
  acquire_line-Reserves created_at now line db mid found h =
      elim (Bool-cases (line.listing_aggregate_id == k)) [
        | inl same ↦
            let e : line.listing_aggregate_id ≡ k = (eq_iff line.listing_aggregate_id k).0 same in
            let at_line : db.listings line.listing_aggregate_id ≡ some l =
              ap db.listings e ∙ found in
            (
              reserved_by line.quantity now l,
              ground (arith, eq_iff k line.listing_aggregate_id),
              ground arith,
            )
        | inr differ ↦ elim (Option-cases (db.listings line.listing_aggregate_id)) [
          | inl missing ↦ absurd (ground arith)
          | inr (x, at_line) ↦ (
            l,
            ground (arith, eq_iff k line.listing_aggregate_id, eq_iff line.listing_aggregate_id k),
            ground arith,
          )
        ]
      ]

  pub release_line-Returns :
      (held : HeldQuantity) (now : ℕ) (line : OrderLine) (db mid : Db)
      → db.listings k ≡ some l
      → release_line held now line db ≡ done tt mid
      → (l' : ListingRow) × (mid.listings k ≡ some l') × Returns held (asked k line) l l'
  unfolding release_line released held_column
  release_line-Returns held now line db mid found h =
      elim (Bool-cases (line.listing_aggregate_id == k)) [
        | inl same ↦
            let e : line.listing_aggregate_id ≡ k = (eq_iff line.listing_aggregate_id k).0 same in
            let at_line : db.listings line.listing_aggregate_id ≡ some l =
              ap db.listings e ∙ found in
            (
              released held line.quantity now l,
              ground (arith, eq_iff k line.listing_aggregate_id),
              ground arith,
            )
        | inr differ ↦ elim (Option-cases (db.listings line.listing_aggregate_id)) [
          | inl missing ↦ absurd (ground arith)
          | inr (x, at_line) ↦ (
            l,
            ground (arith, eq_iff k line.listing_aggregate_id, eq_iff line.listing_aggregate_id k),
            ground arith,
          )
        ]
      ]

-- The loops move, of each listing, exactly what the lines ask of it together.
pub acquire_lines-Reserves :
    (k : String) (l : ListingRow) (created_at now : ℕ) (lines : List OrderLine) (db db' : Db)
    → db.listings k ≡ some l
    → acquire_lines created_at now lines db ≡ done tt db'
    → (l' : ListingRow) × (db'.listings k ≡ some l') × Reserves (needed k lines) l l'
unfolding acquire_lines needed
acquire_lines-Reserves k l created_at now [] db db' found h = (l, ground arith, ground arith)
acquire_lines-Reserves k l created_at now (line ∷ lines) db db' found h =
    let (_, mid, first, rest) =
      >>-eq-done (acquire_line created_at now line) (acquire_lines created_at now lines) db db' tt
        h in
    let (l1, at_mid, one) = acquire_line-Reserves k l created_at now line db mid found first in
    let (l2, at_end, more) = acquire_lines-Reserves k l1 created_at now lines mid db' at_mid rest in
    (l2, at_end, ground arith)

pub release_lines-Returns :
    (k : String) (l : ListingRow) (held : HeldQuantity) (now : ℕ) (lines : List OrderLine)
    (db db' : Db)
    → db.listings k ≡ some l
    → release_lines held now lines db ≡ done tt db'
    → (l' : ListingRow) × (db'.listings k ≡ some l') × Returns held (needed k lines) l l'
unfolding release_lines needed held_column
release_lines-Returns k l held now [] db db' found h = (l, ground arith, ground arith)
release_lines-Returns k l held now (line ∷ lines) db db' found h =
    let (_, mid, first, rest) =
      >>-eq-done (release_line held now line) (release_lines held now lines) db db' tt h in
    let (l1, at_mid, one) = release_line-Returns k l held now line db mid found first in
    let (l2, at_end, more) = release_lines-Returns k l1 held now lines mid db' at_mid rest in
    (l2, at_end, ground arith)
