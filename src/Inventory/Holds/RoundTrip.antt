-- ===== src/Inventory/Holds/RoundTrip.antt =====
-- crates/service/src/handlers/holds.rs: a release after an acquisition.
use pubky_marketplace_servic.Prelude.{
  ℕ, String, true, Option, none, some, List, [], ◌∷◌, ◌==◌, string_key, ◌≡◌, ◌≤◌, inl, inr, refl,
  ap, ◌∙◌, arith, eq_iff, Option-cases, Bool-cases, is_some, write, sym,
}
use pubky_marketplace_servic.Store.{ListingRow, OrderLine, Db, done, >>-eq-done, >>-done}
use pubky_marketplace_servic.Inventory.Holds.{
  HeldQuantity, reserved, held_column, released, release_line, release_lines, acquire_line,
  acquire_lines,
}
use pubky_marketplace_servic.Inventory.Holds.Movement.{
  needed, acquire_lines-Reserves, release_line-Returns, release_lines-Returns,
}

-- Every line's listing is registered.
abbrev Present : List OrderLine → Db → Type 0
Present [] db = Unit {0}
Present (line ∷ lines) db =
    (is_some (db.listings line.listing_aggregate_id) ≡ true) × Present lines db

-- The column holds, of each listing, what the lines ask of it together.
abbrev Covered : HeldQuantity → List OrderLine → Db → Type 0
Covered held lines db =
    (k : String) (l : ListingRow) → db.listings k ≡ some l → needed k lines ≤ held_column held l

release_line_keeps :
    (held : HeldQuantity) (now : ℕ) (line : OrderLine) (db mid : Db) (k : String)
    → release_line held now line db ≡ done tt mid
    → is_some (mid.listings k) ≡ is_some (db.listings k)
unfolding release_line
release_line_keeps held now line db mid k h =
    elim (Option-cases (db.listings line.listing_aggregate_id)) [
      | inl missing ↦ absurd (ground arith)
      | inr (x, at_line) ↦ elim (Bool-cases (k == line.listing_aggregate_id)) [
        | inl same ↦ ground (
          arith,
          eq_iff k line.listing_aggregate_id,
          ap db.listings ((eq_iff k line.listing_aggregate_id).0 same),
        )
        | inr differ ↦ ground arith
      ]
    ]

Present-kept :
    (held : HeldQuantity) (now : ℕ) (line : OrderLine) (lines : List OrderLine) (db mid : Db)
    → release_line held now line db ≡ done tt mid
    → Present lines db
    → Present lines mid
Present-kept held now line [] db mid h p = tt
Present-kept held now line (x ∷ xs) db mid h p = (
  release_line_keeps held now line db mid x.listing_aggregate_id h ∙ p.0,
  Present-kept held now line xs db mid h p.1,
)

release_line_done :
    (held : HeldQuantity) (now : ℕ) (line : OrderLine) (db : Db) (l : ListingRow)
    → db.listings line.listing_aggregate_id ≡ some l
    → line.quantity ≤ held_column held l
    → (mid : Db) × (release_line held now line db ≡ done tt mid)
unfolding release_line
release_line_done held now line db l found enough = (
  record db {
    listings = write db.listings line.listing_aggregate_id (released held line.quantity now l);
  },
  ground arith,
)

is_some_value : {A : Type 0} (o : Option A) → is_some o ≡ true → (a : A) × (o ≡ some a)
is_some_value none h = absurd (ground arith)
is_some_value (some a) h = (a, refl)

Covered-kept :
    (held : HeldQuantity) (now : ℕ) (line : OrderLine) (lines : List OrderLine) (db mid : Db)
    → release_line held now line db ≡ done tt mid
    → Covered held (line ∷ lines) db
    → Covered held lines mid
unfolding needed
Covered-kept held now line lines db mid h covered k l1 at_mid =
    let (l, found) =
      is_some_value (db.listings k)
        (sym (release_line_keeps held now line db mid k h) ∙ ap is_some at_mid) in
    let (l', at_mid', moved) = release_line-Returns k l held now line db mid found h in
    ground (arith, covered k l found, moved.from_column)

-- Lines whose stock the column holds are released without a refusal.
release_lines_done :
    (held : HeldQuantity) (now : ℕ) (lines : List OrderLine) (db : Db)
    → Present lines db
    → Covered held lines db
    → (db' : Db) × (release_lines held now lines db ≡ done tt db')
unfolding release_lines needed
release_lines_done held now [] db p covered = (db, refl)
release_lines_done held now (line ∷ lines) db p covered =
    let (l, found) = is_some_value (db.listings line.listing_aggregate_id) p.0 in
    let (mid, first) = release_line_done held now line db l found (
      ground (
        arith,
        covered line.listing_aggregate_id l found,
        eq_iff line.listing_aggregate_id line.listing_aggregate_id,
      )) in
    let (db', rest) =
      release_lines_done held now lines mid (Present-kept held now line lines db mid first p.1)
        (Covered-kept held now line lines db mid first covered) in
    (db', >>-done (release_line held now line) (release_lines held now lines) first rest)

acquire_line_keeps :
    (created_at now : ℕ) (line : OrderLine) (db mid : Db) (k : String)
    → acquire_line created_at now line db ≡ done tt mid
    → is_some (mid.listings k) ≡ is_some (db.listings k)
unfolding acquire_line
acquire_line_keeps created_at now line db mid k h =
    elim (Option-cases (db.listings line.listing_aggregate_id)) [
      | inl missing ↦ absurd (ground arith)
      | inr (x, at_line) ↦ elim (Bool-cases (k == line.listing_aggregate_id)) [
        | inl same ↦ ground (
          arith,
          eq_iff k line.listing_aggregate_id,
          ap db.listings ((eq_iff k line.listing_aggregate_id).0 same),
        )
        | inr differ ↦ ground arith
      ]
    ]

acquire_line_present :
    (created_at now : ℕ) (line : OrderLine) (db mid : Db)
    → acquire_line created_at now line db ≡ done tt mid
    → is_some (db.listings line.listing_aggregate_id) ≡ true
unfolding acquire_line
acquire_line_present created_at now line db mid h =
    elim (Option-cases (db.listings line.listing_aggregate_id)) [
      | inl missing ↦ absurd (ground arith)
      | inr (x, at_line) ↦ ap is_some at_line
    ]

acquire_lines_keeps :
    (created_at now : ℕ) (lines : List OrderLine) (db db' : Db) (k : String)
    → acquire_lines created_at now lines db ≡ done tt db'
    → is_some (db'.listings k) ≡ is_some (db.listings k)
unfolding acquire_lines
acquire_lines_keeps created_at now [] db db' k h = ground arith
acquire_lines_keeps created_at now (line ∷ lines) db db' k h =
    let (_, mid, first, rest) =
      >>-eq-done (acquire_line created_at now line) (acquire_lines created_at now lines) db db' tt
        h in
    acquire_lines_keeps created_at now lines mid db' k rest
    ∙ acquire_line_keeps created_at now line db mid k first

acquire_lines-Present :
    (created_at now : ℕ) (lines : List OrderLine) (db db' : Db)
    → acquire_lines created_at now lines db ≡ done tt db'
    → Present lines db'
unfolding acquire_lines
acquire_lines-Present created_at now [] db db' h = tt
acquire_lines-Present created_at now (line ∷ lines) db db' h =
    let (_, mid, first, rest) =
      >>-eq-done (acquire_line created_at now line) (acquire_lines created_at now lines) db db' tt
        h in
    (
      acquire_lines_keeps created_at now (line ∷ lines) db db' line.listing_aggregate_id h
          ∙ acquire_line_present created_at now line db mid first,
      acquire_lines-Present created_at now lines mid db' rest,
    )

-- The quantities of a listing, without its revision, state and instant.
abbrev pub SameStock : ListingRow → ListingRow → Type 0
SameStock l l' =
    (l'.available_quantity ≡ l.available_quantity)
    × (l'.reserved_quantity ≡ l.reserved_quantity)
    × (l'.sold_quantity ≡ l.sold_quantity)
    × (l'.total_quantity ≡ l.total_quantity)

-- Once the lines of an order have been acquired, releasing them from the reserved column is never
-- refused, and it restores the available, reserved and sold quantities of every listing.
pub release-acquire :
    (created_at now later : ℕ) (lines : List OrderLine) (db db' : Db)
    → acquire_lines created_at now lines db ≡ done tt db'
    → (back : Db) × (release_lines reserved later lines db' ≡ done tt back)
      × ((k : String) (l : ListingRow)
          → db.listings k ≡ some l
          → (l' : ListingRow) × (back.listings k ≡ some l') × SameStock l l')
unfolding held_column
release-acquire created_at now later lines db db' h =
    let (back, undone) =
      release_lines_done reserved later lines db'
        (acquire_lines-Present created_at now lines db db' h) covered in
    (
      back,
      undone,
      λ k l found.
          let (l1, at_mid, taken) =
            acquire_lines-Reserves k l created_at now lines db db' found h in
          let (l2, at_end, given) =
            release_lines-Returns k l1 reserved later lines db' back at_mid undone in
          (l2, at_end, ground arith),
    )
  where
    covered : Covered reserved lines db'
    covered k l1 at_mid =
        let (l, found) =
          is_some_value (db.listings k)
            (sym (acquire_lines_keeps created_at now lines db db' k h) ∙ ap is_some at_mid) in
        let (l', at_mid', taken) = acquire_lines-Reserves k l created_at now lines db db' found h in
        ground arith
