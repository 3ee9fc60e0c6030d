-- ===== src/Inventory/Holds/Sufficient.antt =====
-- crates/service/src/handlers/holds.rs: when the loop of the lock point comes through.
use pubky_marketplace_servic.Prelude.{
  ℕ, String, Bool, true, false, some, List, [], ◌∷◌, ◌==◌, string_key, ◌≡◌, ◌≤◌, ◌↔◌, inl, inr,
  refl, ap, ◌∙◌, any, write, arith, eq_iff, Option-cases, Bool-cases,
}
use pubky_marketplace_servic.Store.{ListingRow, OrderLine, Db, done, >>-eq-done, >>-done}
use pubky_marketplace_servic.Inventory.Holds.{
  is_deleted, accepts_commitment_created_at, reserved_by, acquire_line, acquire_lines,
}
use pubky_marketplace_servic.Inventory.Holds.Movement.{needed}

abbrev pub names : String → List OrderLine → Bool
names k lines = any (λ line. line.listing_aggregate_id == k) lines

-- Every listing that the lines name is registered, takes commitments of that time, and has what the
-- lines ask of it together.
abbrev pub Suffices : ℕ → List OrderLine → Db → Type 0
Suffices created_at lines db =
    (k : String)
    → names k lines ≡ true
    → (l : ListingRow) × (db.listings k ≡ some l)
      × (accepts_commitment_created_at l created_at ≡ true)
      × (needed k lines ≤ l.available_quantity)

needed-none : (k : String) (lines : List OrderLine) → names k lines ≡ false → needed k lines ≡ 0
unfolding needed
needed-none k [] h = refl
needed-none k (line ∷ lines) h = ground (arith, needed-none k lines)

module _ (created_at now : ℕ) (line : OrderLine) (lines : List OrderLine) (db : Db) where
  Suffices-next :
      (x : ListingRow) (mid : Db)
      → db.listings line.listing_aggregate_id ≡ some x
      → mid.listings ≡ write db.listings line.listing_aggregate_id (reserved_by line.quantity now x)
      → Suffices created_at (line ∷ lines) db
      → Suffices created_at lines mid
  unfolding needed reserved_by accepts_commitment_created_at is_deleted
  Suffices-next x mid found put enough k named =
      let (l, at, open_still, fits) = enough k (ground arith) in
      elim (Bool-cases (k == line.listing_aggregate_id)) [
        | inl same ↦
            let e : k ≡ line.listing_aggregate_id = (eq_iff k line.listing_aggregate_id).0 same in
            let here : x ≡ l = ground (arith, ap db.listings e) in
            (
              reserved_by line.quantity now x,
              ap (λ t. t k) put ∙ ground arith,
              ap (λ y. accepts_commitment_created_at y created_at) here ∙ open_still,
              ground
                  (arith, ap (λ y. y.available_quantity) here, eq_iff line.listing_aggregate_id k),
            )
        | inr differ ↦ (
          l,
          ap (λ t. t k) put ∙ ground arith,
          open_still,
          ground (arith, eq_iff line.listing_aggregate_id k, eq_iff k line.listing_aggregate_id),
        )
      ]

  Suffices-back :
      (x : ListingRow) (mid : Db)
      → db.listings line.listing_aggregate_id ≡ some x
      → mid.listings ≡ write db.listings line.listing_aggregate_id (reserved_by line.quantity now x)
      → accepts_commitment_created_at x created_at ≡ true
      → line.quantity ≤ x.available_quantity
      → Suffices created_at lines mid
      → Suffices created_at (line ∷ lines) db
  unfolding needed reserved_by accepts_commitment_created_at is_deleted
  Suffices-back x mid found put open_still fits enough k named =
      elim (Bool-cases (k == line.listing_aggregate_id)) [
        | inl same ↦
            let e : k ≡ line.listing_aggregate_id = (eq_iff k line.listing_aggregate_id).0 same in
            (
              x,
              ap db.listings e ∙ found,
              open_still,
              elim (Bool-cases (names k lines)) [
                | inl more ↦
                    let (m, at, also, rest) = enough k more in
                    ground (arith, ap (λ t. t k) put, eq_iff line.listing_aggregate_id k)
                | inr alone ↦
                    ground (arith, needed-none k lines alone, eq_iff line.listing_aggregate_id k)
              ],
            )
        | inr differ ↦
            let (m, at, also, rest) = enough k (
              ground
                (arith, eq_iff line.listing_aggregate_id k, eq_iff k line.listing_aggregate_id)) in
            (
              m,
              ground (arith, ap (λ t. t k) put),
              also,
              ground
                  (arith, eq_iff line.listing_aggregate_id k, eq_iff k line.listing_aggregate_id),
            )
      ]

  acquire_line_taken :
      (mid : Db)
      → acquire_line created_at now line db ≡ done tt mid
      → (x : ListingRow) × (db.listings line.listing_aggregate_id ≡ some x)
        × (accepts_commitment_created_at x created_at ≡ true)
        × (line.quantity ≤ x.available_quantity)
        × (mid.listings
            ≡ write db.listings line.listing_aggregate_id (reserved_by line.quantity now x))
  unfolding acquire_line
  acquire_line_taken mid h = elim (Option-cases (db.listings line.listing_aggregate_id)) [
    | inl missing ↦ absurd (ground arith)
    | inr (x, found) ↦ (x, found, ground arith, ground arith, ground arith)
  ]

acquire_lines-Suffices :
    (created_at now : ℕ) (lines : List OrderLine) (db db' : Db)
    → acquire_lines created_at now lines db ≡ done tt db'
    → Suffices created_at lines db
unfolding acquire_lines
acquire_lines-Suffices created_at now [] db db' h = λ k named. absurd (ground arith)
acquire_lines-Suffices created_at now (line ∷ lines) db db' h =
    let (_, mid, first, rest) =
      >>-eq-done (acquire_line created_at now line) (acquire_lines created_at now lines) db db' tt
        h in
    let (x, found, open_still, fits, put) =
      acquire_line_taken created_at now line lines db mid first in
    Suffices-back created_at now line lines db x mid found put open_still fits
      (acquire_lines-Suffices created_at now lines mid db' rest)

acquire_lines_complete :
    (created_at now : ℕ) (lines : List OrderLine) (db : Db)
    → Suffices created_at lines db
    → (db' : Db) × (acquire_lines created_at now lines db ≡ done tt db')
unfolding acquire_lines acquire_line needed
acquire_lines_complete created_at now [] db enough = (db, refl)
acquire_lines_complete created_at now (line ∷ lines) db enough =
    let id = line.listing_aggregate_id in
    let (x, found, open_still, fits) = enough id (ground (arith, eq_iff id id)) in
    let mid : Db = record db {
      listings = write db.listings id (reserved_by line.quantity now x);
    } in
    let first : acquire_line created_at now line db ≡ done tt mid = ground (arith, eq_iff id id) in
    let (db', rest) =
      acquire_lines_complete created_at now lines mid
        (Suffices-next created_at now line lines db x mid found refl enough) in
    (
      db',
      >>-done (acquire_line created_at now line) (acquire_lines created_at now lines) {db = db}
          {mid = mid} first rest,
    )

-- The stock of an order can be acquired exactly if every listing that its lines name is registered,
-- still takes commitments of the order's time, and has available what all the lines together ask of
-- it: the loop, which checks line by line against the stock that the earlier lines left, refuses
-- nothing else and overlooks nothing.
pub acquire_lines_iff :
    (created_at now : ℕ) (lines : List OrderLine) (db : Db)
    → ((db' : Db) × (acquire_lines created_at now lines db ≡ done tt db'))
      ↔ Suffices created_at lines db
acquire_lines_iff created_at now lines db = (
  λ (db', h). acquire_lines-Suffices created_at now lines db db' h,
  acquire_lines_complete created_at now lines db,
)
