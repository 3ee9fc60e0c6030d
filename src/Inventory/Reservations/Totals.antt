-- ===== src/Inventory/Reservations/Totals.antt =====
-- crates/service/src/handlers/reserve_inventory.rs and crates/service/src/expiry.rs: how much the
-- active reservations hold, and of what.
use pubky_marketplace_servic.Prelude.{
  ℕ, String, Bool, true, false, none, some, List, [], ◌∷◌, ◌==◌, string_key, option_key, ◌&&◌, not,
  ◌≡◌, ◌≤◌, ◌+◌, ◌-◌, inl, inr, refl, ap, if◌then◌else◌, ltb, any, all, find, map, arith, eq_iff,
  Bool-cases,
}
use pubky_marketplace_servic.Store.{ReservationRow, DropRow, Db}
use pubky_marketplace_servic.Drops.Gate.{purchased}
use pubky_marketplace_servic.Inventory.Expiry.{flip}

-- The units that the active reservations passing a test hold together.
abbrev pub active_total : (ReservationRow → Bool) → List ReservationRow → ℕ
active_total p [] = 0
active_total p (r ∷ rows) =
    let rest = active_total p rows in
    if r.status == "active" && p r then r.quantity + rest else rest

abbrev pub share : (ReservationRow → Bool) → ReservationRow → ℕ
share p r = if p r then r.quantity else 0

-- The primary key.
abbrev pub has_id : String → ReservationRow → Bool
has_id id r = r.id == id

abbrev pub is_distinct : List ReservationRow → Bool
is_distinct [] = true
is_distinct (r ∷ rows) = not (any (has_id r.id) rows) && is_distinct rows

abbrev pub of_listing : String → ReservationRow → Bool
of_listing k r = r.listing_aggregate_id == k

abbrev pub of_drop : String → ReservationRow → Bool
of_drop d r = r.drop_aggregate_id == some d

abbrev pub of_buyer : String → String → ReservationRow → Bool
of_buyer d b r = r.drop_aggregate_id == some d && r.buyer_pubky == b

-- The units that a listing has reserved, and that a drop has handed out.
abbrev pub reserved_at : String → Db → ℕ
reserved_at k db = elim (db.listings k) [ none ↦ 0 | some l ↦ l.reserved_quantity ]

abbrev pub handed_out : String → Db → ℕ
handed_out d db = elim (db.drops d) [
  | none ↦ 0
  | some drop ↦ drop.total_quantity - drop.remaining_quantity
]

-- A drop has at most its total remaining (a CHECK of its table).
abbrev pub WithinTotals : Db → Type 0
WithinTotals db =
    (d : String) (drop : DropRow)
    → db.drops d ≡ some drop
    → drop.remaining_quantity ≤ drop.total_quantity

-- The reservations have distinct ids and hold something each (the table's key and CHECK), and what
-- the active ones hold is reserved in their listings, handed out by their drops and counted for
-- their buyers.
pub record IsAccounted (db : Db) : Type 0 where
  pub distinct : is_distinct db.reservations ≡ true
  pub positive : all (λ r. ltb 0 r.quantity) db.reservations ≡ true
  pub within : WithinTotals db
  pub in_stock : (k : String) → active_total (of_listing k) db.reservations ≤ reserved_at k db
  pub in_drops : (d : String) → active_total (of_drop d) db.reservations ≤ handed_out d db
  pub in_counts : (d b : String) → active_total (of_buyer d b) db.reservations ≤ purchased d b db

-- A test that reads neither the status nor the last update.
abbrev pub Ignores : (ReservationRow → Bool) → Type 0
Ignores p = (r : ReservationRow) (id : String) (now : ℕ) → p (flip id now r) ≡ p r

module _ (id : String) (now : ℕ) where
  pub flip_elsewhere :
      (rows : List ReservationRow) → any (has_id id) rows ≡ false → map (flip id now) rows ≡ rows
  unfolding flip
  flip_elsewhere [] none_here = refl
  flip_elsewhere (x ∷ rows) none_here =
      let rest = flip_elsewhere rows (ground arith) in
      let same : flip id now x ≡ x = ground arith in rw (same, rest) refl

  pub any-flip :
      (j : String) (rows : List ReservationRow)
      → any (has_id j) (map (flip id now) rows) ≡ any (has_id j) rows
  unfolding flip
  any-flip j [] = refl
  any-flip j (x ∷ rows) = ground (arith, any-flip j rows)

  pub distinct-flip :
      (rows : List ReservationRow) → is_distinct (map (flip id now) rows) ≡ is_distinct rows
  unfolding flip
  distinct-flip [] = refl
  distinct-flip (x ∷ rows) = elim (Bool-cases (x.id == id && x.status == "active")) [
    | inl hit ↦ ground (arith, any-flip x.id rows, distinct-flip rows)
    | inr miss ↦ ground (arith, any-flip x.id rows, distinct-flip rows)
  ]

  pub positive-flip :
      (rows : List ReservationRow)
      → all (λ r. ltb 0 r.quantity) (map (flip id now) rows) ≡ all (λ r. ltb 0 r.quantity) rows
  unfolding flip
  positive-flip [] = refl
  positive-flip (x ∷ rows) = ground (arith, positive-flip rows)

-- A row found by its key.
pub found_id :
    (id : String) (rows : List ReservationRow) (r : ReservationRow)
    → find (has_id id) rows ≡ some r
    → r.id ≡ id
found_id id [] r h = absurd (ground arith)
found_id id (x ∷ rows) r h = elim (Bool-cases (x.id == id)) [
  | inl hit ↦ ground (arith, eq_iff x.id id)
  | inr miss ↦ found_id id rows r (ground arith)
]

pub flip-expired :
    (r : ReservationRow) (now : ℕ)
    → r.status ≡ "active"
    → flip r.id now r ≡ record r { status = "expired"; updated_at = now }
unfolding flip
flip-expired r now active = ground (arith, eq_iff r.id r.id, eq_iff r.status "active")

pub flip_miss :
    (id : String) (now : ℕ) (x : ReservationRow) → (x.id == id) ≡ false → flip id now x ≡ x
unfolding flip
flip_miss id now x miss = ground arith

-- Expiring an active row takes its units out of each total that counts it.
pub active_total-flip :
    (p : ReservationRow → Bool) (now : ℕ) (rows : List ReservationRow) (r : ReservationRow)
    → Ignores p
    → is_distinct rows ≡ true
    → find (has_id r.id) rows ≡ some r
    → r.status ≡ "active"
    → active_total p (map (flip r.id now) rows) + share p r ≡ active_total p rows
active_total-flip p now [] r ignores distinct found active = absurd (ground arith)
active_total-flip p now (x ∷ rows) r ignores distinct found active =
    elim (Bool-cases (x.id == r.id)) [
      | inl hit ↦
          let e : x ≡ r = ground arith in
          let elsewhere : map (flip r.id now) rows ≡ rows =
            flip_elsewhere r.id now rows
              (ground (arith, ap (λ i. any (has_id i) rows) ((eq_iff x.id r.id).0 hit))) in
          rw (e, elsewhere, flip-expired r now active) (ground (arith, eq_iff r.status "active"))
      | inr miss ↦ rw (flip_miss r.id now x miss) (
          ground
            (arith, active_total-flip p now rows r ignores (ground arith) (ground arith) active))
    ]
