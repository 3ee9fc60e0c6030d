-- ===== src/Inventory/Expiry/Due.antt =====
-- crates/service/src/expiry.rs: the rows that the sweep selects.
use pubky_marketplace_servic.Prelude.{
  ℕ, suc, String, Bool, true, false, some, List, [], ◌∷◌, ◌==◌, string_key, ◌&&◌, ◌||◌, not, ◌≡◌,
  inl, inr, refl, ap, ◌+◌, if◌then◌else◌, any, find, leb, arith, eq_iff, Bool-cases,
}
use pubky_marketplace_servic.Store.{ReservationRow}
use pubky_marketplace_servic.Inventory.Reservations.Totals.{has_id, is_distinct}
use pubky_marketplace_servic.Inventory.Expiry.{insert_by_expiry, due_rows}

abbrev pub length : List ReservationRow → ℕ
length [] = 0
length (r ∷ rows) = suc (length rows)

abbrev pub count : (ReservationRow → Bool) → List ReservationRow → ℕ
count p [] = 0
count p (r ∷ rows) = let rest = count p rows in if p r then 1 + rest else rest

-- Each row of the list is the one that the table has under its id.
abbrev pub AllFound : List ReservationRow → List ReservationRow → Type 0
AllFound rows [] = Unit {0}
AllFound rows (d ∷ ds) = (find (has_id d.id) rows ≡ some d) × AllFound rows ds

module _ (p : ReservationRow → Bool) where
  any-insert :
      (r : ReservationRow) (rows : List ReservationRow)
      → any p (insert_by_expiry r rows) ≡ (p r || any p rows)
  unfolding insert_by_expiry
  any-insert r [] = refl
  any-insert r (x ∷ rows) = ground (arith, any-insert r rows)

length-insert :
    (r : ReservationRow) (rows : List ReservationRow)
    → length (insert_by_expiry r rows) ≡ suc (length rows)
unfolding insert_by_expiry
length-insert r [] = refl
length-insert r (x ∷ rows) = ground (arith, length-insert r rows)

same_id : (a b : String) → (a == b) ≡ (b == a)
same_id a b = ground (arith, eq_iff a b, eq_iff b a)

distinct-insert :
    (r : ReservationRow) (rows : List ReservationRow)
    → is_distinct (insert_by_expiry r rows) ≡ (not (any (has_id r.id) rows) && is_distinct rows)
unfolding insert_by_expiry
distinct-insert r [] = refl
distinct-insert r (x ∷ rows) =
    ground (arith, any-insert (has_id x.id) r rows, distinct-insert r rows, same_id x.id r.id)

AllFound-insert :
    (rows : List ReservationRow) (r : ReservationRow) (ds : List ReservationRow)
    → find (has_id r.id) rows ≡ some r
    → AllFound rows ds
    → AllFound rows (insert_by_expiry r ds)
unfolding insert_by_expiry
AllFound-insert rows r [] found all = (found, all)
AllFound-insert rows r (x ∷ ds) found all = elim (Bool-cases (leb r.expires_at x.expires_at)) [
  | inl first ↦ rw first (found, all)
  | inr later ↦ rw later (all.0, AllFound-insert rows r ds found all.1)
]

find-any :
    (i : String) (rows : List ReservationRow) (r : ReservationRow)
    → find (has_id i) rows ≡ some r
    → any (has_id i) rows ≡ true
find-any i [] r h = absurd (ground arith)
find-any i (x ∷ rows) r h = ground (arith, find-any i rows r)

AllFound-cons :
    (x : ReservationRow) (rows ds : List ReservationRow)
    → any (has_id x.id) rows ≡ false
    → AllFound rows ds
    → AllFound (x ∷ rows) ds
AllFound-cons x rows [] fresh all = tt
AllFound-cons x rows (d ∷ ds) fresh all = (
  ground
      (arith, all.0, find-any d.id rows d all.0, eq_iff x.id d.id, ap (λ i. any (has_id i) rows)),
  AllFound-cons x rows ds fresh all.1,
)

pub AllFound-self : (rows : List ReservationRow) → is_distinct rows ≡ true → AllFound rows rows
AllFound-self [] distinct = tt
AllFound-self (x ∷ rows) distinct = (
  ground (arith, eq_iff x.id x.id),
  AllFound-cons x rows rows (ground arith) (AllFound-self rows (ground arith)),
)

module _ (due : ReservationRow → Bool) where
  pub length-due_rows : (rows : List ReservationRow) → length (due_rows due rows) ≡ count due rows
  unfolding due_rows
  length-due_rows [] = refl
  length-due_rows (x ∷ rows) =
      ground (arith, length-insert x (due_rows due rows), length-due_rows rows)

  any-due_rows-fresh :
      (i : String) (rows : List ReservationRow)
      → any (has_id i) rows ≡ false
      → any (has_id i) (due_rows due rows) ≡ false
  unfolding due_rows
  any-due_rows-fresh i [] fresh = refl
  any-due_rows-fresh i (x ∷ rows) fresh =
      ground (arith, any-insert (has_id i) x (due_rows due rows), any-due_rows-fresh i rows)

  pub distinct-due_rows :
      (rows : List ReservationRow)
      → is_distinct rows ≡ true
      → is_distinct (due_rows due rows) ≡ true
  unfolding due_rows
  distinct-due_rows [] distinct = refl
  distinct-due_rows (x ∷ rows) distinct = ground (
    arith,
    distinct-insert x (due_rows due rows),
    distinct-due_rows rows,
    any-due_rows-fresh x.id rows,
  )

  pub AllFound-due_rows :
      (rows : List ReservationRow) → is_distinct rows ≡ true → AllFound rows (due_rows due rows)
  unfolding due_rows
  AllFound-due_rows [] distinct = tt
  AllFound-due_rows (x ∷ rows) distinct =
      let rest =
        AllFound-cons x rows (due_rows due rows) (ground arith)
          (AllFound-due_rows rows (ground arith)) in
      elim (Bool-cases (due x)) [
        | inl hit ↦ rw hit (
            AllFound-insert (x ∷ rows) x (due_rows due rows) (ground (arith, eq_iff x.id x.id))
              rest)
        | inr miss ↦ rw miss rest
      ]

  -- Every selected row is due.
  abbrev pub AllDue : List ReservationRow → Type 0
  AllDue [] = Unit {0}
  AllDue (d ∷ ds) = (due d ≡ true) × AllDue ds

  AllDue-insert :
      (r : ReservationRow) (ds : List ReservationRow)
      → due r ≡ true
      → AllDue ds
      → AllDue (insert_by_expiry r ds)
  unfolding insert_by_expiry
  AllDue-insert r [] is_due all = (is_due, all)
  AllDue-insert r (x ∷ ds) is_due all = elim (Bool-cases (leb r.expires_at x.expires_at)) [
    | inl first ↦ rw first (is_due, all)
    | inr later ↦ rw later (all.0, AllDue-insert r ds is_due all.1)
  ]

  pub AllDue-due_rows : (rows : List ReservationRow) → AllDue (due_rows due rows)
  unfolding due_rows
  AllDue-due_rows [] = tt
  AllDue-due_rows (x ∷ rows) = elim (Bool-cases (due x)) [
    | inl hit ↦ rw hit (AllDue-insert x (due_rows due rows) hit (AllDue-due_rows rows))
    | inr miss ↦ rw miss (AllDue-due_rows rows)
  ]

  -- An id is selected if the table's row of that id is due.
  pub any-due_rows :
      (i : String) (rows : List ReservationRow) (r : ReservationRow)
      → is_distinct rows ≡ true
      → find (has_id i) rows ≡ some r
      → any (has_id i) (due_rows due rows) ≡ due r
  unfolding due_rows
  any-due_rows i [] r distinct found = absurd (ground arith)
  any-due_rows i (x ∷ rows) r distinct found =
      let inserted = any-insert (has_id i) x (due_rows due rows) in
      elim (Bool-cases (x.id == i)) [
        | inl hit ↦
            let e : x ≡ r = ground arith in
            let fresh : any (has_id i) rows ≡ false =
              ground (arith, ap (λ j. any (has_id j) rows) ((eq_iff x.id i).0 hit)) in
            ground (arith, inserted, ap due e, any-due_rows-fresh i rows fresh)
        | inr miss ↦ ground (arith, inserted, any-due_rows i rows r)
      ]
