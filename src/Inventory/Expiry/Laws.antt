-- ===== src/Inventory/Expiry/Laws.antt =====
-- crates/service/src/expiry.rs: the whole sweep.
use pubky_marketplace_servic.Prelude.{
  ℕ, String, Bool, true, false, some, List, [], ◌∷◌, ◌==◌, string_key, ◌&&◌, ◌≡◌, Table, ◌⊎◌, inl,
  inr, refl, ap, sym, ◌∙◌, if◌then◌else◌, any, find, map, arith, eq_iff, Bool-cases,
}
use pubky_marketplace_servic.Store.{
  ReservationRow, OrderRow, PaymentRow, Db, done, fault, unique_violation,
}
use pubky_marketplace_servic.Inventory.Reservations.Totals.{has_id, is_distinct, IsAccounted}
use pubky_marketplace_servic.Inventory.Expiry.{
  is_preserved, is_due, flip, due_rows, expire_all, expire_due_reservations,
}
use pubky_marketplace_servic.Inventory.Expiry.Log.{IsLogged}
use pubky_marketplace_servic.Inventory.Expiry.Turn.{expire_one_done}
use pubky_marketplace_servic.Inventory.Expiry.Due.{
  length, count, AllFound, AllFound-self, length-due_rows, distinct-due_rows, AllFound-due_rows,
  AllDue, AllDue-due_rows, any-due_rows,
}

-- The rows after the turns of a list.
abbrev after : List ReservationRow → ℕ → List ReservationRow → List ReservationRow
after [] now rows = rows
after (d ∷ ds) now rows = after ds now (map (flip d.id now) rows)

abbrev AllCurrent : List ReservationRow → List ReservationRow → Type 0
AllCurrent rows [] = Unit {0}
AllCurrent rows (d ∷ ds) =
    (find (has_id d.id) rows ≡ some d) × (d.status ≡ "active") × AllCurrent rows ds

find-flip :
    (id : String) (now : ℕ) (i : String) (rows : List ReservationRow) (r : ReservationRow)
    → (i == id) ≡ false
    → find (has_id i) rows ≡ some r
    → find (has_id i) (map (flip id now) rows) ≡ some r
unfolding flip
find-flip id now i [] r other found = absurd (ground arith)
find-flip id now i (x ∷ rows) r other found = elim (Bool-cases (x.id == id)) [
  | inl hit ↦ ground (
    arith,
    eq_iff x.id id,
    ap (λ j. i == j) ((eq_iff x.id id).0 hit),
    eq_iff x.id i,
    eq_iff i x.id,
    find-flip id now i rows r,
  )
  | inr miss ↦ ground (arith, find-flip id now i rows r)
]

AllCurrent-flip :
    (id : String) (now : ℕ) (rows ds : List ReservationRow)
    → any (has_id id) ds ≡ false
    → AllCurrent rows ds
    → AllCurrent (map (flip id now) rows) ds
AllCurrent-flip id now rows [] fresh all = tt
AllCurrent-flip id now rows (d ∷ ds) fresh all = (
  find-flip id now d.id rows d (ground arith) all.0,
  all.1,
  AllCurrent-flip id now rows ds (ground arith) all.2,
)

expire_all_done :
    (ds : List ReservationRow) (now : ℕ) (db : Db)
    → IsAccounted db
    → AllCurrent db.reservations ds
    → is_distinct ds ≡ true
    → ((db' : Db) × (expire_all ds now db ≡ done (length ds) db')
        × IsAccounted db'
        × (db'.reservations ≡ after ds now db.reservations)
        × (db'.orders ≡ db.orders)
        × (db'.payments ≡ db.payments))
      ⊎ ((expire_all ds now db ≡ fault unique_violation) × ¬ IsLogged (length ds) db)
unfolding expire_all
expire_all_done [] now db sound current distinct = inl (db, refl, sound, refl, refl, refl)
expire_all_done (d ∷ ds) now db sound current distinct =
    elim (expire_one_done d now db sound (record { found = current.0; active = current.1 })) [
      | inr (taken, unlogged) ↦ inr (ground arith, unlogged (length ds))
      | inl (mid, first, kept, rows, orders, payments, log) ↦
          let next : AllCurrent mid.reservations ds =
            rw rows (AllCurrent-flip d.id now db.reservations ds (ground arith) current.2) in
          elim (expire_all_done ds now mid kept next (ground arith)) [
            | inr (taken, unlogged) ↦
                inr (ground (arith, first), λ lg. unlogged (log (length ds) lg))
            | inl (db', rest, kept2, rows2, orders2, payments2) ↦ inl (
              db',
              ground (arith, first, rest),
              kept2,
              rows2 ∙ ap (after ds now) rows,
              orders2 ∙ orders,
              payments2 ∙ payments,
            )
          ]
    ]

abbrev expired : ℕ → ReservationRow → ReservationRow
expired now r = record r { status = "expired"; updated_at = now }

abbrev expired_among : List ReservationRow → ℕ → ReservationRow → ReservationRow
expired_among ds now r = if r.status == "active" && any (has_id r.id) ds then expired now r else r

expired_among-flip :
    (d : ReservationRow) (ds : List ReservationRow) (now : ℕ) (x : ReservationRow)
    → any (has_id d.id) ds ≡ false
    → expired_among ds now (flip d.id now x) ≡ expired_among (d ∷ ds) now x
unfolding flip
expired_among-flip d ds now x fresh = elim (Bool-cases (x.id == d.id)) [
  | inl hit ↦ elim (Bool-cases (x.status == "active")) [
    | inl active ↦ ground (arith, eq_iff x.id d.id, eq_iff d.id x.id)
    | inr settled ↦ ground arith
  ]
  | inr miss ↦ ground (arith, eq_iff x.id d.id, eq_iff d.id x.id)
]

map_expired :
    (d : ReservationRow) (ds : List ReservationRow) (now : ℕ) (rows : List ReservationRow)
    → any (has_id d.id) ds ≡ false
    → map (expired_among ds now) (map (flip d.id now) rows) ≡ map (expired_among (d ∷ ds) now) rows
map_expired d ds now [] fresh = refl
map_expired d ds now (x ∷ rows) fresh =
    rw (expired_among-flip d ds now x fresh, map_expired d ds now rows fresh) refl

map_none : (now : ℕ) (rows : List ReservationRow) → map (expired_among [] now) rows ≡ rows
map_none now [] = refl
map_none now (x ∷ rows) = rw (map_none now rows) (ground arith)

after-map :
    (ds : List ReservationRow) (now : ℕ) (rows : List ReservationRow)
    → is_distinct ds ≡ true
    → after ds now rows ≡ map (expired_among ds now) rows
after-map [] now rows distinct = sym (map_none now rows)
after-map (d ∷ ds) now rows distinct =
    after-map ds now (map (flip d.id now) rows) (ground arith)
    ∙ map_expired d ds now rows (ground arith)

-- What the sweep makes of a row.
unfoldable pub swept : (ReservationRow → Bool) → ℕ → ReservationRow → ReservationRow
swept due now r = if due r then expired now r else r

module _ (due : ReservationRow → Bool) (now : ℕ) (rows : List ReservationRow)
    (distinct : is_distinct rows ≡ true)
    (active : (r : ReservationRow) → due r ≡ true → r.status ≡ "active") where
  map-swept :
      (part : List ReservationRow)
      → AllFound rows part
      → map (expired_among (due_rows due rows) now) part ≡ map (swept due now) part
  unfolding swept
  map-swept [] found = refl
  map-swept (x ∷ part) found =
      let here : expired_among (due_rows due rows) now x ≡ swept due now x = pointwise in
      rw (here, map-swept part found.1) refl
    where
      pointwise : expired_among (due_rows due rows) now x ≡ swept due now x
      pointwise =
          ground (
            arith,
            any-due_rows due x.id rows x distinct found.0,
            active x,
            eq_iff x.status "active",
          )

  AllCurrent-from :
      (ds : List ReservationRow) → AllFound rows ds → AllDue due ds → AllCurrent rows ds
  AllCurrent-from [] found all = tt
  AllCurrent-from (d ∷ ds) found all = (found.0, active d all.0, AllCurrent-from ds found.1 all.1)

  after-due_rows : after (due_rows due rows) now rows ≡ map (swept due now) rows
  after-due_rows =
      after-map (due_rows due rows) now rows (distinct-due_rows due rows distinct)
      ∙ map-swept rows (AllFound-self rows distinct)

due_active :
    (skipped : String → Bool) (now : ℕ) (db : Db) (r : ReservationRow)
    → is_due skipped now db r ≡ true
    → r.status ≡ "active"
unfolding is_due
due_active skipped now db r h = ground (arith, eq_iff r.status "active")

-- A sweep of accounted rows completes unless a key of the event table refuses an event.
expire_due_reservations_or_clash :
    (skipped : String → Bool) (now : ℕ) (db : Db)
    → IsAccounted db
    → ((db' : Db) × (expire_due_reservations skipped now db
          ≡ done (count (is_due skipped now db) db.reservations) db')
        × (db'.reservations ≡ map (swept (is_due skipped now db) now) db.reservations)
        × (db'.orders ≡ db.orders)
        × (db'.payments ≡ db.payments)
        × IsAccounted db')
      ⊎ ((expire_due_reservations skipped now db ≡ fault unique_violation)
          × ¬ IsLogged (count (is_due skipped now db) db.reservations) db)
unfolding expire_due_reservations
expire_due_reservations_or_clash skipped now db sound =
    let due = is_due skipped now db in
    let active = due_active skipped now db in
    let rows = db.reservations in
    elim (expire_all_done (due_rows due rows) now db sound
      (AllCurrent-from due now rows sound.distinct active (due_rows due rows)
        (AllFound-due_rows due rows sound.distinct) (AllDue-due_rows due rows))
      (distinct-due_rows due rows sound.distinct)) [
        | inr (taken, unlogged) ↦ inr (taken, λ lg. unlogged (rw (length-due_rows due rows) lg))
        | inl (db', ran, kept, left, orders, payments) ↦ inl (
          db',
          ground (arith, ran, length-due_rows due rows),
          left ∙ after-due_rows due now rows sound.distinct active,
          orders,
          payments,
          kept,
        )
      ]

-- The sweep completes, whichever rows other transactions hold locked, on accounted rows whose
-- event table is in order: the ids to be drawn are new and distinct, and no event of a listing is
-- past the listing's revision. No due row is short of stock, of its drop's units or of its
-- buyer's count, and no key of the event table refuses an event. The sweep expires exactly the
-- due rows, returns how many they are, leaves every other reservation and every order and payment
-- as it was, and its rows are accounted again.
pub expire_due_reservations_completes :
    (skipped : String → Bool) (now : ℕ) (db : Db)
    → IsAccounted db
    → IsLogged (count (is_due skipped now db) db.reservations) db
    → (db' : Db) × (expire_due_reservations skipped now db
        ≡ done (count (is_due skipped now db) db.reservations) db')
      × (db'.reservations ≡ map (swept (is_due skipped now db) now) db.reservations)
      × (db'.orders ≡ db.orders)
      × (db'.payments ≡ db.payments)
      × IsAccounted db'
expire_due_reservations_completes skipped now db sound log =
    elim (expire_due_reservations_or_clash skipped now db sound) [
      | inl completed ↦ completed
      | inr (taken, unlogged) ↦ absurd (unlogged log)
    ]

is_due-same :
    (skipped : String → Bool) (now : ℕ) (db db' : Db) (r : ReservationRow)
    → db'.orders ≡ db.orders
    → db'.payments ≡ db.payments
    → is_due skipped now db' r ≡ is_due skipped now db r
unfolding is_due is_preserved
is_due-same skipped now db db' r orders payments =
    ap (λ (o : Table String OrderRow). is_due skipped now (record db' { orders = o }) r) orders
    ∙ ap (λ (p : List PaymentRow). is_due skipped now (record db { payments = p }) r) payments

swept_settled :
    (skipped : String → Bool) (now : ℕ) (db db' : Db) (x : ReservationRow)
    → db'.orders ≡ db.orders
    → db'.payments ≡ db.payments
    → is_due skipped now db' (swept (is_due skipped now db) now x) ≡ false
unfolding swept is_due
swept_settled skipped now db db' x orders payments = elim (Bool-cases (is_due skipped now db x)) [
  | inl hit ↦ rw hit (ground arith)
  | inr miss ↦ rw miss (is_due-same skipped now db db' x orders payments ∙ miss)
]

none_due :
    (skipped : String → Bool) (now : ℕ) (db db' : Db) (rows : List ReservationRow)
    → db'.orders ≡ db.orders
    → db'.payments ≡ db.payments
    → due_rows (is_due skipped now db') (map (swept (is_due skipped now db) now) rows) ≡ []
unfolding due_rows
none_due skipped now db db' [] orders payments = refl
none_due skipped now db db' (x ∷ rows) orders payments =
    rw
      (
        swept_settled skipped now db db' x orders payments,
        none_due skipped now db db' rows orders payments,
      )
      refl

-- On accounted rows a second sweep at the same time finds nothing to do and changes no row.
pub expire_due_reservations_again :
    (skipped : String → Bool) (now n : ℕ) (db db' : Db)
    → IsAccounted db
    → expire_due_reservations skipped now db ≡ done n db'
    → expire_due_reservations skipped now db' ≡ done 0 db'
unfolding expire_due_reservations expire_all
expire_due_reservations_again skipped now n db db' sound first =
    elim (expire_due_reservations_or_clash skipped now db sound) [
      | inr (taken, unlogged) ↦ absurd (ground (arith, taken, first))
      | inl (db2, ran, rows, orders, payments, kept) ↦
          let e : db2 ≡ db' = ground (arith, ran, first) in
          let nothing : due_rows (is_due skipped now db') db'.reservations ≡ [] =
            ap (λ d. due_rows (is_due skipped now d) d.reservations) (sym e)
            ∙ ap (due_rows (is_due skipped now db2)) rows
            ∙ none_due skipped now db db2 db.reservations orders payments in
          ground (arith, nothing)
    ]
