-- ===== src/Inventory/Expiry/Turn.antt =====
-- crates/service/src/expiry.rs: one turn of the sweep, on accounted rows.
use pubky_marketplace_servic.Prelude.{
  ℕ, suc, sym, String, Bool, ap, ◌∙◌, true, nat_key, some, List, [], ◌∷◌, ◌==◌, string_key,
  option_key, ◌&&◌, ◌≡◌, ◌≤◌, ◌<◌, ◌+◌, ◌-◌, ◌⊎◌, inl, inr, refl, if◌then◌else◌, any, all, find,
  map, ltb, write, arith, eq_iff, Bool-cases, Option-cases,
}
use pubky_marketplace_servic.Store.{
  ListingRow, ReservationRow, Db, done, fault, unique_violation, insert_event, clashes,
}
use pubky_marketplace_servic.Inventory.Holds.{reserved, released}
use pubky_marketplace_servic.Inventory.Expiry.Log.{
  SameLog, expiry_event, logged, IsLogged, logged_step,
}
use pubky_marketplace_servic.Drops.Gate.{purchased, credit_drop, credit_drop_release}
use pubky_marketplace_servic.Inventory.Reservations.Totals.{
  active_total, share, has_id, of_listing, of_drop, of_buyer, reserved_at, handed_out, IsAccounted,
  WithinTotals, Ignores, is_distinct, distinct-flip, positive-flip, active_total-flip,
}
use pubky_marketplace_servic.Inventory.Expiry.{
  expiry_command, flip, is_active_row, credit_stamped, return_stock, give_back, flipped, expire_one,
}

-- The units of `r` left the reserved column of its listing, its drop and its buyer's count; no
-- reservation, order or payment changed.
pub record Moved (r : ReservationRow) (db db' : Db) : Type 0 where
  stock : (k : String) → reserved_at k db' + share (of_listing k) r ≡ reserved_at k db
  drops : (d : String) → handed_out d db' + share (of_drop d) r ≡ handed_out d db
  counts : (d b : String) → purchased d b db' + share (of_buyer d b) r ≡ purchased d b db
  reservations : db'.reservations ≡ db.reservations
  orders : db'.orders ≡ db.orders
  payments : db'.payments ≡ db.payments
  within : WithinTotals db → WithinTotals db'

-- A stamped reservation that its drop and its buyer's count cover is credited.
credit_stamped_done :
    (r : ReservationRow) (now : ℕ) (db : Db)
    → 0 < r.quantity
    → ((d : String) → share (of_drop d) r ≤ handed_out d db)
    → ((d b : String) → share (of_buyer d b) r ≤ purchased d b db)
    → (db' : Db) × (credit_stamped r now db ≡ done tt db')
      × (db'.listings ≡ db.listings)
      × ((d : String) → handed_out d db' + share (of_drop d) r ≡ handed_out d db)
      × ((d b : String) → purchased d b db' + share (of_buyer d b) r ≡ purchased d b db)
      × (db'.reservations ≡ db.reservations)
      × (db'.orders ≡ db.orders)
      × (db'.payments ≡ db.payments)
      × (WithinTotals db → WithinTotals db')
      × SameLog db db'
unfolding credit_stamped credit_drop_release credit_drop purchased
credit_stamped_done r now db some_units in_drop in_count = elim (Option-cases r.drop_aggregate_id) [
  | inl plain ↦ (
    db,
    ground arith,
    refl,
    λ d. ground arith,
    λ d b. ground arith,
    refl,
    refl,
    refl,
    λ w. w,
    record { events = refl; uuids = refl; drawn = refl },
  )
  | inr (d, stamp) ↦ elim (Option-cases (db.drops d)) [
    | inl missing ↦ absurd (ground (arith, in_drop d, eq_iff d d))
    | inr (drop, found) ↦ elim (Option-cases (db.drop_purchases d r.buyer_pubky)) [
      | inl none_held ↦
          absurd (
            ground
              (arith, in_count d r.buyer_pubky, eq_iff d d, eq_iff r.buyer_pubky r.buyer_pubky))
      | inr (row, held) ↦ (
        record db {
          drops = write db.drops d (credit_drop r.quantity now drop);
          drop_purchases = λ i b.
              if i == d && b == r.buyer_pubky
              then some (record row { quantity = row.quantity - r.quantity })
              else db.drop_purchases i b;
        },
        ground (
          arith,
          in_drop d,
          in_count d r.buyer_pubky,
          eq_iff d d,
          eq_iff r.buyer_pubky r.buyer_pubky,
        ),
        refl,
        λ j. ground (arith, in_drop d, eq_iff d d, eq_iff j d, eq_iff d j),
        λ j b. ground (
          arith,
          in_count d r.buyer_pubky,
          eq_iff d d,
          eq_iff j d,
          eq_iff d j,
          eq_iff b r.buyer_pubky,
          eq_iff r.buyer_pubky b,
          eq_iff r.buyer_pubky r.buyer_pubky,
        ),
        refl,
        refl,
        refl,
        λ w j x at. ground (arith, w j x, in_drop d, eq_iff d d, eq_iff j d),
        record { events = refl; uuids = refl; drawn = refl },
      )
    ]
  ]
]

return_stock_done :
    (r : ReservationRow) (now : ℕ) (db : Db)
    → 0 < r.quantity
    → r.quantity ≤ reserved_at r.listing_aggregate_id db
    → (listing : ListingRow) × (db' : Db) × (return_stock r now db ≡ done listing db')
      × ((k : String) → reserved_at k db' + share (of_listing k) r ≡ reserved_at k db)
      × (db'.drops ≡ db.drops)
      × (db'.drop_purchases ≡ db.drop_purchases)
      × (db'.reservations ≡ db.reservations)
      × (db'.orders ≡ db.orders)
      × (db'.payments ≡ db.payments)
      × SameLog db db'
      × ((row : ListingRow) × (db.listings r.listing_aggregate_id ≡ some row)
          × (listing.server_revision ≡ row.server_revision + 1))
      × (db'.listings ≡ write db.listings r.listing_aggregate_id listing)
unfolding return_stock released
return_stock_done r now db some_units in_stock =
    elim (Option-cases (db.listings r.listing_aggregate_id)) [
      | inl missing ↦ absurd (ground arith)
      | inr (row, found) ↦
          let put = released reserved r.quantity now row in
          (
            put,
            record db { listings = write db.listings r.listing_aggregate_id put },
            ground arith,
            λ k. ground (arith, eq_iff k r.listing_aggregate_id, eq_iff r.listing_aggregate_id k),
            refl,
            refl,
            refl,
            refl,
            refl,
            record { events = refl; uuids = refl; drawn = refl },
            (row, found, refl),
            refl,
          )
    ]

-- A due row that its listing, its drop and its buyer's count cover is given back.
give_back_done :
    (r : ReservationRow) (now : ℕ) (db : Db)
    → 0 < r.quantity
    → ((k : String) → share (of_listing k) r ≤ reserved_at k db)
    → ((d : String) → share (of_drop d) r ≤ handed_out d db)
    → ((d b : String) → share (of_buyer d b) r ≤ purchased d b db)
    → ((db' : Db) × (give_back r now db ≡ done tt db')
        × Moved r db db'
        × ((k : ℕ) → IsLogged (suc k) db → IsLogged k db'))
      ⊎ ((give_back r now db ≡ fault unique_violation) × ((k : ℕ) → ¬ IsLogged (suc k) db))
unfolding give_back expiry_command insert_event purchased
give_back_done r now db some_units in_stock in_drop in_count =
    let (mid, credited, listings, drops, counts, rows, orders, payments, fits, log) =
      credit_stamped_done r now db some_units in_drop in_count in
    let covered : r.quantity ≤ reserved_at r.listing_aggregate_id mid = ground (
      arith,
      in_stock r.listing_aggregate_id,
      eq_iff r.listing_aggregate_id r.listing_aggregate_id,
      ap (λ t. t r.listing_aggregate_id) listings,
    ) in
    let (
      listing,
      put,
      returned,
      stock,
      drops2,
      counts2,
      rows2,
      orders2,
      payments2,
      log2,
      (row, found, revision),
      written,
    ) =
      return_stock_done r now mid some_units covered in
    let step =
      logged_step r listing row now db put
        (record {
          events = log2.events ∙ log.events;
          uuids = log2.uuids ∙ log.uuids;
          drawn = log2.drawn ∙ log.drawn;
        })
        (sym (ap (λ t. t r.listing_aggregate_id) listings) ∙ found) revision
        (written ∙ ap (λ t. write t r.listing_aggregate_id listing) listings) in
    elim (Bool-cases (any (clashes (expiry_event r listing now put)) put.events)) [
      | inl taken ↦ inr (ground arith, λ k lg. absurd (ground (arith, (step k lg).0)))
      | inr free ↦ inl (
        logged r listing now put,
        ground arith,
        record {
          stock = λ k. ground (arith, stock k, ap (λ t. t k) listings);
          drops = λ d. ground (arith, drops d, ap (λ t. t d) drops2);
          counts = λ d b. ground (arith, counts d b, ap (λ t. t d b) counts2);
          reservations = rows2 ∙ rows;
          orders = orders2 ∙ orders;
          payments = payments2 ∙ payments;
          within = λ w j x at. fits w j x (sym (ap (λ t. t j) drops2) ∙ at);
        },
        λ k lg. (step k lg).1,
      )
    ]

-- A reservation of the table, active still.
pub record IsCurrent (r : ReservationRow) (db : Db) : Type 0 where
  pub found : find (has_id r.id) db.reservations ≡ some r
  pub active : r.status ≡ "active"

share-active_total :
    (p : ReservationRow → Bool) (rows : List ReservationRow) (r : ReservationRow)
    → find (has_id r.id) rows ≡ some r
    → r.status ≡ "active"
    → share p r ≤ active_total p rows
share-active_total p [] r found active = absurd (ground arith)
share-active_total p (x ∷ rows) r found active = elim (Bool-cases (x.id == r.id)) [
  | inl hit ↦ let e : x ≡ r = ground arith in rw e (ground (arith, eq_iff r.status "active"))
  | inr miss ↦ ground (arith, share-active_total p rows r (ground arith) active)
]

positive_found :
    (rows : List ReservationRow) (r : ReservationRow) (id : String)
    → all (λ x. ltb 0 x.quantity) rows ≡ true
    → find (has_id id) rows ≡ some r
    → 0 < r.quantity
positive_found [] r id h found = absurd (ground arith)
positive_found (x ∷ rows) r id h found = elim (Bool-cases (x.id == id)) [
  | inl hit ↦ let e : x ≡ r = ground arith in ground (arith, ap (λ y. y.quantity) e)
  | inr miss ↦ positive_found rows r id (ground arith) (ground arith)
]

is_active_found :
    (rows : List ReservationRow) (r : ReservationRow) (id : String)
    → find (has_id id) rows ≡ some r
    → r.status ≡ "active"
    → any (is_active_row id) rows ≡ true
unfolding is_active_row
is_active_found [] r id found active = absurd (ground arith)
is_active_found (x ∷ rows) r id found active = elim (Bool-cases (x.id == id)) [
  | inl hit ↦
      let e : x ≡ r = ground arith in ground (arith, ap (λ y. y.status) e, eq_iff x.status "active")
  | inr miss ↦ ground (arith, is_active_found rows r id (ground arith) active)
]

Ignores-of_listing : (k : String) → Ignores (of_listing k)
unfolding flip
Ignores-of_listing k r id now = ground arith

Ignores-of_drop : (d : String) → Ignores (of_drop d)
unfolding flip
Ignores-of_drop d r id now = elim (Bool-cases (r.id == id && r.status == "active")) [
  | inl hit ↦ rw hit refl
  | inr miss ↦ rw miss refl
]

Ignores-of_buyer : (d b : String) → Ignores (of_buyer d b)
unfolding flip
Ignores-of_buyer d b r id now = elim (Bool-cases (r.id == id && r.status == "active")) [
  | inl hit ↦ rw hit refl
  | inr miss ↦ rw miss refl
]

flipped-IsLogged :
    (id : String) (now : ℕ) (db : Db) (k : ℕ)
    → IsLogged (suc k) db
    → IsLogged (suc k) (flipped id now db)
unfolding flipped
flipped-IsLogged id now db k lg = record { fresh = lg.fresh; current = lg.current }

-- A turn on a current row of accounted rows expires it and keeps the rows accounted.
pub expire_one_done :
    (r : ReservationRow) (now : ℕ) (db : Db)
    → IsAccounted db
    → IsCurrent r db
    → ((db' : Db) × (expire_one r now db ≡ done 1 db')
        × IsAccounted db'
        × (db'.reservations ≡ map (flip r.id now) db.reservations)
        × (db'.orders ≡ db.orders)
        × (db'.payments ≡ db.payments)
        × ((k : ℕ) → IsLogged (suc k) db → IsLogged k db'))
      ⊎ ((expire_one r now db ≡ fault unique_violation) × ((k : ℕ) → ¬ IsLogged (suc k) db))
unfolding expire_one flipped purchased
expire_one_done r now db sound current =
    let some_units = positive_found db.reservations r r.id sound.positive current.found in
    let here = is_active_found db.reservations r r.id current.found current.active in
    let part = λ (p : ReservationRow → Bool).
      share-active_total p db.reservations r current.found current.active in
    let out = λ (p : ReservationRow → Bool) (ignores : Ignores p).
      active_total-flip p now db.reservations r ignores sound.distinct current.found
        current.active in
    let same = flipped-IsLogged r.id now db in
    elim (give_back_done r now (flipped r.id now db) some_units
      (λ k. omega (arith, part (of_listing k), sound.in_stock k))
      (λ d. omega (arith, part (of_drop d), sound.in_drops d))
      (λ d b. omega (arith, part (of_buyer d b), sound.in_counts d b))) [
        | inr (taken, unlogged) ↦ inr (ground arith, λ k lg. unlogged k (same k lg))
        | inl (db', gave, moved, log) ↦ inl (
          db',
          ground arith,
          record {
            distinct =
                ap is_distinct moved.reservations
                ∙ distinct-flip r.id now db.reservations
                ∙ sound.distinct;
            positive =
                ap (all (λ x. ltb 0 x.quantity)) moved.reservations
                ∙ positive-flip r.id now db.reservations
                ∙ sound.positive;
            within = moved.within sound.within;
            in_stock = λ k. rw moved.reservations (
                omega (
                  arith,
                  out (of_listing k) (Ignores-of_listing k),
                  moved.stock k,
                  sound.in_stock k,
                ));
            in_drops = λ d. rw moved.reservations (
                omega
                  (arith, out (of_drop d) (Ignores-of_drop d), moved.drops d, sound.in_drops d));
            in_counts = λ d b. rw moved.reservations (
                omega (
                  arith,
                  out (of_buyer d b) (Ignores-of_buyer d b),
                  moved.counts d b,
                  sound.in_counts d b,
                ));
          },
          moved.reservations,
          moved.orders,
          moved.payments,
          λ k lg. log k (same k lg),
        )
      ]
