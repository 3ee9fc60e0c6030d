-- ===== src/Inventory/Ledger/Refinement.antt =====
-- The commands that move stock, against the abstract ledger of one listing.
use pubky_marketplace_servic.Prelude.{
  ℕ, String, some, List, [], ◌∷◌, ◌==◌, string_key, ◌≡◌, ◌+◌, refl, ap, sym, ◌∙◌, inl, inr, any,
  write, arith, eq_iff, Option-cases, Bool-cases,
}
use pubky_marketplace_servic.Store.{
  ListingRow, ReservationRow, Db, Command, done, pure, Tx, insert_event, ◌>>=◌, ◌>>◌, >>-eq-done,
  >>=-eq-done,
}
use pubky_marketplace_servic.Inventory.Holds.{
  reserved, sold, held_column, released, acquire_payment_hold, reserved_by,
}
use pubky_marketplace_servic.Inventory.Holds.Movement.{
  needed, Reserves, Returns, release_lines-Returns,
}
use pubky_marketplace_servic.Inventory.Holds.Laws.{acquire_payment_hold-Reserves}
use pubky_marketplace_servic.Inventory.Reservations.{reserve}
use pubky_marketplace_servic.Inventory.Reservations.Laws.{reserve-Held}
use pubky_marketplace_servic.Drops.Gate.{credit_drop_release}
use pubky_marketplace_servic.Inventory.Expiry.{
  expiry_command, is_due, due_rows, credit_stamped, return_stock, give_back, flipped, is_active_row,
  expire_one, expire_all, expire_due_reservations,
}
use pubky_marketplace_servic.Payments.Confirmation.{confirm_order}
use pubky_marketplace_servic.Payments.Confirmation.Stock.{Sells}
use pubky_marketplace_servic.Payments.Confirmation.Laws.{confirm_order-Sells}
use pubky_marketplace_servic.Orders.Action.{HandlerSuccess}
use pubky_marketplace_servic.Orders.Cancellation.{
  approve_cancellation, releasable_lines, return_and_cancel,
}
use pubky_marketplace_servic.Orders.Cancellation.Laws.{return_and_cancel-Returns}
use pubky_marketplace_servic.Inventory.Ledger.{
  Stock, total_units, Runs-total_units, stock_of, Holds, Releases, Sales, Restocks, Performs, Runs,
  Operation, start_payment, give_back_lines, confirm, reserve_units, sweep, approve_cancel, perform,
  perform_all,
}

-- The listing is there afterwards, and units of it were released.
abbrev Refines : String → ListingRow → Db → Type 0
Refines k l db' =
    (l' : ListingRow) × (db'.listings k ≡ some l')
    × ((n : ℕ) × Releases n (stock_of l) (stock_of l'))
    × (l'.total_quantity ≡ l.total_quantity)

none_released : (s : Stock) → (n : ℕ) × Releases n s s
none_released s = (0, (omega arith, omega arith, refl))

released_both :
    (s t u : Stock) → (n : ℕ) × Releases n s t → (n : ℕ) × Releases n t u → (n : ℕ) × Releases n s u
released_both s t u (n, (a, r, x)) (m, (b, q, y)) =
    (n + m, (omega (arith, a, b), omega (arith, r, q), y ∙ x))

Reserves-Holds : (n : ℕ) (l l' : ListingRow) → Reserves n l l' → Holds n (stock_of l) (stock_of l')
unfolding stock_of
Reserves-Holds n l l' moved = (moved.available, moved.into_reserved, moved.sold)

Sells-Sales : (n : ℕ) (l l' : ListingRow) → Sells n l l' → Sales n (stock_of l) (stock_of l')
unfolding stock_of
Sells-Sales n l l' moved = (moved.available, moved.from_reserved, moved.into_sold)

Returns-Releases :
    (n : ℕ) (l l' : ListingRow) → Returns reserved n l l' → Releases n (stock_of l) (stock_of l')
unfolding stock_of held_column
Returns-Releases n l l' moved =
    (moved.available, moved.from_column, omega (arith, moved.kept, moved.from_column))

Returns-Restocks :
    (n : ℕ) (l l' : ListingRow) → Returns sold n l l' → Restocks n (stock_of l) (stock_of l')
unfolding stock_of held_column
Returns-Restocks n l l' moved =
    (moved.available, omega (arith, moved.kept, moved.from_column), moved.from_column)

same-Refines :
    (k : String) (l : ListingRow) (db db' : Db)
    → db'.listings ≡ db.listings
    → db.listings k ≡ some l
    → Refines k l db'
same-Refines k l db db' same found =
    (l, ap (λ t. t k) same ∙ found, none_released (stock_of l), refl)

Refines-trans :
    (k : String) (l : ListingRow) (mid db' : Db)
    → Refines k l mid
    → ((m : ListingRow) → mid.listings k ≡ some m → Refines k m db')
    → Refines k l db'
Refines-trans k l mid db' (m, at, first, total) next =
    let (l', at_end, more, total2) = next m at in
    (l', at_end, released_both (stock_of l) (stock_of m) (stock_of l') first more, total2 ∙ total)

credit_stamped_listings :
    (r : ReservationRow) (now : ℕ) (db mid : Db)
    → credit_stamped r now db ≡ done tt mid
    → mid.listings ≡ db.listings
unfolding credit_stamped credit_drop_release
credit_stamped_listings r now db mid h = elim (Option-cases r.drop_aggregate_id) [
  | inl plain ↦ ground arith
  | inr (d, stamped) ↦ elim (Option-cases (db.drops d)) [
    | inl missing ↦ absurd (ground arith)
    | inr (row, found) ↦ elim (Option-cases (db.drop_purchases d r.buyer_pubky)) [
      | inl none_held ↦ absurd (ground arith)
      | inr (count, held) ↦ ground arith
    ]
  ]
]

return_stock-Refines :
    (k : String) (l : ListingRow) (r : ReservationRow) (now : ℕ) (db mid : Db) (row : ListingRow)
    → db.listings k ≡ some l
    → return_stock r now db ≡ done row mid
    → Refines k l mid
unfolding return_stock released stock_of
return_stock-Refines k l r now db mid row found h =
    elim (Bool-cases (k == r.listing_aggregate_id)) [
      | inl same ↦
          let at_row : db.listings r.listing_aggregate_id ≡ some l =
            ap db.listings (sym ((eq_iff k r.listing_aggregate_id).0 same)) ∙ found in
          (
            released reserved r.quantity now l,
            ground arith,
            (r.quantity, (refl, ground arith, refl)),
            refl,
          )
      | inr differ ↦ elim (Option-cases (db.listings r.listing_aggregate_id)) [
        | inl missing ↦ absurd (ground arith)
        | inr (x, at_row) ↦ (l, ground arith, none_released (stock_of l), refl)
      ]
    ]

log_expiry : ReservationRow → ListingRow → ℕ → Tx (Unit {0})
log_expiry r row now =
    insert_event (expiry_command r) r.listing_aggregate_id row.server_revision r.buyer_pubky
      "inventory.reservation_expired" now
    >> pure tt

give_back-Refines :
    (k : String) (l : ListingRow) (r : ReservationRow) (now : ℕ) (db mid : Db)
    → db.listings k ≡ some l
    → give_back r now db ≡ done tt mid
    → Refines k l mid
unfolding give_back log_expiry insert_event
give_back-Refines k l r now db mid found h =
    let (_, m1, credited, r1) =
      >>-eq-done (credit_stamped r now) (return_stock r now >>= λ row. log_expiry r row now) db mid
        tt h in
    let (row, m2, returned, last) =
      >>=-eq-done (return_stock r now) (λ row. log_expiry r row now) m1 mid tt r1 in
    let same = credit_stamped_listings r now db m1 credited in
    Refines-trans k l m2 mid
      (return_stock-Refines k l r now m1 m2 row (ap (λ t. t k) same ∙ found) returned)
      (λ m at. same-Refines k m m2 mid (ground arith) at)

expire_one-Refines :
    (k : String) (l : ListingRow) (r : ReservationRow) (now n : ℕ) (db mid : Db)
    → db.listings k ≡ some l
    → expire_one r now db ≡ done n mid
    → Refines k l mid
unfolding expire_one flipped
expire_one-Refines k l r now n db mid found h =
    elim (Bool-cases (any (is_active_row r.id) db.reservations)) [
      | inl active ↦
          let (_, m, gave, last) =
            >>-eq-done (give_back r now) (pure 1) (flipped r.id now db) mid n (ground arith) in
          Refines-trans k l m mid (give_back-Refines k l r now (flipped r.id now db) m found gave)
            (λ x at. same-Refines k x m mid (ground arith) at)
      | inr settled ↦ same-Refines k l db mid (ground arith) found
    ]

expire_all-Refines :
    (k : String) (l : ListingRow) (due : List ReservationRow) (now n : ℕ) (db db' : Db)
    → db.listings k ≡ some l
    → expire_all due now db ≡ done n db'
    → Refines k l db'
unfolding expire_all
expire_all-Refines k l [] now n db db' found h = same-Refines k l db db' (ground arith) found
expire_all-Refines k l (r ∷ due) now n db db' found h =
    let (one, mid, first, rest) =
      >>=-eq-done (expire_one r now) (λ one. expire_all due now >>= λ more. pure (one + more)) db
        db' n h in
    let (more, last, others, ended) =
      >>=-eq-done (expire_all due now) (λ more. pure (one + more)) mid db' n rest in
    Refines-trans k l mid db' (expire_one-Refines k l r now one db mid found first) (λ m at.
      Refines-trans k m last db' (expire_all-Refines k m due now more mid last at others)
        (λ x there. same-Refines k x last db' (ground arith) there))

-- The listing is there afterwards, its stock by the operation's own move.
abbrev Follows : String → Operation → ListingRow → Db → Type 0
Follows k op l db' =
    (l' : ListingRow) × (db'.listings k ≡ some l')
    × Performs k op (stock_of l) (stock_of l')
    × (l'.total_quantity ≡ l.total_quantity)

approve-Follows :
    (k : String) (l : ListingRow) (actor : String) (c : Command) (id : String) (now : ℕ)
    (db db' : Db) (s : HandlerSuccess)
    → db.listings k ≡ some l
    → approve_cancellation actor c id now db ≡ done s db'
    → Follows k (approve_cancel actor c id now) l db'
unfolding approve_cancellation return_and_cancel
approve-Follows k l actor c id now db db' s found h = elim (Option-cases (db.orders id)) [
  | inl missing ↦ absurd (ground arith)
  | inr (o, at_order) ↦
      let lines = releasable_lines o db in
      let (l', at, moved) =
        return_and_cancel-Returns k l actor c o lines now db db' s found (ground arith) in
      (l', at, (needed k lines, Returns-Restocks (needed k lines) l l' moved), moved.total)
]

perform-Follows :
    (k : String) (op : Operation) (l : ListingRow) (db db' : Db)
    → db.listings k ≡ some l
    → perform op db ≡ done tt db'
    → Follows k op l db'
unfolding perform expire_due_reservations reserved_by stock_of
perform-Follows k (start_payment order window source now) l db db' found h =
    let (o, mid, ran, ended) =
      >>-eq-done (acquire_payment_hold order window source now) (pure tt) db db' tt h in
    let (l', at, moved, marked) =
      acquire_payment_hold-Reserves order window source now db mid o ran k l found in
    (
      l',
      ap (λ t. t k) {x = db'.listings} {y = mid.listings} (ground arith) ∙ at,
      Reserves-Holds _ l l' moved,
      moved.total,
    )
perform-Follows k (give_back_lines reserved now lines) l db db' found h =
    let (l', at, moved) = release_lines-Returns k l reserved now lines db db' found h in
    (l', at, Returns-Releases (needed k lines) l l' moved, moved.total)
perform-Follows k (give_back_lines sold now lines) l db db' found h =
    let (l', at, moved) = release_lines-Returns k l sold now lines db db' found h in
    (l', at, Returns-Restocks (needed k lines) l l' moved, moved.total)
perform-Follows k (confirm keys actor c payment order now) l db db' found h =
    let (r, mid, ran, ended) =
      >>-eq-done (confirm_order keys actor c payment order now) (pure tt) db db' tt h in
    let (l', at, moved) =
      confirm_order-Sells keys actor c payment order now db mid r ran k l found in
    (
      l',
      ap (λ t. t k) {x = db'.listings} {y = mid.listings} (ground arith) ∙ at,
      Sells-Sales (needed k order.lines) l l' moved,
      moved.total,
    )
perform-Follows k (reserve_units actor c payload now) l db db' found h =
    let (s, mid, ran, ended) = >>-eq-done (reserve actor c payload now) (pure tt) db db' tt h in
    let (x, stamp, m, at_x, live, other, listings, gated, held) =
      reserve-Held actor c payload now db mid s ran in
    let put : db'.listings ≡ write m.listings c.aggregate_id (reserved_by payload.quantity now x) =
      ap (λ d. d.listings) {x = db'} {y = mid} (ground arith) ∙ held.stored in
    elim (Bool-cases (k == c.aggregate_id)) [
      | inl same ↦
          let here : l ≡ x =
            ground (arith, at_x, ap db.listings ((eq_iff k c.aggregate_id).0 same)) in
          (
            reserved_by payload.quantity now x,
            ap (λ t. t k) put ∙ ground arith,
            rw same (
              ground (arith, held.enough, here),
              ground (arith, here),
              ap (λ y. y.sold_quantity) (sym here),
            ),
            ap (λ y. y.total_quantity) (sym here),
          )
      | inr differ ↦ (
        l,
        ap (λ t. t k) put ∙ ground (arith, ap (λ t. t k) listings),
        rw differ (omega arith, omega arith, refl),
        refl,
      )
    ]
perform-Follows k (sweep skipped now) l db db' found h =
    let (n, mid, ran, ended) =
      >>-eq-done (expire_due_reservations skipped now) (pure tt) db db' tt h in
    Refines-trans k l mid db'
      (expire_all-Refines k l (due_rows (is_due skipped now db) db.reservations) now n db mid found
        ran)
      (λ x at. same-Refines k x mid db' (ground arith) at)
perform-Follows k (approve_cancel actor c id now) l db db' found h =
    let (s, mid, ran, ended) =
      >>-eq-done (approve_cancellation actor c id now) (pure tt) db db' tt h in
    let (l', at, moved, total) = approve-Follows k l actor c id now db mid s found ran in
    (l', ap (λ t. t k) {x = db'.listings} {y = mid.listings} (ground arith) ∙ at, moved, total)

-- Whatever sequence of payment starts, releases, confirmations, reservations, sweeps and
-- cancellation approvals succeeds, each listing's stock follows a run of the ledger along the same
-- operations: a payment start or a reservation holds, and a confirmation sells, exactly the units
-- that its lines or its payload ask of the listing, a release gives them back from its own column, a
-- sweep only releases and an approval only restocks. The total stays, and no unit is lost or created.
pub perform_all-Refines :
    (k : String) (ops : List Operation) (l : ListingRow) (db db' : Db)
    → db.listings k ≡ some l
    → perform_all ops db ≡ done tt db'
    → (l' : ListingRow) × (db'.listings k ≡ some l')
      × Runs k ops (stock_of l) (stock_of l')
      × (l'.total_quantity ≡ l.total_quantity)
      × (total_units (stock_of l') ≡ total_units (stock_of l))
unfolding perform_all
perform_all-Refines k [] l db db' found h =
    (l, ap (λ d. d.listings k) {x = db'} {y = db} (ground arith) ∙ found, refl, refl, refl)
perform_all-Refines k (op ∷ ops) l db db' found h =
    let (_, mid, first, rest) = >>-eq-done (perform op) (perform_all ops) db db' tt h in
    let (m, at, moved, total) = perform-Follows k op l db mid found first in
    let (l', at_end, more, total2, same) = perform_all-Refines k ops m mid db' at rest in
    let whole : Runs k (op ∷ ops) (stock_of l) (stock_of l') = (stock_of m, moved, more) in
    (
      l',
      at_end,
      whole,
      total2 ∙ total,
      Runs-total_units k (op ∷ ops) (stock_of l) (stock_of l') whole,
    )
