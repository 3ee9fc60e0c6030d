-- ===== src/Payments/Confirmation/Laws.antt =====
-- crates/service/src/handlers/payment.rs: a confirmation as a whole, on success.
use pubky_marketplace_servic.Prelude.{
  ℕ, suc, Table, String, true, false, Option, some, List, [], ◌∷◌, ◌++◌, string_key, ◌||◌, ◌≡◌, inl,
  none, ◌+◌, subst, if◌then◌else◌, nat_key, inr, refl, ap, sym, ◌∙◌, any, map, write, is_some,
  arith, Option-cases, Bool-cases,
}
use pubky_marketplace_servic.Domain.Machines.{can_transition, order_machine}
use pubky_marketplace_servic.Store.{
  ListingRow, ReservationRow, OrderRow, OrderLine, PaymentRow, ReceiptRow, Db, done, Command, ◌>>=◌,
  ◌>>◌, >>-eq-done, >>=-eq-done,
}
use pubky_marketplace_servic.Inventory.Holds.{set_order}
use pubky_marketplace_servic.Inventory.Holds.Movement.{needed}
use pubky_marketplace_servic.Inventory.Holds.Laws.{IsBalanced}
use pubky_marketplace_servic.Payments.Pins.{unpinnable}
use pubky_marketplace_servic.Payments.Confirmation.{
  ConfirmKeys, Confirmation, is_winning, converted, convert_reservation, assign_edition, sell_lines,
  new_receipt, receipt_total, put_receipt, insert_receipt, pin_lines, delivered_now, confirmed,
  settle_order, guard_confirm, issue, confirm_order,
}
use pubky_marketplace_servic.Payments.Confirmation.Stock.{
  Sells, sell_lines-Beside, sell_lines-Sells, sell_lines-IsBalanced,
}
use pubky_marketplace_servic.Payments.Confirmation.Rows.{
  SameNeeds, assign_edition-Elsewhere, pin_lines-Elsewhere,
}

-- No reservation of the listing and the buyer is active.
abbrev pub NoneWinning : OrderRow → Db → Type 0
NoneWinning order db =
    (listing : String)
    → order.auction_aggregate_id ≡ some listing
    → any (is_winning listing order.buyer_pubky) db.reservations ≡ false

converted_loses :
    (listing buyer : String) (now : ℕ) (r : ReservationRow)
    → is_winning listing buyer (converted listing buyer now r) ≡ false
unfolding is_winning converted
converted_loses listing buyer now r = elim (Bool-cases (is_winning listing buyer r)) [
  | inl hit ↦ rw hit (ground arith)
  | inr miss ↦ rw miss miss
]

none_after :
    (listing buyer : String) (now : ℕ) (rows : List ReservationRow)
    → any (is_winning listing buyer) (map (converted listing buyer now) rows) ≡ false
none_after listing buyer now [] = refl
none_after listing buyer now (r ∷ rows) =
    rw (converted_loses listing buyer now r, none_after listing buyer now rows) refl

convert_reservation_done :
    (order : OrderRow) (now : ℕ) (db mid : Db)
    → convert_reservation order now db ≡ done tt mid
    → NoneWinning order mid
      × (mid.listings ≡ db.listings)
      × (mid.orders ≡ db.orders)
      × (mid.receipts ≡ db.receipts)
unfolding convert_reservation
convert_reservation_done order now db mid h = elim (Option-cases order.auction_aggregate_id) [
  | inl ordinary ↦ (λ l e. absurd (ground arith), ground arith, ground arith, ground arith)
  | inr (a, auctioned) ↦ (
    λ l e.
        let same : a ≡ l = ground arith in
        let rows : mid.reservations ≡ map (converted a order.buyer_pubky now) db.reservations =
          ground arith in
        ap (λ x. any (is_winning x order.buyer_pubky) mid.reservations) (sym same)
        ∙ ap (any (is_winning a order.buyer_pubky)) rows
        ∙ none_after a order.buyer_pubky now db.reservations,
    ground arith,
    ground arith,
    ground arith,
  )
]

guard_confirm_done :
    (order : OrderRow) (db mid : Db)
    → guard_confirm order db db ≡ done tt mid
    → (mid ≡ db)
      × (can_transition order_machine order.state "paid" ≡ true)
      × (unpinnable order db ≡ false)
      × ((is_some order.auction_aggregate_id || order.stock_held) ≡ true)
unfolding guard_confirm
guard_confirm_done order db mid h = (ground arith, ground arith, ground arith, ground arith)

-- Every auction order's winning reservation was active.
abbrev pub Winning : OrderRow → Db → Type 0
Winning order db =
    (listing : String)
    → order.auction_aggregate_id ≡ some listing
    → any (is_winning listing order.buyer_pubky) db.reservations ≡ true

convert_reservation-Winning :
    (order : OrderRow) (now : ℕ) (db mid : Db)
    → convert_reservation order now db ≡ done tt mid
    → Winning order db
unfolding convert_reservation
convert_reservation-Winning order now db mid h listing auctioned = ground arith

-- What the confirmed order and its receipt say.
pub record PaidTerms (keys : ConfirmKeys) (payment : PaymentRow) (order : OrderRow)
    (receipt_id : String) (now : ℕ) (paid : OrderRow) : Type 0 where
  pub state : paid.state ≡ (if delivered_now order then "delivered" else "paid")
  pub revision : paid.revision ≡ order.revision + 1
  pub receipt_id_kept : paid.receipt_id ≡ some receipt_id
  pub unheld : paid.stock_held ≡ false
  pub unarmed : paid.hold_expires_at ≡ none
  pub same_total : paid.total_minor ≡ order.total_minor
  pub receipt_order : (new_receipt keys order payment receipt_id now).order_id ≡ order.id
  pub receipt_payment : (new_receipt keys order payment receipt_id now).payment_id ≡ payment.id
  pub receipt_amount :
      order.paykit_total_sats ≡ none
      → (new_receipt keys order payment receipt_id now).total.amount_minor ≡ order.total_minor
  pub receipt_sats :
      (sats : ℕ)
      → order.paykit_total_sats ≡ some sats
      → (new_receipt keys order payment receipt_id now).total.amount_minor ≡ sats
  pub receipt_merchandise :
      (new_receipt keys order payment receipt_id now).merchandise_total.amount_minor
      ≡ order.total_minor

confirmed-PaidTerms :
    (keys : ConfirmKeys) (payment : PaymentRow) (order : OrderRow) (receipt_id : String)
    (edition : Option ℕ) (lines : List OrderLine) (now : ℕ)
    → PaidTerms keys payment order receipt_id now
        (confirmed (delivered_now order) receipt_id edition lines now order)
unfolding confirmed new_receipt receipt_total
confirmed-PaidTerms keys payment order receipt_id edition lines now = record {
  state = refl;
  revision = refl;
  receipt_id_kept = refl;
  unheld = refl;
  unarmed = refl;
  same_total = refl;
  receipt_order = refl;
  receipt_payment = refl;
  receipt_amount = λ e. rw e refl;
  receipt_sats = λ sats e. rw e refl;
  receipt_merchandise = refl;
}

-- The order, its receipt and its lines, from rows whose stock has been sold.
record Issued (keys : ConfirmKeys) (payment : PaymentRow) (order : OrderRow) (edition : Option ℕ)
    (now : ℕ) (db db' : Db) (r : Confirmation) : Type 0 where
  lines : List OrderLine
  same_needs : SameNeeds order.lines lines
  listings : db'.listings ≡ db.listings
  reservations : db'.reservations ≡ db.reservations
  receipt : db'.receipts ≡ db.receipts ++ new_receipt keys order payment r.receipt_id now ∷ []
  row : r.order ≡ confirmed (delivered_now order) r.receipt_id edition lines now order
  stored : db'.orders ≡ write db.orders order.id r.order

settle_order_done :
    (actor : String) (c : Command) (order : OrderRow) (id : String) (edition : Option ℕ)
    (lines : List OrderLine) (now : ℕ) (db db' : Db) (r : Confirmation)
    → db.orders order.id ≡ some order
    → settle_order actor c order id edition lines now db ≡ done r db'
    → (db'.listings ≡ db.listings)
      × (db'.reservations ≡ db.reservations)
      × (db'.receipts ≡ db.receipts)
      × (r.receipt_id ≡ id)
      × (r.order ≡ confirmed (delivered_now order) id edition lines now order)
      × (db'.orders ≡ write db.orders order.id r.order)
unfolding settle_order set_order
settle_order_done actor c order id edition lines now db db' r stored h =
    elim (Bool-cases (delivered_now order)) [
      | inl instant ↦
          (ground arith, ground arith, ground arith, ground arith, ground arith, ground arith)
      | inr usual ↦
          (ground arith, ground arith, ground arith, ground arith, ground arith, ground arith)
    ]

put_receipt_done :
    (x : ReceiptRow) (id : String) (db mid : Db)
    → put_receipt x db ≡ done id mid
    → (id ≡ x.id) × (mid ≡ record db { receipts = db.receipts ++ x ∷ [] })
unfolding put_receipt
put_receipt_done x id db mid h = (ground arith, ground arith)

issue_done :
    (keys : ConfirmKeys) (actor : String) (c : Command) (payment : PaymentRow) (order : OrderRow)
    (edition : Option ℕ) (now : ℕ) (db db' : Db) (r : Confirmation)
    → db.orders order.id ≡ some order
    → issue keys actor c payment order edition now db ≡ done r db'
    → Issued keys payment order edition now db db' r
unfolding issue insert_receipt new_receipt
issue_done keys actor c payment order edition now db db' r stored h =
    let drawn : Db = record db { drawn = suc db.drawn } in
    let row = new_receipt keys order payment (db.uuids db.drawn) now in
    let settle =
      λ (id : String) (lines : List OrderLine). settle_order actor c order id edition lines now in
    let (id, m1, put, rest) =
      >>=-eq-done (put_receipt row)
        (λ id. pin_lines keys order payment >>= λ lines. settle id lines) drawn db' r h in
    let (lines, m2, pinned, last) =
      >>=-eq-done (pin_lines keys order payment) (settle id) m1 db' r rest in
    let (same, inserted) = put_receipt_done row id drawn m1 put in
    let (elsewhere, needs) = pin_lines-Elsewhere keys order payment lines m1 m2 pinned in
    let at_two : m2.orders order.id ≡ some order =
      ap (λ t. t order.id) elsewhere.orders ∙ ap (λ d. d.orders order.id) inserted ∙ stored in
    let (listings, reservations, receipts, receipt_id, new_row, orders) =
      settle_order_done actor c order id edition lines now m2 db' r at_two last in
    let named : r.receipt_id ≡ db.uuids db.drawn = receipt_id ∙ same ∙ refl in
    record {
      lines = lines;
      same_needs = needs;
      listings = listings ∙ elsewhere.listings ∙ ap (λ d. d.listings) inserted;
      reservations = reservations ∙ elsewhere.reservations ∙ ap (λ d. d.reservations) inserted;
      receipt =
          receipts
          ∙ elsewhere.receipts
          ∙ ap (λ d. d.receipts) inserted
          ∙ ap (λ i. db.receipts ++ new_receipt keys order payment i now ∷ []) (sym named);
      row =
          new_row
          ∙ ap (λ i. confirmed (delivered_now order) i edition lines now order) (sym receipt_id);
      stored =
          orders
          ∙ ap (λ (t : Table String OrderRow). write t order.id r.order)
              (elsewhere.orders ∙ ap (λ d. d.orders) inserted);
    }

settle_order-listings :
    (actor : String) (c : Command) (order : OrderRow) (id : String) (edition : Option ℕ)
    (lines : List OrderLine) (now : ℕ) (db db' : Db) (r : Confirmation)
    → settle_order actor c order id edition lines now db ≡ done r db'
    → db'.listings ≡ db.listings
unfolding settle_order set_order
settle_order-listings actor c order id edition lines now db db' r h =
    elim (Option-cases (db.orders order.id)) [
      | inl missing ↦ absurd (ground arith)
      | inr (row, found) ↦ elim (Bool-cases (delivered_now order)) [
        | inl instant ↦ ground arith
        | inr usual ↦ ground arith
      ]
    ]

-- What a confirmation does to the stock, whether or not the order given is the stored one.
pub confirm_order-Sells :
    (keys : ConfirmKeys) (actor : String) (c : Command) (payment : PaymentRow) (order : OrderRow)
    (now : ℕ) (db db' : Db) (r : Confirmation)
    → confirm_order keys actor c payment order now db ≡ done r db'
    → (k : String) (l : ListingRow) → db.listings k ≡ some l
    → (l' : ListingRow) × (db'.listings k ≡ some l') × Sells (needed k order.lines) l l'
unfolding confirm_order issue insert_receipt
confirm_order-Sells keys actor c payment order now db db' r h k l found =
    let finish = λ (edition : Option ℕ). issue keys actor c payment order edition now in
    let tail = λ (edition : Option ℕ). sell_lines now order.lines >> finish edition in
    let (_, m0, guarded, r0) =
      >>-eq-done (guard_confirm order db)
        (convert_reservation order now >> (assign_edition order actor c now >>= tail)) db db' r h in
    let (start, payable, pinnable, held) = guard_confirm_done order db m0 guarded in
    let (_, m1, convert, r1) =
      >>-eq-done (convert_reservation order now) (assign_edition order actor c now >>= tail) m0 db'
        r r0 in
    let (edition, m2, assigned, r2) =
      >>=-eq-done (assign_edition order actor c now) tail m1 db' r r1 in
    let (_, m3, sold, r3) = >>-eq-done (sell_lines now order.lines) (finish edition) m2 db' r r2 in
    let (none_left, listings1, orders1, receipts1) =
      convert_reservation_done order now m0 m1 convert in
    let drop = assign_edition-Elsewhere order actor c now edition m1 m2 assigned in
    let row = new_receipt keys order payment (m3.uuids m3.drawn) now in
    let settle =
      λ (id : String) (lines : List OrderLine). settle_order actor c order id edition lines now in
    let drawn : Db = record m3 { drawn = suc m3.drawn } in
    let (id, m4, put, r4) =
      >>=-eq-done (put_receipt row)
        (λ id. pin_lines keys order payment >>= λ lines. settle id lines) drawn db' r r3 in
    let (lines, m5, pinned, last) =
      >>=-eq-done (pin_lines keys order payment) (settle id) m4 db' r r4 in
    let (same, inserted) = put_receipt_done row id drawn m4 put in
    let (elsewhere, needs) = pin_lines-Elsewhere keys order payment lines m4 m5 pinned in
    let listings : m2.listings ≡ db.listings =
      drop.listings ∙ listings1 ∙ ap (λ d. d.listings) start in
    let ended : db'.listings ≡ m3.listings =
      settle_order-listings actor c order id edition lines now m5 db' r last
      ∙ elsewhere.listings
      ∙ ap (λ d. d.listings) inserted in
    let (l', at, moved) =
      sell_lines-Sells k l now order.lines m2 m3 (ap (λ t. t k) listings ∙ found) sold in
    (l', ap (λ t. t k) ended ∙ at, moved)

-- What a confirmation does: the order could be paid and held stock, its lines' units went from
-- reserved to sold, it has one new receipt, it holds no stock any more, and no reservation that
-- won its auction stays active.
pub record Confirmed (keys : ConfirmKeys) (payment : PaymentRow) (order : OrderRow) (now : ℕ)
    (db db' : Db) (r : Confirmation) : Type 0 where
  pub payable : can_transition order_machine order.state "paid" ≡ true
  pub held : (is_some order.auction_aggregate_id || order.stock_held) ≡ true
  pub winning : Winning order db
  pub edition : Option ℕ
  pub lines : List OrderLine
  pub same_needs : SameNeeds order.lines lines
  pub row : r.order ≡ confirmed (delivered_now order) r.receipt_id edition lines now order
  pub terms : PaidTerms keys payment order r.receipt_id now r.order
  pub stored : db'.orders ≡ write db.orders order.id r.order
  pub receipt : db'.receipts ≡ db.receipts ++ new_receipt keys order payment r.receipt_id now ∷ []
  pub sold :
      (k : String) (l : ListingRow)
      → db.listings k ≡ some l
      → (l' : ListingRow) × (db'.listings k ≡ some l') × Sells (needed k order.lines) l l'
  pub balanced : IsBalanced db → IsBalanced db'
  pub none_winning : NoneWinning order db'

module _ (keys : ConfirmKeys) (actor : String) (c : Command) (payment : PaymentRow)
    (order : OrderRow) (now : ℕ) (db db' : Db) (r : Confirmation) where
  pub confirm_order-Confirmed :
      db.orders order.id ≡ some order
      → confirm_order keys actor c payment order now db ≡ done r db'
      → Confirmed keys payment order now db db' r
  unfolding confirm_order
  confirm_order-Confirmed stored h =
      let finish = λ (edition : Option ℕ). issue keys actor c payment order edition now in
      let tail = λ (edition : Option ℕ). sell_lines now order.lines >> finish edition in
      let (_, m0, guarded, r0) =
        >>-eq-done (guard_confirm order db)
          (convert_reservation order now >> (assign_edition order actor c now >>= tail)) db db' r
          h in
      let (start, payable, pinnable, held) = guard_confirm_done order db m0 guarded in
      let (_, m1, convert, r1) =
        >>-eq-done (convert_reservation order now) (assign_edition order actor c now >>= tail) m0
          db' r r0 in
      let (edition, m2, assigned, r2) =
        >>=-eq-done (assign_edition order actor c now) tail m1 db' r r1 in
      let (_, m3, sold, r3) =
        >>-eq-done (sell_lines now order.lines) (finish edition) m2 db' r r2 in
      let (none_left, listings1, orders1, receipts1) =
        convert_reservation_done order now m0 m1 convert in
      let drop = assign_edition-Elsewhere order actor c now edition m1 m2 assigned in
      let beside = sell_lines-Beside now order.lines m2 m3 sold in
      let listings : m2.listings ≡ db.listings =
        drop.listings ∙ listings1 ∙ ap (λ d. d.listings) start in
      let orders : m3.orders ≡ db.orders =
        beside.orders ∙ drop.orders ∙ orders1 ∙ ap (λ d. d.orders) start in
      let receipts : m3.receipts ≡ db.receipts =
        beside.receipts ∙ drop.receipts ∙ receipts1 ∙ ap (λ d. d.receipts) start in
      let issued =
        issue_done keys actor c payment order edition now m3 db' r
          (ap (λ t. t order.id) orders ∙ stored) r3 in
      record {
        payable = payable;
        held = held;
        winning = subst (Winning order) start (convert_reservation-Winning order now m0 m1 convert);
        edition = edition;
        lines = issued.lines;
        same_needs = issued.same_needs;
        row = issued.row;
        terms =
            subst (PaidTerms keys payment order r.receipt_id now) (sym issued.row)
              (confirmed-PaidTerms keys payment order r.receipt_id edition issued.lines now);
        stored =
            issued.stored ∙ ap (λ (t : Table String OrderRow). write t order.id r.order) orders;
        receipt =
            issued.receipt
            ∙ ap (λ x. x ++ new_receipt keys order payment r.receipt_id now ∷ []) receipts;
        sold = confirm_order-Sells keys actor c payment order now db db' r h;
        balanced = λ bal k l found.
            sell_lines-IsBalanced now order.lines m2 m3
              (λ j x at. bal j x (sym (ap (λ t. t j) listings) ∙ at)) sold k l
              (sym (ap (λ t. t k) issued.listings) ∙ found);
        none_winning = λ l e.
            ap (any (is_winning l order.buyer_pubky))
              (issued.reservations ∙ beside.reservations ∙ drop.reservations)
            ∙ none_left l e;
      }
