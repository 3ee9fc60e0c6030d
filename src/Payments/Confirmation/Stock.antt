-- ===== src/Payments/Confirmation/Stock.antt =====
-- crates/service/src/handlers/payment.rs: the loop that moves an order's lines from reserved to sold.
use pubky_marketplace_servic.Prelude.{
  ℕ, String, some, List, [], ◌∷◌, ◌==◌, string_key, ◌≡◌, ◌+◌, inl, inr, ap, ◌∙◌, arith, eq_iff,
  Option-cases, Bool-cases,
}
use pubky_marketplace_servic.Store.{ListingRow, OrderLine, Db, done, >>-eq-done}
use pubky_marketplace_servic.Inventory.Holds.Movement.{needed, asked}
use pubky_marketplace_servic.Inventory.Holds.Laws.{IsBalanced}
use pubky_marketplace_servic.Payments.Confirmation.{sold_by, sell_line, sell_lines}

-- `n` units went from reserved to sold, and nothing else moved.
pub record Sells (n : ℕ) (l l' : ListingRow) : Type 0 where
  pub available : l'.available_quantity ≡ l.available_quantity
  pub from_reserved : l'.reserved_quantity + n ≡ l.reserved_quantity
  pub into_sold : l'.sold_quantity ≡ l.sold_quantity + n
  pub total : l'.total_quantity ≡ l.total_quantity

-- The tables beside the listings.
pub record Beside (db db' : Db) : Type 0 where
  pub orders : db'.orders ≡ db.orders
  pub reservations : db'.reservations ≡ db.reservations
  pub receipts : db'.receipts ≡ db.receipts

module _ (now : ℕ) (line : OrderLine) (db mid : Db)
    (sold : sell_line now line db ≡ done tt mid) where
  sell_line-Beside : Beside db mid
  unfolding sell_line
  sell_line-Beside = elim (Option-cases (db.listings line.listing_aggregate_id)) [
    | inl missing ↦ absurd (ground arith)
    | inr (x, at_line) ↦ record {
      orders = ground arith;
      reservations = ground arith;
      receipts = ground arith;
    }
  ]

  sell_line-Sells :
      (k : String) (l : ListingRow)
      → db.listings k ≡ some l
      → (l' : ListingRow) × (mid.listings k ≡ some l') × Sells (asked k line) l l'
  unfolding sell_line sold_by
  sell_line-Sells k l found = elim (Bool-cases (line.listing_aggregate_id == k)) [
    | inl same ↦
        let e : line.listing_aggregate_id ≡ k = (eq_iff line.listing_aggregate_id k).0 same in
        let at_line : db.listings line.listing_aggregate_id ≡ some l = ap db.listings e ∙ found in
        (
          sold_by line.quantity now l,
          ground (arith, eq_iff k line.listing_aggregate_id),
          ground arith,
        )
    | inr differ ↦ elim (Option-cases (db.listings line.listing_aggregate_id)) [
      | inl missing ↦ absurd (ground arith)
      | inr (x, at_line) ↦ (
        l,
        ground (arith, eq_iff k line.listing_aggregate_id, eq_iff line.listing_aggregate_id k),
        ground arith,
      )
    ]
  ]

  sell_line-IsBalanced : IsBalanced db → IsBalanced mid
  unfolding sell_line sold_by
  sell_line-IsBalanced bal k l at_mid =
      elim (Option-cases (db.listings line.listing_aggregate_id)) [
        | inl missing ↦ absurd (ground arith)
        | inr (x, at_line) ↦ ground (arith, bal line.listing_aggregate_id x at_line, bal k l)
      ]

pub sell_lines-Beside :
    (now : ℕ) (lines : List OrderLine) (db db' : Db)
    → sell_lines now lines db ≡ done tt db'
    → Beside db db'
unfolding sell_lines
sell_lines-Beside now [] db db' h = record {
  orders = ground arith;
  reservations = ground arith;
  receipts = ground arith;
}
sell_lines-Beside now (line ∷ lines) db db' h =
    let (_, mid, first, rest) =
      >>-eq-done (sell_line now line) (sell_lines now lines) db db' tt h in
    let one = sell_line-Beside now line db mid first in
    let more = sell_lines-Beside now lines mid db' rest in
    record {
      orders = more.orders ∙ one.orders;
      reservations = more.reservations ∙ one.reservations;
      receipts = more.receipts ∙ one.receipts;
    }

pub sell_lines-Sells :
    (k : String) (l : ListingRow) (now : ℕ) (lines : List OrderLine) (db db' : Db)
    → db.listings k ≡ some l
    → sell_lines now lines db ≡ done tt db'
    → (l' : ListingRow) × (db'.listings k ≡ some l') × Sells (needed k lines) l l'
unfolding sell_lines needed
sell_lines-Sells k l now [] db db' found h = (l, ground arith, ground arith)
sell_lines-Sells k l now (line ∷ lines) db db' found h =
    let (_, mid, first, rest) =
      >>-eq-done (sell_line now line) (sell_lines now lines) db db' tt h in
    let (l1, at_mid, one) = sell_line-Sells now line db mid first k l found in
    let (l2, at_end, more) = sell_lines-Sells k l1 now lines mid db' at_mid rest in
    (l2, at_end, ground arith)

pub sell_lines-IsBalanced :
    (now : ℕ) (lines : List OrderLine) (db db' : Db)
    → IsBalanced db
    → sell_lines now lines db ≡ done tt db'
    → IsBalanced db'
unfolding sell_lines
sell_lines-IsBalanced now [] db db' bal h = λ k l found. bal k l (ground arith)
sell_lines-IsBalanced now (line ∷ lines) db db' bal h =
    let (_, mid, first, rest) =
      >>-eq-done (sell_line now line) (sell_lines now lines) db db' tt h in
    sell_lines-IsBalanced now lines mid db' (sell_line-IsBalanced now line db mid first bal) rest
