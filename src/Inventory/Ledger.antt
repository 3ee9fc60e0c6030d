-- ===== src/Inventory/Ledger.antt =====
-- The stock of a listing as an abstract ledger, and the commands that move it:
-- crates/service/src/handlers/holds.rs, reserve_inventory.rs, payment.rs, cancellation.rs and
-- crates/service/src/expiry.rs.
pub mod Refinement
use pubky_marketplace_servic.Prelude.{
  ℕ, String, Bool, List, [], ◌∷◌, ◌≡◌, ◌+◌, ◌||◌, ◌==◌, string_key, ap, sym, ◌∙◌, arith, is_some,
  if◌then◌else◌,
}
use pubky_marketplace_servic.Store.{
  ListingRow, OrderRow, OrderLine, PaymentRow, Db, Tx, Command, ◌>>◌, pure,
}
use pubky_marketplace_servic.Inventory.Holds.{
  HeldQuantity, reserved, sold, acquire_payment_hold, release_lines,
}
use pubky_marketplace_servic.Inventory.Holds.Movement.{needed}
use pubky_marketplace_servic.Inventory.Reservations.{ReserveInventoryPayload, reserve}
use pubky_marketplace_servic.Inventory.Expiry.{expire_due_reservations}
use pubky_marketplace_servic.Payments.Confirmation.{ConfirmKeys, confirm_order}
use pubky_marketplace_servic.Orders.Cancellation.{approve_cancellation}

-- Where the units of one listing are.
pub record Stock : Type 0 where
  pub available : ℕ
  pub reserved : ℕ
  pub sold : ℕ

unfoldable pub stock_of : ListingRow → Stock
stock_of l = record {
  available = l.available_quantity;
  reserved = l.reserved_quantity;
  sold = l.sold_quantity;
}

-- The four moves of the ledger, of `n` units each.
abbrev pub Holds : ℕ → Stock → Stock → Type 0
Holds n s t = (t.available + n ≡ s.available) × (t.reserved ≡ s.reserved + n) × (t.sold ≡ s.sold)

abbrev pub Releases : ℕ → Stock → Stock → Type 0
Releases n s t = (t.available ≡ s.available + n) × (t.reserved + n ≡ s.reserved) × (t.sold ≡ s.sold)

abbrev pub Sales : ℕ → Stock → Stock → Type 0
Sales n s t = (t.available ≡ s.available) × (t.reserved + n ≡ s.reserved) × (t.sold ≡ s.sold + n)

abbrev pub Restocks : ℕ → Stock → Stock → Type 0
Restocks n s t = (t.available ≡ s.available + n) × (t.reserved ≡ s.reserved) × (t.sold + n ≡ s.sold)

abbrev pub total_units : Stock → ℕ
total_units s = s.available + s.reserved + s.sold

-- The commands and sweeps that move stock, with their arguments.
pub data Operation : Type 0 where
  start_payment : OrderRow → ℕ → String → ℕ → Operation
  give_back_lines : HeldQuantity → ℕ → List OrderLine → Operation
  confirm : ConfirmKeys → String → Command → PaymentRow → OrderRow → ℕ → Operation
  reserve_units : String → Command → ReserveInventoryPayload → ℕ → Operation
  sweep : (String → Bool) → ℕ → Operation
  approve_cancel : String → Command → String → ℕ → Operation

-- The move that each operation is of the stock of the listing `k`: its kind, and how many units the
-- lines or the payload ask of the listing. A sweep and an approval read theirs from the rows.
abbrev pub Performs : String → Operation → Stock → Stock → Type 0
Performs k (start_payment order window source now) s t =
    Holds
      (if is_some order.auction_aggregate_id || order.stock_held then 0 else needed k order.lines) s
      t
Performs k (give_back_lines reserved now lines) s t = Releases (needed k lines) s t
Performs k (give_back_lines sold now lines) s t = Restocks (needed k lines) s t
Performs k (confirm keys actor command payment order now) s t = Sales (needed k order.lines) s t
Performs k (reserve_units actor command payload now) s t =
    Holds (if k == command.aggregate_id then payload.quantity else 0) s t
Performs k (sweep skipped now) s t = (n : ℕ) × Releases n s t
Performs k (approve_cancel actor command order_id now) s t = (n : ℕ) × Restocks n s t

-- A run of the ledger along the operations, each by its own move.
abbrev pub Runs : String → List Operation → Stock → Stock → Type 0
Runs k [] s t = s ≡ t
Runs k (op ∷ ops) s t = (m : Stock) × Performs k op s m × Runs k ops m t

Performs-total_units :
    (k : String) (op : Operation) (s t : Stock) → Performs k op s t → total_units t ≡ total_units s
Performs-total_units k (start_payment order window source now) s t (a, r, x) =
    omega (arith, a, r, x)
Performs-total_units k (give_back_lines reserved now lines) s t (a, r, x) = omega (arith, a, r, x)
Performs-total_units k (give_back_lines sold now lines) s t (a, r, x) = omega (arith, a, r, x)
Performs-total_units k (confirm keys actor c payment order now) s t (a, r, x) =
    omega (arith, a, r, x)
Performs-total_units k (reserve_units actor c payload now) s t (a, r, x) = omega (arith, a, r, x)
Performs-total_units k (sweep skipped now) s t (n, (a, r, x)) = omega (arith, a, r, x)
Performs-total_units k (approve_cancel actor c id now) s t (n, (a, r, x)) = omega (arith, a, r, x)

-- A run of the ledger loses and creates no unit.
pub Runs-total_units :
    (k : String) (ops : List Operation) (s t : Stock)
    → Runs k ops s t
    → total_units t ≡ total_units s
Runs-total_units k [] s t e = ap total_units (sym e)
Runs-total_units k (op ∷ ops) s t (m, first, rest) =
    Runs-total_units k ops m t rest ∙ Performs-total_units k op s m first

unfoldable pub perform : Operation → Tx (Unit {0})
perform (start_payment order window source now) =
    acquire_payment_hold order window source now >> pure tt
perform (give_back_lines held now lines) = release_lines held now lines
perform (confirm keys actor command payment order now) =
    confirm_order keys actor command payment order now >> pure tt
perform (reserve_units actor command payload now) = reserve actor command payload now >> pure tt
perform (sweep skipped now) = expire_due_reservations skipped now >> pure tt
perform (approve_cancel actor command order_id now) =
    approve_cancellation actor command order_id now >> pure tt

unfoldable pub perform_all : List Operation → Tx (Unit {0})
perform_all [] = pure tt
perform_all (op ∷ ops) = let rest = perform_all ops in do perform op; rest
