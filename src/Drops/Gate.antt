-- ===== src/Drops/Gate.antt =====
-- crates/service/src/handlers/drops.rs: the gate that debits a drop, and the credit of a release.
pub mod Laws
use pubky_marketplace_servic.Prelude.{
  ℕ, String, Bool, true, false, Option, none, some, List, [], ◌∷◌, ◌==◌, string_key, nat_key, ◌&&◌,
  ◌||◌, not, if◌then◌else◌, leb, ltb, ◌+◌, ◌-◌, write, is_some,
}
use pubky_marketplace_servic.Domain.ErrorCode.{ErrorCode}
use pubky_marketplace_servic.Store.{
  DropRow, DropPurchaseRow, Db, Tx, RefusalKind, CommandFailure, failure, Outcome, done, refused,
  fault, constraint, ◌>>=◌, ◌>>◌, pure, refuse_if, gets, modify, Command,
}
use pubky_marketplace_servic.Drops.Lifecycle.{update_drop, apply_time_transitions}

-- The units that a buyer holds of a drop: `held.map(…).unwrap_or(0)`.
unfoldable pub purchased : String → String → Db → ℕ
purchased drop_aggregate_id buyer db = elim (db.drop_purchases drop_aggregate_id buyer) [
  | none ↦ 0
  | some row ↦ row.quantity
]

unfoldable pub debit_drop : ℕ → ℕ → DropRow → DropRow
debit_drop units now row = record row {
  remaining_quantity = row.remaining_quantity - units;
  revision = row.revision + 1;
  updated_at = now;
}

-- `INSERT … ON CONFLICT … DO UPDATE SET quantity = drop_purchases.quantity + EXCLUDED.quantity`,
-- with the constraint `drop_purchases_within_limit` on the resulting row.
add_purchase : String → String → ℕ → ℕ → Tx (Unit {0})
add_purchase drop_aggregate_id buyer units per_buyer_limit db =
    let row : DropPurchaseRow = elim (db.drop_purchases drop_aggregate_id buyer) [
      | none ↦ record { quantity = units; per_buyer_limit = per_buyer_limit }
      | some old ↦ record old { quantity = old.quantity + units }
    ] in
    if leb row.quantity row.per_buyer_limit
    then done tt (record db {
      drop_purchases =
          λ d b. if d == drop_aggregate_id && b == buyer then some row else db.drop_purchases d b;
    })
    else fault constraint

refuse_unless_live : String → Tx (Unit {0})
refuse_unless_live state = do
  refuse_if (state == "announced")
      (failure RefusalKind.invalid_state ErrorCode.invalid_state "The drop has not started.")
  refuse_if (not (state == "live"))
      (failure RefusalKind.invalid_state ErrorCode.invalid_state "The drop has ended.")

-- The checks and the debit of a drop whose due transitions have been applied.
unfoldable pub debit_live_drop : DropRow → String → ℕ → ℕ → Tx DropRow
unfolding refuse_unless_live purchased update_drop add_purchase
debit_live_drop drop buyer units now = do
  refuse_unless_live drop.state
  refuse_if (ltb drop.remaining_quantity units) (
      failure RefusalKind.insufficient_inventory ErrorCode.insufficient_inventory
        "The drop is sold out.")
  held ← gets (purchased drop.aggregate_id buyer)
  refuse_if (ltb drop.per_buyer_limit (held + units)) (
      failure RefusalKind.invalid_state ErrorCode.invalid_state
        "You have reached this drop's per-buyer limit.")
  debited ← update_drop drop.aggregate_id (debit_drop units now)
  add_purchase drop.aggregate_id buyer units drop.per_buyer_limit
  pure debited

unfoldable pub enforce_drop_gate : DropRow → String → ℕ → Command → ℕ → Tx DropRow
enforce_drop_gate drop buyer units command now = do
  current ← apply_time_transitions drop command now
  debit_live_drop current buyer units now

unfoldable pub credit_drop : ℕ → ℕ → DropRow → DropRow
credit_drop units now row = record row {
  remaining_quantity = row.remaining_quantity + units;
  revision = row.revision + 1;
  updated_at = now;
}

-- The two guarded UPDATEs of a release: `false` when either matches no row.
unfoldable pub credit_drop_release : String → String → ℕ → ℕ → Tx Bool
credit_drop_release drop_aggregate_id buyer units now db = elim (db.drops drop_aggregate_id) [
  | none ↦ done false db
  | some drop ↦
      if not (leb (drop.remaining_quantity + units) drop.total_quantity)
      then done false db
      else let credited : Db = record db {
        drops = write db.drops drop_aggregate_id (credit_drop units now drop);
      } in
        elim (db.drop_purchases drop_aggregate_id buyer) [
          | none ↦ done false credited
          | some row ↦
              if leb units row.quantity
              then done true (record credited {
                drop_purchases = λ d b.
                    if d == drop_aggregate_id && b == buyer
                    then some (record row { quantity = row.quantity - units })
                    else db.drop_purchases d b;
              })
              else done false credited
        ]
]
