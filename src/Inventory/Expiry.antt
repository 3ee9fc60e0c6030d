-- ===== src/Inventory/Expiry.antt =====
-- crates/service/src/expiry.rs: the sweep of the reservations that are due.
pub mod Log
pub mod Turn
pub mod Due
pub mod Laws
use pubky_marketplace_servic.Prelude.{
  ℕ, String, Bool, true, false, Option, none, some, List, [], ◌∷◌, ◌++◌, ◌==◌, string_key,
  option_key, ◌&&◌, ◌||◌, not, if◌then◌else◌, leb, ltb, ◌+◌, ◌-◌, write, any, map, is_some,
}
use pubky_marketplace_servic.Store.{
  ListingRow, ReservationRow, PaymentRow, OrderRow, Db, Tx, Outcome, done, refused, fault,
  row_not_found, protocol, ◌>>=◌, ◌>>◌, pure, fail, gets, Command, insert_event,
}
use pubky_marketplace_servic.Inventory.Holds.{reserved, released}
use pubky_marketplace_servic.Drops.Gate.{credit_drop_release}

-- The subquery: a Paykit order of this auction and buyer whose payment still needs the seller.
unfoldable pub is_preserved : ReservationRow → Db → Bool
is_preserved reservation db =
    any
      (λ p. elim (db.orders p.order_id) [
        | none ↦ false
        | some o ↦
            o.auction_aggregate_id == some reservation.listing_aggregate_id
            && o.buyer_pubky == reservation.buyer_pubky
            && o.payment_method == some "bitcoin"
            && p.adapter == "paykit"
            && (o.paykit_request_state == some "awaiting_seller_confirmation"
                || p.state == "manual_review")
      ])
      db.payments

-- `skipped` are the ids of the rows that another transaction has locked.
unfoldable pub is_due : (String → Bool) → ℕ → Db → ReservationRow → Bool
is_due skipped now db r =
    r.status == "active"
    && leb r.expires_at now
    && not (is_some r.offer_award_id)
    && not (is_preserved r db)
    && not (skipped r.id)

-- `ORDER BY expires_at`
unfoldable pub insert_by_expiry : ReservationRow → List ReservationRow → List ReservationRow
insert_by_expiry r [] = r ∷ []
insert_by_expiry r (other ∷ others) =
    let rest = insert_by_expiry r others in
    if leb r.expires_at other.expires_at then r ∷ other ∷ others else other ∷ rest

unfoldable pub due_rows : (ReservationRow → Bool) → List ReservationRow → List ReservationRow
unfolding insert_by_expiry
due_rows due [] = []
due_rows due (r ∷ rows) =
    let rest = due_rows due rows in if due r then insert_by_expiry r rest else rest

-- `UPDATE reservations SET status = 'expired', updated_at = $2 WHERE id = $1 AND status = 'active'`
unfoldable pub flip : String → ℕ → ReservationRow → ReservationRow
flip id now r =
    if r.id == id && r.status == "active"
    then record r { status = "expired"; updated_at = now }
    else r

unfoldable pub is_active_row : String → ReservationRow → Bool
is_active_row id r = r.id == id && r.status == "active"

unfoldable pub credit_stamped : ReservationRow → ℕ → Tx (Unit {0})
credit_stamped reservation now = elim reservation.drop_aggregate_id [
  | none ↦ pure tt
  | some drop_aggregate_id ↦ do
    credited ←
        credit_drop_release drop_aggregate_id reservation.buyer_pubky reservation.quantity now
    if credited then pure tt else fail protocol
]

unfoldable pub return_stock : ReservationRow → ℕ → Tx ListingRow
return_stock reservation now db = elim (db.listings reservation.listing_aggregate_id) [
  | none ↦ fault row_not_found
  | some row ↦
      if leb reservation.quantity row.reserved_quantity
      then done (released reserved reservation.quantity now row) (record db {
        listings =
            write db.listings reservation.listing_aggregate_id
              (released reserved reservation.quantity now row);
      })
      else fault row_not_found
]

unfoldable pub expiry_command : ReservationRow → Command
expiry_command reservation = record {
  command_id = reservation.id;
  aggregate_id = reservation.listing_aggregate_id;
  expected_revision = 0;
}

-- The writes for a flipped row.
unfoldable pub give_back : ReservationRow → ℕ → Tx (Unit {0})
unfolding credit_stamped insert_event expiry_command
give_back reservation now = do
  credit_stamped reservation now
  listing ← return_stock reservation now
  insert_event (expiry_command reservation) reservation.listing_aggregate_id listing.server_revision
      reservation.buyer_pubky "inventory.reservation_expired" now
  pure tt

unfoldable pub flipped : String → ℕ → Db → Db
flipped id now db = record db { reservations = map (flip id now) db.reservations }

-- One turn of the loop, and how many rows it expired.
unfoldable pub expire_one : ReservationRow → ℕ → Tx ℕ
expire_one reservation now db =
    if any (is_active_row reservation.id) db.reservations
    then (give_back reservation now >> pure 1) (flipped reservation.id now db)
    else done 0 db

unfoldable pub expire_all : List ReservationRow → ℕ → Tx ℕ
expire_all [] now = pure 0
expire_all (reservation ∷ due) now =
    let rest = expire_all due now in
    do expired ← expire_one reservation now; more ← rest; pure (expired + more)

unfoldable pub expire_due_reservations : (String → Bool) → ℕ → Tx ℕ
expire_due_reservations skipped now = do
  due ← gets (λ db. due_rows (is_due skipped now db) db.reservations)
  expire_all due now
