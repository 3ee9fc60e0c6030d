-- ===== src/Inventory/Reservations/Laws.antt =====
-- crates/service/src/handlers/reserve_inventory.rs: what a reservation that succeeds has done.
use pubky_marketplace_servic.Prelude.{
  ℕ, String, true, false, Option, none, some, [], ◌∷◌, ◌++◌, string_key, option_key, nat_key, ◌≡◌,
  ◌≢◌, ◌≤◌, ◌<◌, ◌+◌, ◌⊎◌, inl, inr, refl, ap, ◌∙◌, any, write, arith, eq_iff, Option-cases,
}
use pubky_marketplace_servic.Domain.Machines.{can_transition, listing_machine}
use pubky_marketplace_servic.Store.{
  ListingRow, ReservationRow, DropRow, EventRow, Db, Command, done, >>=-eq-done, >>-eq-done, pure,
  insert_event,
}
use pubky_marketplace_servic.Orders.Action.{HandlerSuccess}
use pubky_marketplace_servic.Inventory.Holds.{is_deleted, reserved_by, seconds}
use pubky_marketplace_servic.Inventory.Listings.{fetch_live_listing, live_stored}
use pubky_marketplace_servic.Drops.Binding.{lock_bound_drop}
use pubky_marketplace_servic.Drops.Gate.{enforce_drop_gate}
use pubky_marketplace_servic.Inventory.Reservations.{
  ReserveInventoryPayload, gate_bound, swap_listing, new_reservation, insert_reservation,
  record_hold, log_reserved, reserved_state, hold_stock, reserve,
}
use pubky_marketplace_servic.Inventory.Reservations.Totals.{has_id}
use pubky_marketplace_servic.Inventory.Reservations.Gating.{Elsewhere, enforce_drop_gate-Elsewhere}

-- The writes of a reservation: one listing and one new active row, whose id was free, and one event.
pub record Held (actor : String) (c : Command) (p : ReserveInventoryPayload) (l : ListingRow)
    (stamp : Option String) (now : ℕ) (db db' : Db) (s : HandlerSuccess) : Type 0 where
  pub checked : c.expected_revision ≡ l.server_revision
  pub enough : p.quantity ≤ l.available_quantity
  pub edge : can_transition listing_machine l.state (reserved_by p.quantity now l).state ≡ true
  pub positive : 0 < p.quantity
  pub fresh : any (has_id c.command_id) db.reservations ≡ false
  pub stored : db'.listings ≡ write db.listings c.aggregate_id (reserved_by p.quantity now l)
  pub inserted : db'.reservations ≡ db.reservations ++ new_reservation actor c p stamp now ∷ []
  pub units_taken :
      (reserved_by p.quantity now l).available_quantity + p.quantity ≡ l.available_quantity
  pub units_held :
      (reserved_by p.quantity now l).reserved_quantity ≡ l.reserved_quantity + p.quantity
  pub units_sold : (reserved_by p.quantity now l).sold_quantity ≡ l.sold_quantity
  pub row_id : (new_reservation actor c p stamp now).id ≡ c.command_id
  pub row_listing : (new_reservation actor c p stamp now).listing_aggregate_id ≡ c.aggregate_id
  pub row_buyer : (new_reservation actor c p stamp now).buyer_pubky ≡ actor
  pub row_units : (new_reservation actor c p stamp now).quantity ≡ p.quantity
  pub row_status : (new_reservation actor c p stamp now).status ≡ "active"
  pub row_expiry :
      (new_reservation actor c p stamp now).expires_at ≡ now + seconds p.reservation_ttl_seconds
  pub row_stamp : (new_reservation actor c p stamp now).drop_aggregate_id ≡ stamp
  pub event : EventRow
  pub logged : db'.events ≡ db.events ++ event ∷ []
  pub event_kind : event.kind ≡ "inventory.reserved"
  pub event_revision : event.revision ≡ s.revision
  pub orders : db'.orders ≡ db.orders
  pub payments : db'.payments ≡ db.payments
  pub drops : db'.drops ≡ db.drops
  pub purchases : db'.drop_purchases ≡ db.drop_purchases
  pub reported : s.revision ≡ l.server_revision + 1

insert_reservation_done :
    (row : ReservationRow) (db mid : Db)
    → insert_reservation row db ≡ done tt mid
    → (any (has_id row.id) db.reservations ≡ false)
      × (0 < row.quantity)
      × (mid ≡ record db { reservations = db.reservations ++ row ∷ [] })
unfolding insert_reservation
insert_reservation_done row db mid h = (ground arith, ground arith, ground arith)

swap_listing_done :
    (c : Command) (l updated : ListingRow) (quantity now : ℕ) (db mid : Db)
    → db.listings c.aggregate_id ≡ some l
    → swap_listing c quantity now db ≡ done updated mid
    → (c.expected_revision ≡ l.server_revision)
      × (quantity ≤ l.available_quantity)
      × (updated ≡ reserved_by quantity now l)
      × (mid
          ≡ record db { listings = write db.listings c.aggregate_id (reserved_by quantity now l) })
unfolding swap_listing
swap_listing_done c l updated quantity now db mid found h =
    (ground arith, ground arith, ground arith, ground arith)

abbrev logged : String → Command → ListingRow → ℕ → Db → EventRow
logged actor c updated now db = record {
  id = db.uuids db.drawn;
  command_id = c.command_id;
  aggregate_id = c.aggregate_id;
  revision = updated.server_revision;
  actor_pubky = actor;
  kind = "inventory.reserved";
  occurred_at = now;
}

hold_stock-Held :
    (actor : String) (c : Command) (l : ListingRow) (p : ReserveInventoryPayload)
    (stamp : Option String) (now : ℕ) (db db' : Db) (s : HandlerSuccess)
    → db.listings c.aggregate_id ≡ some l
    → hold_stock actor c l p stamp now db ≡ done s db'
    → Held actor c p l stamp now db db' s
unfolding hold_stock record_hold reserved_state reserved_by new_reservation log_reserved
    insert_event
hold_stock-Held actor c l p stamp now db db' s found h =
    let allowed = can_transition listing_machine l.state (reserved_state l p.quantity) in
    let tail = λ (u : ListingRow). record_hold actor c p stamp now u in
    let (updated, mid, swapped, rest) =
      >>=-eq-done (swap_listing c p.quantity now) tail db db' s (ground arith) in
    let row = new_reservation actor c p stamp now in
    let (_, held, inserted, ended) =
      >>-eq-done (insert_reservation row) (log_reserved actor c updated now) mid db' s rest in
    let (checked, enough, put, mid_rows) =
      swap_listing_done c l updated p.quantity now db mid found swapped in
    let (fresh, positive, held_rows) = insert_reservation_done row mid held inserted in
    record {
      checked = checked;
      enough = enough;
      edge = ground arith;
      positive = ground (arith, positive);
      fresh = ground (arith, fresh, mid_rows);
      stored = ground arith;
      inserted = ground arith;
      units_taken = ground (arith, enough);
      units_held = refl;
      units_sold = refl;
      row_id = refl;
      row_listing = refl;
      row_buyer = refl;
      row_units = refl;
      row_status = refl;
      row_expiry = refl;
      row_stamp = refl;
      event = logged actor c updated now held;
      logged = ground arith;
      event_kind = refl;
      event_revision = ground arith;
      orders = ground arith;
      payments = ground arith;
      drops = ground arith;
      purchases = ground arith;
      reported = ground arith;
    }

-- How the gate of a bound drop was passed, and the stamp that it left.
abbrev pub Gated :
    String → Command → ReserveInventoryPayload → ListingRow → Option String → ℕ → Db → Db → Type 0
Gated actor c p l stamp now db mid =
    ((lock_bound_drop l.seller_pubky l.listing_id db ≡ none) × (stamp ≡ none) × (mid ≡ db))
    ⊎ ((d : DropRow) × (d' : DropRow) × (lock_bound_drop l.seller_pubky l.listing_id db ≡ some d)
        × (p.quantity ≡ 1)
        × (stamp ≡ some d'.aggregate_id)
        × (enforce_drop_gate d actor 1 c now db ≡ done d' mid))

gate_bound-Gated :
    (actor : String) (c : Command) (p : ReserveInventoryPayload) (l : ListingRow)
    (stamp : Option String) (now : ℕ) (db mid : Db)
    → gate_bound (lock_bound_drop l.seller_pubky l.listing_id db) actor p.quantity c now db
      ≡ done stamp mid
    → Gated actor c p l stamp now db mid
unfolding gate_bound
gate_bound-Gated actor c p l stamp now db mid h =
    elim (Option-cases (lock_bound_drop l.seller_pubky l.listing_id db)) [
      | inl free ↦ inl (free, ground arith, ground arith)
      | inr (d, bound) ↦
          let (d', held, gate, ended) =
            >>=-eq-done (enforce_drop_gate d actor 1 c now)
              (λ (x : DropRow). pure (some x.aggregate_id)) db mid stamp (ground arith) in
          inr (d, d', bound, ground arith, ground arith, ground arith)
    ]

pub Gated-Elsewhere :
    (actor : String) (c : Command) (p : ReserveInventoryPayload) (l : ListingRow)
    (stamp : Option String) (now : ℕ) (db mid : Db)
    → Gated actor c p l stamp now db mid
    → Elsewhere db mid
Gated-Elsewhere actor c p l stamp now db mid (inl (free, stamped, e)) = record {
  listings = ap (λ d. d.listings) e;
  orders = ap (λ d. d.orders) e;
  reservations = ap (λ d. d.reservations) e;
  payments = ap (λ d. d.payments) e;
  receipts = ap (λ d. d.receipts) e;
}
Gated-Elsewhere actor c p l stamp now db mid (inr (d, d', bound, one, stamped, passed)) =
    enforce_drop_gate-Elsewhere d d' actor 1 now c db mid passed

module _ (actor : String) (c : Command) (p : ReserveInventoryPayload) (now : ℕ) (db db' : Db)
    (s : HandlerSuccess) where
  -- A reservation succeeds only on a listing that is not deleted, by somebody else than its seller, at
  -- its current revision, with the units in stock and, if a drop binds it, one unit through the drop's
  -- gate. It moves the units from available to reserved along a permitted transition, inserts one
  -- active reservation of the command's id with the expiry asked for, and logs one event.
  pub reserve-Held :
      reserve actor c p now db ≡ done s db'
      → (l : ListingRow) × (stamp : Option String) × (mid : Db) × (db.listings c.aggregate_id
          ≡ some l)
        × (is_deleted l ≡ false)
        × (l.seller_pubky ≢ actor)
        × (mid.listings ≡ db.listings)
        × Gated actor c p l stamp now db mid
        × Held actor c p l stamp now mid db' s
  unfolding reserve
  reserve-Held h = elim (Option-cases (fetch_live_listing c.aggregate_id db)) [
    | inl missing ↦ absurd (ground arith)
    | inr (l, live) ↦
        let (found, kept) = live_stored c.aggregate_id db l live in
        let (stamp, mid, gate, held) =
          >>=-eq-done
            (gate_bound (lock_bound_drop l.seller_pubky l.listing_id db) actor p.quantity c now)
            (λ x. hold_stock actor c l p x now) db db' s (ground arith) in
        let gated = gate_bound-Gated actor c p l stamp now db mid gate in
        let same = Gated-Elsewhere actor c p l stamp now db mid gated in
        (
          l,
          stamp,
          mid,
          found,
          kept,
          λ e. ground (arith, eq_iff l.seller_pubky actor),
          same.listings,
          gated,
          hold_stock-Held actor c l p stamp now mid db' s
              (ap (λ t. t c.aggregate_id) same.listings ∙ found) held,
        )
  ]
