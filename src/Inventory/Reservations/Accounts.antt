-- ===== src/Inventory/Reservations/Accounts.antt =====
-- crates/service/src/handlers/reserve_inventory.rs: the books after a reservation.
use pubky_marketplace_servic.Prelude.{
  ℕ, String, Bool, true, false, Option, some, List, [], ◌∷◌, ◌++◌, ◌==◌, string_key, option_key,
  ◌&&◌, ◌||◌, ◌≡◌, ◌+◌, inl, inr, refl, ap, sym, ◌∙◌, subst, if◌then◌else◌, any, all, ltb, arith,
  eq_iff, Bool-cases, Option-cases,
}
use pubky_marketplace_servic.Store.{
  ListingRow, ReservationRow, DropRow, DropListingRow, Db, Command, done,
}
use pubky_marketplace_servic.Domain.Ids.{listing_aggregate_id}
use pubky_marketplace_servic.Orders.Action.{HandlerSuccess}
use pubky_marketplace_servic.Inventory.Holds.{reserved_by}
use pubky_marketplace_servic.Drops.Binding.{
  Binding, joined, earlier, first_binding, lock_bound_drop, comes_before,
}
use pubky_marketplace_servic.Drops.Gate.{purchased}
use pubky_marketplace_servic.Inventory.Reservations.{
  ReserveInventoryPayload, new_reservation, reserve,
}
use pubky_marketplace_servic.Inventory.Reservations.Totals.{
  active_total, share, has_id, is_distinct, of_listing, of_drop, of_buyer, handed_out, WithinTotals,
  IsAccounted,
}
use pubky_marketplace_servic.Inventory.Reservations.Gating.{enforce_drop_gate-Handed}
use pubky_marketplace_servic.Inventory.Reservations.Laws.{Gated, Gated-Elsewhere, reserve-Held}

-- The table of drops is keyed by the row's own id.
abbrev pub DropsKeyed : Db → Type 0
DropsKeyed db = (k : String) (d : DropRow) → db.drops k ≡ some d → d.aggregate_id ≡ k

joined-stored :
    (seller listing : String) (db : Db) (row : DropListingRow) (b : Binding)
    → joined seller listing db row ≡ some b
    → (k : String) × (db.drops k ≡ some b.drop)
unfolding joined
joined-stored seller listing db row b h =
    elim (Option-cases (db.listings (listing_aggregate_id seller listing))) [
      | inl missing ↦ absurd (ground arith)
      | inr (l, found) ↦ elim (Option-cases (db.drops row.drop_aggregate_id)) [
        | inl unknown ↦ absurd (ground arith)
        | inr (d, stored) ↦ (row.drop_aggregate_id, ground arith)
      ]
    ]

first_binding-stored :
    (seller listing : String) (db : Db) (rows : List DropListingRow) (b : Binding)
    → first_binding seller listing db rows ≡ some b
    → (k : String) × (db.drops k ≡ some b.drop)
unfolding first_binding earlier
first_binding-stored seller listing db [] b h = absurd (ground arith)
first_binding-stored seller listing db (row ∷ rows) b h =
    elim (Option-cases (joined seller listing db row)) [
      | inl unbound ↦ first_binding-stored seller listing db rows b (ground arith)
      | inr (x, bound) ↦ elim (Option-cases (first_binding seller listing db rows)) [
        | inl alone ↦ joined-stored seller listing db row b (ground arith)
        | inr (y, other) ↦ elim (Bool-cases (comes_before db.collates y x)) [
          | inl later ↦ first_binding-stored seller listing db rows b (ground arith)
          | inr first ↦ joined-stored seller listing db row b (ground arith)
        ]
      ]
    ]

lock_bound_drop-stored :
    (seller listing : String) (db : Db) (d : DropRow)
    → DropsKeyed db
    → lock_bound_drop seller listing db ≡ some d
    → db.drops d.aggregate_id ≡ some d
unfolding lock_bound_drop
lock_bound_drop-stored seller listing db d keyed h =
    elim (Option-cases (first_binding seller listing db db.drop_listings)) [
      | inl unbound ↦ absurd (ground arith)
      | inr (b, bound) ↦
          let (k, stored) = first_binding-stored seller listing db db.drop_listings b bound in
          let same : b.drop ≡ d = ground arith in
          let at_k : db.drops k ≡ some d = stored ∙ ap some same in
          ap db.drops (keyed k d at_k) ∙ at_k
    ]

-- What the gate did to the drops, by the stamp that it left.
record Entered (stamp : Option String) (actor : String) (units : ℕ) (db mid : Db) : Type 0 where
  out : (j : String) → handed_out j mid ≡ handed_out j db + (if stamp == some j then units else 0)
  counts :
      (j b : String)
      → purchased j b mid ≡ purchased j b db + (if stamp == some j && actor == b then units else 0)
  within : WithinTotals mid

module _ (actor : String) (c : Command) (p : ReserveInventoryPayload) (l : ListingRow)
    (stamp : Option String) (now : ℕ) (db mid : Db) (keyed : DropsKeyed db)
    (within : WithinTotals db) where
  Gated-Entered : Gated actor c p l stamp now db mid → Entered stamp actor p.quantity db mid
  unfolding purchased
  Gated-Entered (inl (free, stamped, e)) =
      subst (λ x. Entered stamp actor p.quantity db x) (sym e)
        (record { out = λ j. ground arith; counts = λ j b. ground arith; within = within })
  Gated-Entered (inr (d, d', bound, one, stamped, passed)) =
      let (same, handed) =
        enforce_drop_gate-Handed d d' actor 1 now c db mid
          (lock_bound_drop-stored l.seller_pubky l.listing_id db d keyed bound) within passed in
      let stamp_is : stamp ≡ some d.aggregate_id = stamped ∙ ap some same in
      record {
        out = λ j. ground (arith, handed.out j, eq_iff j d.aggregate_id, eq_iff d.aggregate_id j);
        counts = λ j b. ground (
          arith,
          handed.counts j b,
          eq_iff j d.aggregate_id,
          eq_iff d.aggregate_id j,
          eq_iff b actor,
          eq_iff actor b,
        );
        within = handed.within;
      }

active_total-append :
    (q : ReservationRow → Bool) (rows : List ReservationRow) (r : ReservationRow)
    → r.status ≡ "active"
    → active_total q (rows ++ r ∷ []) ≡ active_total q rows + share q r
active_total-append q [] r active = ground (arith, eq_iff r.status "active")
active_total-append q (x ∷ rows) r active = ground (arith, active_total-append q rows r active)

any-append :
    (q : ReservationRow → Bool) (rows : List ReservationRow) (r : ReservationRow)
    → any q (rows ++ r ∷ []) ≡ (any q rows || q r)
any-append q [] r = ground arith
any-append q (x ∷ rows) r = ground (arith, any-append q rows r)

all-append :
    (q : ReservationRow → Bool) (rows : List ReservationRow) (r : ReservationRow)
    → all q (rows ++ r ∷ []) ≡ (all q rows && q r)
all-append q [] r = ground arith
all-append q (x ∷ rows) r = ground (arith, all-append q rows r)

distinct-append :
    (rows : List ReservationRow) (r : ReservationRow)
    → is_distinct rows ≡ true
    → any (has_id r.id) rows ≡ false
    → is_distinct (rows ++ r ∷ []) ≡ true
distinct-append [] r distinct fresh = refl
distinct-append (x ∷ rows) r distinct fresh = ground (
  arith,
  any-append (has_id x.id) rows r,
  distinct-append rows r,
  eq_iff x.id r.id,
  eq_iff r.id x.id,
)

-- A reservation keeps the reservations accounted to their listings, their drops and their buyers'
-- counts, whether or not a drop binds the listing.
pub reserve-IsAccounted :
    (actor : String) (c : Command) (p : ReserveInventoryPayload) (now : ℕ) (db db' : Db)
    (s : HandlerSuccess)
    → DropsKeyed db
    → IsAccounted db
    → reserve actor c p now db ≡ done s db'
    → IsAccounted db'
unfolding purchased reserved_by new_reservation
reserve-IsAccounted actor c p now db db' s keyed sound h =
    let (l, stamp, mid, found, live, other, listings, gated, held) =
      reserve-Held actor c p now db db' s h in
    let same = Gated-Elsewhere actor c p l stamp now db mid gated in
    let entered = Gated-Entered actor c p l stamp now db mid keyed sound.within gated in
    let row = new_reservation actor c p stamp now in
    let rows : db'.reservations ≡ db.reservations ++ row ∷ [] =
      held.inserted ∙ ap (λ r. r ++ row ∷ []) same.reservations in
    let more = λ (q : ReservationRow → Bool). active_total-append q db.reservations row refl in
    let fresh : any (has_id c.command_id) db.reservations ≡ false =
      sym (ap (any (has_id c.command_id)) same.reservations) ∙ held.fresh in
    record {
      distinct = ap is_distinct rows ∙ distinct-append db.reservations row sound.distinct fresh;
      positive =
          ap (all (λ r. ltb 0 r.quantity)) rows
          ∙ all-append (λ r. ltb 0 r.quantity) db.reservations row
          ∙ ground (arith, sound.positive, held.positive);
      within = λ d x at. entered.within d x (sym (ap (λ t. t d) held.drops) ∙ at);
      in_stock = λ k. rw rows (
          ground (
            arith,
            more (of_listing k),
            sound.in_stock k,
            ap (λ t. t k) held.stored,
            found,
            listings,
            eq_iff k c.aggregate_id,
            eq_iff c.aggregate_id k,
            ap (λ t. t k) listings,
          ));
      in_drops = λ d. rw rows (
          ground
            (arith, more (of_drop d), sound.in_drops d, entered.out d, ap (λ t. t d) held.drops));
      in_counts = λ d b. rw rows (
          ground (
            arith,
            more (of_buyer d b),
            sound.in_counts d b,
            entered.counts d b,
            ap (λ t. t d b) held.purchases,
          ));
    }
