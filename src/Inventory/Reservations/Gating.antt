-- ===== src/Inventory/Reservations/Gating.antt =====
-- crates/service/src/handlers/drops.rs: the tables that the gate writes, and by how much.
use pubky_marketplace_servic.Prelude.{
  ℕ, String, some, ◌==◌, string_key, ◌&&◌, ◌≡◌, ◌+◌, ◌∙◌, inl, inr, ap, subst, if◌then◌else◌, arith,
  eq_iff, Option-cases, Bool-cases,
}
use pubky_marketplace_servic.Store.{DropRow, Db, Command, done, >>=-eq-done}
use pubky_marketplace_servic.Drops.Lifecycle.{
  is_active_state, derived_state, apply_time_transitions, transition_drop, moved_to,
  deactivate_drop_listing_bindings,
}
use pubky_marketplace_servic.Drops.Gate.{purchased, debit_drop, debit_live_drop, enforce_drop_gate}
use pubky_marketplace_servic.Inventory.Reservations.Totals.{handed_out, WithinTotals}

-- Tables that the drop writes leave alone.
pub record Elsewhere (db db' : Db) : Type 0 where
  pub listings : db'.listings ≡ db.listings
  pub orders : db'.orders ≡ db.orders
  pub reservations : db'.reservations ≡ db.reservations
  pub payments : db'.payments ≡ db.payments
  pub receipts : db'.receipts ≡ db.receipts

module _ (drop drop' : DropRow) (now : ℕ) (db db' : Db) where
  pub apply_time_transitions-Elsewhere :
      (c : Command) → apply_time_transitions drop c now db ≡ done drop' db' → Elsewhere db db'
  unfolding apply_time_transitions transition_drop deactivate_drop_listing_bindings
  apply_time_transitions-Elsewhere c h = elim (Option-cases (db.drops drop.aggregate_id)) [
    | inl missing ↦ record {
      listings = ground arith;
      orders = ground arith;
      reservations = ground arith;
      payments = ground arith;
      receipts = ground arith;
    }
    | inr (row, found) ↦ record {
      listings = ground arith;
      orders = ground arith;
      reservations = ground arith;
      payments = ground arith;
      receipts = ground arith;
    }
  ]

  debit_live_drop-Elsewhere :
      (buyer : String) (units : ℕ)
      → debit_live_drop drop buyer units now db ≡ done drop' db'
      → Elsewhere db db'
  unfolding debit_live_drop purchased
  debit_live_drop-Elsewhere buyer units h = elim (Option-cases (db.drops drop.aggregate_id)) [
    | inl missing ↦ absurd (ground arith)
    | inr (row, found) ↦ record {
      listings = ground arith;
      orders = ground arith;
      reservations = ground arith;
      payments = ground arith;
      receipts = ground arith;
    }
  ]

pub enforce_drop_gate-Elsewhere :
    (drop drop' : DropRow) (buyer : String) (units now : ℕ) (c : Command) (db db' : Db)
    → enforce_drop_gate drop buyer units c now db ≡ done drop' db'
    → Elsewhere db db'
unfolding enforce_drop_gate
enforce_drop_gate-Elsewhere drop drop' buyer units now c db db' h =
    let (mid_drop, mid, first, second) =
      >>=-eq-done (apply_time_transitions drop c now) (λ x. debit_live_drop x buyer units now) db
        db' drop' h in
    let one = apply_time_transitions-Elsewhere drop mid_drop now db mid c first in
    let two = debit_live_drop-Elsewhere mid_drop drop' now mid db' buyer units second in
    record {
      listings = two.listings ∙ one.listings;
      orders = two.orders ∙ one.orders;
      reservations = two.reservations ∙ one.reservations;
      payments = two.payments ∙ one.payments;
      receipts = two.receipts ∙ one.receipts;
    }

-- `units` units of one drop went to a buyer, and nothing else moved.
pub record Handed (d : String) (buyer : String) (units : ℕ) (db db' : Db) : Type 0 where
  pub out : (j : String) → handed_out j db' ≡ handed_out j db + (if j == d then units else 0)
  pub counts :
      (j b : String)
      → purchased j b db' ≡ purchased j b db + (if j == d && b == buyer then units else 0)
  pub within : WithinTotals db'

module _ (drop : DropRow) (now : ℕ) (db : Db) (found : db.drops drop.aggregate_id ≡ some drop)
    (within : WithinTotals db) where
  transition_Handed :
      (c : Command) (target : String) (drop' : DropRow) (mid : Db)
      → transition_drop drop target c now db ≡ done drop' mid
      → (drop'.aggregate_id ≡ drop.aggregate_id)
        × (mid.drops drop.aggregate_id ≡ some drop')
        × Handed drop.aggregate_id "" 0 db mid
  unfolding transition_drop moved_to purchased deactivate_drop_listing_bindings
  transition_Handed c target drop' mid h = (
    ground (arith),
    ground (arith, eq_iff drop.aggregate_id drop.aggregate_id),
    record {
      out = λ j.
          ground (arith, eq_iff j drop.aggregate_id, ap db.drops {x = j} {y = drop.aggregate_id});
      counts = λ j b. ground arith;
      within = λ j x at.
          ground
            (arith, within j x, within drop.aggregate_id drop found, eq_iff j drop.aggregate_id);
    },
  )

  apply_time_transitions-Handed :
      (c : Command) (drop' : DropRow) (mid : Db)
      → apply_time_transitions drop c now db ≡ done drop' mid
      → (drop'.aggregate_id ≡ drop.aggregate_id)
        × (mid.drops drop.aggregate_id ≡ some drop')
        × Handed drop.aggregate_id "" 0 db mid
  unfolding apply_time_transitions
  apply_time_transitions-Handed c drop' mid h = elim (Bool-cases (is_active_state drop.state)) [
    | inl active ↦
        let target = derived_state drop.starts_at drop.ends_at now in
        elim (Bool-cases (target == drop.state)) [
          | inl due ↦ same (ground arith)
          | inr moved ↦ transition_Handed c target drop' mid (ground arith)
        ]
    | inr ended ↦ same (ground arith)
  ]
    where
      same :
          done drop db ≡ done drop' mid
          → (drop'.aggregate_id ≡ drop.aggregate_id)
            × (mid.drops drop.aggregate_id ≡ some drop')
            × Handed drop.aggregate_id "" 0 db mid
      same e = (
        ground arith,
        ground arith,
        record {
          out = λ j. ground arith;
          counts = λ j b. ground arith;
          within = λ j x at. ground (arith, within j x);
        },
      )

  debit_live_drop-Handed :
      (buyer : String) (units : ℕ) (drop' : DropRow) (db' : Db)
      → debit_live_drop drop buyer units now db ≡ done drop' db'
      → (drop'.aggregate_id ≡ drop.aggregate_id) × Handed drop.aggregate_id buyer units db db'
  unfolding debit_live_drop debit_drop purchased
  debit_live_drop-Handed buyer units drop' db' h = (
    ground arith,
    record {
      out = λ j. ground (
        arith,
        eq_iff j drop.aggregate_id,
        ap db.drops {x = j} {y = drop.aggregate_id},
        within drop.aggregate_id drop found,
      );
      counts = λ j b. ground (
        arith,
        eq_iff j drop.aggregate_id,
        eq_iff b buyer,
        ap (λ i. db.drop_purchases i buyer) {x = j} {y = drop.aggregate_id},
        ap (db.drop_purchases j) {x = b} {y = buyer},
      );
      within = λ j x at.
          ground
            (arith, within j x, within drop.aggregate_id drop found, eq_iff j drop.aggregate_id);
    },
  )

-- What the gate debits is handed out to the buyer.
pub enforce_drop_gate-Handed :
    (drop drop' : DropRow) (buyer : String) (units now : ℕ) (c : Command) (db db' : Db)
    → db.drops drop.aggregate_id ≡ some drop
    → WithinTotals db
    → enforce_drop_gate drop buyer units c now db ≡ done drop' db'
    → (drop'.aggregate_id ≡ drop.aggregate_id) × Handed drop.aggregate_id buyer units db db'
unfolding enforce_drop_gate
enforce_drop_gate-Handed drop drop' buyer units now c db db' found within h =
    let (mid_drop, mid, first, second) =
      >>=-eq-done (apply_time_transitions drop c now) (λ x. debit_live_drop x buyer units now) db
        db' drop' h in
    let (same, put, none_yet) =
      apply_time_transitions-Handed drop now db found within c mid_drop mid first in
    let (same2, handed) =
      debit_live_drop-Handed mid_drop now mid (ap mid.drops same ∙ put) none_yet.within buyer units
        drop' db' second in
    let gave : Handed drop.aggregate_id buyer units mid db' =
      subst (λ i. Handed i buyer units mid db') same handed in
    (
      same2 ∙ same,
      record {
        out = λ j. ground (arith, gave.out j, none_yet.out j);
        counts = λ j b. ground (arith, gave.counts j b, none_yet.counts j b);
        within = gave.within;
      },
    )
