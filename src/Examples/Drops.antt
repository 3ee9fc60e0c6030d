-- ===== src/Examples/Drops.antt =====
-- A drop that opens, sells a unit, takes it back, and is cancelled.
use pubky_marketplace_servic.Prelude.{
  some, ◌≡◌, true, false, refl, write, string_key, arith, [], ◌∷◌, ◌+◌, eq_iff, arith, ℕ, ◌≤◌, ◌==◌,
  subst, inl, inr, Bool-cases, contains,
}
use pubky_marketplace_servic.Domain.Machines.{drop_machine, can_transition}
use pubky_marketplace_servic.Store.{DropRow, Outcome, Db, done, Command, clashes}
use pubky_marketplace_servic.Orders.Action.{HandlerSuccess}
use pubky_marketplace_servic.Drops.Lifecycle.{
  apply_time_transitions, effective_state, moved_to, derived_state, is_active_state,
  transition_drop, drop_event,
}
use pubky_marketplace_servic.Drops.Lifecycle.Laws.{SameTerms, apply_time_transitions-effective}
use pubky_marketplace_servic.Drops.Gate.{
  enforce_drop_gate, debit_live_drop, credit_drop_release, purchased,
}
use pubky_marketplace_servic.Drops.Gate.Laws.{Debited, enforce_drop_gate-Debited, credit-gate}
use pubky_marketplace_servic.Drops.Commands.{
  release_listings, release_ended, cancel, record_paid_unit, pay_unit, end_if_sold_out,
  end_sold_out,
}
use pubky_marketplace_servic.Drops.Commands.Release.{all_released, release_listings_releases}
use pubky_marketplace_servic.Drops.Commands.Editions.{
  IsScheduled, state_after, record_paid_unit-edition,
}
use pubky_marketplace_servic.Examples.Samples.{empty_db, rows, success}

abbrev pub tee : DropRow
tee = record {
  aggregate_id = "drop:sam/tee";
  seller_pubky = "sam";
  drop_id = "tee";
  record_revision = 1;
  revision = 3;
  state = "announced";
  starts_at = 50;
  ends_at = some 500;
  total_quantity = 10;
  per_buyer_limit = 2;
  remaining_quantity = 10;
  paid_quantity = 0;
  updated_at = 5;
}

abbrev announced_db : Db
announced_db = record empty_db {
  drops = write empty_db.drops "drop:sam/tee" tee;
  drop_listings =
      record {
        drop_aggregate_id = "drop:sam/tee";
        seller_pubky = "sam";
        listing_id = "tee";
        active = true;
        released = false;
        listing_generation = 1;
      }
      ∷ [];
}

abbrev command : Command
command = record { command_id = "c1"; aggregate_id = "drop:sam/tee"; expected_revision = 3 }

abbrev drop_of : Outcome DropRow → DropRow
drop_of (done d db) = d
drop_of _ = tee

abbrev opened : Outcome DropRow
opened = apply_time_transitions tee command 60 announced_db

apply_time_transitions-effective_example :
    ((drop_of opened).state ≡ effective_state tee 60)
    × SameTerms tee (drop_of opened)
    × ((rows opened).drops "drop:sam/tee" ≡ some (drop_of opened))
    × (can_transition drop_machine "announced" (drop_of opened).state ≡ true)
unfolding apply_time_transitions drop_machine is_active_state derived_state transition_drop
apply_time_transitions-effective_example =
    apply_time_transitions-effective tee command 60 announced_db (rows opened) (drop_of opened) refl
      refl refl (λ e. cc)

abbrev bought : Outcome DropRow
bought = enforce_drop_gate tee "bea" 2 command 60 announced_db

enforce_drop_gate-Debited_example :
    (effective_state tee 60 ≡ "live")
    × Debited 2 "bea" tee (drop_of bought) announced_db (rows bought)
unfolding enforce_drop_gate drop_machine apply_time_transitions is_active_state derived_state
    transition_drop debit_live_drop moved_to
enforce_drop_gate-Debited_example =
    enforce_drop_gate-Debited tee (drop_of bought) "bea" 2 60 command announced_db (rows bought)
      refl refl refl (λ e. cc)

credit-gate_example :
    (back : Db) × (credit_drop_release "drop:sam/tee" "bea" 2 70 (rows bought) ≡ done true back)
    × (restored : DropRow) × (back.drops "drop:sam/tee" ≡ some restored)
    × (restored.remaining_quantity ≡ 10)
    × (purchased "drop:sam/tee" "bea" back ≡ purchased "drop:sam/tee" "bea" announced_db)
credit-gate_example =
    credit-gate tee (drop_of bought) "bea" 2 60 70 announced_db (rows bought) (omega arith)
      (omega arith) enforce_drop_gate-Debited_example.1

abbrev called_off : Outcome HandlerSuccess
called_off = cancel "sam" command 60 announced_db

-- A live drop with one unit unpaid.
abbrev last : DropRow
last = record tee { state = "live"; remaining_quantity = 0; paid_quantity = 9 }

abbrev last_db : Db
last_db = record empty_db { drops = write empty_db.drops "drop:sam/tee" last }

last_db-IsScheduled : IsScheduled last_db 60
unfolding drop_machine
last_db-IsScheduled k d found = elim (Bool-cases (k == "drop:sam/tee")) [
  | inl hit ↦
      let same : last ≡ d = ground arith in
      (
        ground (arith, eq_iff k "drop:sam/tee"),
        subst (λ x. contains drop_machine.states x.state ≡ true) same refl,
        λ e. ground arith,
      )
  | inr miss ↦ absurd (ground arith)
]

abbrev sold : Outcome ℕ
sold = record_paid_unit "drop:sam/tee" "bea" command 60 last_db

record_paid_unit-edition_example :
    (d : DropRow) × (d' : DropRow) × (last_db.drops "drop:sam/tee" ≡ some d)
    × ((rows sold).drops "drop:sam/tee" ≡ some d')
    × (10 ≡ d.paid_quantity + 1)
    × (10 ≤ d.total_quantity)
    × (d'.paid_quantity ≡ 10)
    × (d'.remaining_quantity ≡ d.remaining_quantity)
    × (d'.total_quantity ≡ d.total_quantity)
    × (d'.state ≡ state_after 10 d.total_quantity (effective_state d 60))
unfolding record_paid_unit apply_time_transitions is_active_state derived_state pay_unit
    end_if_sold_out end_sold_out
record_paid_unit-edition_example =
    record_paid_unit-edition "drop:sam/tee" "bea" command 60 last_db (rows sold) 10
      last_db-IsScheduled refl

announced_db-IsScheduled : IsScheduled announced_db 600
unfolding drop_machine
announced_db-IsScheduled k d found = elim (Bool-cases (k == "drop:sam/tee")) [
  | inl hit ↦
      let same : tee ≡ d = ground arith in
      (
        ground (arith, eq_iff k "drop:sam/tee"),
        subst (λ x. contains drop_machine.states x.state ≡ true) same refl,
        λ e. ground (arith, eq_iff "announced" "live"),
      )
  | inr miss ↦ absurd (ground arith)
]

abbrev let_go : Outcome HandlerSuccess
let_go = release_listings "sam" command 600 announced_db

release_listings_releases_example :
    (d : DropRow) × (d' : DropRow) × (announced_db.drops "drop:sam/tee" ≡ some d)
    × (d.seller_pubky ≡ "sam")
    × (3 ≡ d.revision)
    × (is_active_state (effective_state d 600) ≡ false)
    × ((rows let_go).drops "drop:sam/tee" ≡ some d')
    × (d'.state ≡ effective_state d 600)
    × ((success let_go).revision ≡ d'.revision)
    × (all_released "drop:sam/tee" (rows let_go).drop_listings ≡ true)
unfolding clashes release_listings apply_time_transitions is_active_state derived_state
    transition_drop release_ended moved_to drop_event
release_listings_releases_example =
    release_listings_releases "sam" command 600 announced_db (rows let_go) (success let_go)
      announced_db-IsScheduled refl
