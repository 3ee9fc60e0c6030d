-- ===== src/Examples/Reservations.antt =====
-- A reservation through a drop's gate, and its expiry.
use pubky_marketplace_servic.Prelude.{
  ℕ, String, Bool, any, Bool-cases, ◌==◌, inl, inr, sym, ap, ◌∙◌, Option, none, some, ◌≡◌, ◌≢◌,
  true, false, refl, write, string_key, [], ◌∷◌, map, arith, eq_iff,
}
use pubky_marketplace_servic.Store.{
  ListingRow, Outcome, Db, done, Command, insert_event, failure, failure_with_revision, clashes,
  put_event,
}
use pubky_marketplace_servic.Orders.Action.{HandlerSuccess}
use pubky_marketplace_servic.Inventory.Holds.{is_deleted, reserved_by, released, take_held}
use pubky_marketplace_servic.Inventory.Reservations.{
  ReserveInventoryPayload, reserve, gate_bound, hold_stock, insert_reservation, log_reserved,
  record_hold, reserved_state, swap_listing,
}
use pubky_marketplace_servic.Inventory.Reservations.Totals.{IsAccounted}
use pubky_marketplace_servic.Inventory.Reservations.Laws.{Held, Gated, reserve-Held}
use pubky_marketplace_servic.Inventory.Reservations.Accounts.{DropsKeyed, reserve-IsAccounted}
use pubky_marketplace_servic.Inventory.Expiry.{
  is_due, expire_due_reservations, expire_all, due_rows, credit_stamped, expire_one, expiry_command,
  flip, flipped, give_back, insert_by_expiry, is_active_row, is_preserved, return_stock,
}
use pubky_marketplace_servic.Inventory.Expiry.Due.{count}
use pubky_marketplace_servic.Inventory.Expiry.Laws.{
  swept, expire_due_reservations_completes, expire_due_reservations_again,
}
use pubky_marketplace_servic.Examples.Samples.{empty_db, lamp, rows, success}
use pubky_marketplace_servic.Examples.Drops.{tee}
use pubky_marketplace_servic.Inventory.Listings.{fetch_live_listing, current_listing_revision}
use pubky_marketplace_servic.Inventory.Expiry.Log.{IsLogged, late}
use pubky_marketplace_servic.Drops.Binding.{
  lock_bound_drop, first_binding, joined, comes_before, earlier,
}
use pubky_marketplace_servic.Domain.Ids.{listing_aggregate_id}
use pubky_marketplace_servic.Drops.Gate.{
  enforce_drop_gate, debit_live_drop, debit_drop, purchased, credit_drop, credit_drop_release,
}
use pubky_marketplace_servic.Drops.Lifecycle.{
  apply_time_transitions, is_active_state, derived_state, transition_drop, moved_to, deactivate,
  deactivate_drop_listing_bindings, drop_event, update_drop,
}
use pubky_marketplace_servic.Domain.Machines.{can_transition, listing_machine}

abbrev shirt : ListingRow
shirt = record lamp { aggregate_id = "listing:sam_tee"; listing_id = "tee" }

abbrev bound_db : Db
bound_db = record empty_db {
  listings = write empty_db.listings "listing:sam_tee" shirt;
  drops = write empty_db.drops "drop:sam/tee" tee;
  drop_listings =
      record {
        drop_aggregate_id = "drop:sam/tee";
        seller_pubky = "sam";
        listing_id = "tee";
        active = true;
        released = false;
        listing_generation = 1;
      }
      ∷ [];
}

abbrev command : Command
command = record { command_id = "r1"; aggregate_id = "listing:sam_tee"; expected_revision = 4 }

abbrev payload : ReserveInventoryPayload
payload = record { quantity = 1; reservation_ttl_seconds = 30 }

abbrev reserve_run : Outcome HandlerSuccess
reserve_run = reserve "bea" command payload 60 bound_db

bound_db-DropsKeyed : DropsKeyed bound_db
bound_db-DropsKeyed k d found = ground (arith, eq_iff k "drop:sam/tee")

bound_db-IsAccounted : IsAccounted bound_db
bound_db-IsAccounted = record {
  distinct = refl;
  positive = refl;
  within = λ d x found. ground (arith, eq_iff d "drop:sam/tee");
  in_stock = λ k. ground arith;
  in_drops = λ d. ground arith;
  in_counts = λ d b. ground arith;
}

-- One shirt of ten goes to bea, whose reservation carries the drop's stamp.
reserve-Held_example :
    (l : ListingRow) × (stamp : Option String) × (mid : Db) × (bound_db.listings "listing:sam_tee"
      ≡ some l)
    × (is_deleted l ≡ false)
    × (l.seller_pubky ≢ "bea")
    × (mid.listings ≡ bound_db.listings)
    × Gated "bea" command payload l stamp 60 bound_db mid
    × Held "bea" command payload l stamp 60 mid (rows reserve_run) (success reserve_run)
unfolding clashes reserve fetch_live_listing gate_bound lock_bound_drop first_binding joined
    listing_aggregate_id enforce_drop_gate apply_time_transitions is_active_state derived_state
    transition_drop debit_live_drop moved_to hold_stock can_transition listing_machine swap_listing
    record_hold insert_reservation log_reserved
reserve-Held_example =
    reserve-Held "bea" command payload 60 bound_db (rows reserve_run) (success reserve_run) refl

reserve-IsAccounted_example : IsAccounted (rows reserve_run)
unfolding clashes reserve fetch_live_listing gate_bound lock_bound_drop first_binding joined
    listing_aggregate_id enforce_drop_gate apply_time_transitions is_active_state derived_state
    transition_drop debit_live_drop moved_to hold_stock can_transition listing_machine swap_listing
    record_hold insert_reservation log_reserved
reserve-IsAccounted_example =
    reserve-IsAccounted "bea" command payload 60 bound_db (rows reserve_run) (success reserve_run)
      bound_db-DropsKeyed bound_db-IsAccounted refl

abbrev none_skipped : String → Bool
none_skipped id = false

abbrev sweep_time : ℕ
sweep_time = 40000000000

-- Half a minute later the reservation is due.
--- Whether the log has an event of the listing past its revision.
abbrev past_of : String → Option ListingRow → Bool
past_of i none = false
past_of i (some l) = any (late i l.server_revision) (rows reserve_run).events

reserve-IsLogged : IsLogged 1 (rows reserve_run)
unfolding clashes reserve fetch_live_listing gate_bound lock_bound_drop first_binding joined
    listing_aggregate_id enforce_drop_gate apply_time_transitions is_active_state derived_state
    transition_drop debit_live_drop moved_to hold_stock can_transition listing_machine swap_listing
    record_hold insert_reservation log_reserved reserved_by
reserve-IsLogged = record {
  fresh = refl;
  current = λ i l at. elim (Bool-cases (i == "listing:sam_tee")) [
    | inl shirts ↦
        ap (past_of i) (sym at)
        ∙ ap (λ j. past_of j ((rows reserve_run).listings j))
            ((eq_iff i "listing:sam_tee").0 shirts)
    | inr other ↦ absurd (ground (arith, eq_iff i "listing:sam_tee"))
  ];
}

expire_due_reservations_completes_example :
    (db' : Db) × (expire_due_reservations none_skipped sweep_time (rows reserve_run)
      ≡ done
          (count
            (is_due none_skipped sweep_time (rows reserve_run))
            (rows reserve_run).reservations)
          db')
    × (db'.reservations
        ≡ map
            (swept (is_due none_skipped sweep_time (rows reserve_run)) sweep_time)
            (rows reserve_run).reservations)
    × (db'.orders ≡ (rows reserve_run).orders)
    × (db'.payments ≡ (rows reserve_run).payments)
    × IsAccounted db'
unfolding clashes reserve fetch_live_listing gate_bound lock_bound_drop first_binding joined
    listing_aggregate_id enforce_drop_gate apply_time_transitions is_active_state derived_state
    transition_drop debit_live_drop moved_to hold_stock can_transition listing_machine swap_listing
    record_hold insert_reservation log_reserved is_due is_preserved
expire_due_reservations_completes_example =
    expire_due_reservations_completes none_skipped sweep_time (rows reserve_run)
      reserve-IsAccounted_example reserve-IsLogged

abbrev swept_db : Db
swept_db = elim (expire_due_reservations none_skipped sweep_time (rows reserve_run)) [
  | done n db ↦ db
  | _ ↦ empty_db
]

expire_due_reservations_again_example :
    expire_due_reservations none_skipped sweep_time swept_db ≡ done 0 swept_db
unfolding clashes expire_due_reservations expire_all due_rows reserve fetch_live_listing gate_bound
    lock_bound_drop first_binding joined listing_aggregate_id enforce_drop_gate
    apply_time_transitions is_active_state derived_state transition_drop debit_live_drop moved_to
    listing_machine can_transition comes_before earlier credit_drop credit_drop_release debit_drop
    purchased deactivate deactivate_drop_listing_bindings drop_event update_drop credit_stamped
    expire_one expiry_command flip flipped give_back insert_by_expiry is_active_row is_due
    is_preserved return_stock is_deleted released reserved_by take_held current_listing_revision
    hold_stock insert_reservation log_reserved record_hold reserved_state swap_listing insert_event
    put_event failure failure_with_revision
expire_due_reservations_again_example =
    expire_due_reservations_again none_skipped sweep_time 1 (rows reserve_run) swept_db
      reserve-IsAccounted_example refl
