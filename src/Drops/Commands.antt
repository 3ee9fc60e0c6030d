-- ===== src/Drops/Commands.antt =====
-- crates/service/src/handlers/drops.rs: `drop.cancel`, `drop.release_listings` and the paid units.
pub mod Laws
pub mod Release
pub mod Editions
use pubky_marketplace_servic.Prelude.{
  ℕ, String, Bool, true, false, Option, none, some, List, [], ◌∷◌, ◌==◌, string_key, nat_key, ◌&&◌,
  ◌||◌, not, if◌then◌else◌, leb, ltb, ◌+◌, write, map,
}
use pubky_marketplace_servic.Domain.ErrorCode.{ErrorCode}
use pubky_marketplace_servic.Store.{
  DropRow, DropListingRow, Db, Tx, RefusalKind, CommandFailure, failure, failure_with_revision,
  Outcome, done, refused, fault, constraint, ◌>>=◌, ◌>>◌, pure, refuse_if, modify, Command,
  insert_event, insert_notification_intent,
}
use pubky_marketplace_servic.Orders.Action.{HandlerSuccess}
use pubky_marketplace_servic.Drops.Lifecycle.{
  effective_state, is_active_state, derived_state, deactivate_drop_listing_bindings, update_drop,
  moved_to, apply_time_transitions,
}

fetch_drop_for_update : String → CommandFailure → Tx DropRow
fetch_drop_for_update aggregate_id missing db = elim (db.drops aggregate_id) [
  | none ↦ refused missing
  | some drop ↦ done drop db
]

drop_not_found : CommandFailure
unfolding failure
drop_not_found = failure RefusalKind.not_found ErrorCode.not_found "The drop was not found."

guard_drop_revision : Command → DropRow → Tx (Unit {0})
guard_drop_revision command drop = refuse_if (not (command.expected_revision == drop.revision)) (
    failure_with_revision RefusalKind.revision_conflict ErrorCode.revision_conflict
      "The drop revision is stale." drop.revision)

unfoldable pub cancel : String → Command → ℕ → Tx HandlerSuccess
unfolding fetch_drop_for_update drop_not_found guard_drop_revision effective_state is_active_state
    update_drop moved_to deactivate_drop_listing_bindings insert_event
cancel actor command now = do
  drop ← fetch_drop_for_update command.aggregate_id drop_not_found
  refuse_if (not (drop.seller_pubky == actor))
      (failure RefusalKind.unauthorized ErrorCode.unauthorized "Only the seller may cancel a drop.")
  guard_drop_revision command drop
  refuse_if (not (is_active_state (effective_state drop now))) (
      failure_with_revision RefusalKind.invalid_state ErrorCode.invalid_state
        "This drop can no longer be cancelled." drop.revision)
  update_drop command.aggregate_id (moved_to "ended_cancelled" (drop.revision + 1) now)
  deactivate_drop_listing_bindings command.aggregate_id
  event_id ←
      insert_event command command.aggregate_id (drop.revision + 1) actor "drop.cancelled" now
  pure (record { revision = drop.revision + 1; event_ids = event_id ∷ [] })

-- `UPDATE drop_listings SET active = FALSE, released = TRUE WHERE drop_aggregate_id = $1`
unfoldable pub release_binding : String → DropListingRow → DropListingRow
release_binding drop_aggregate_id row =
    if row.drop_aggregate_id == drop_aggregate_id
    then record row { active = false; released = true }
    else row

touched : ℕ → ℕ → DropRow → DropRow
touched revision now row = record row { revision = revision; updated_at = now }

-- The end of the command, once the due transitions are applied.
unfoldable pub release_ended : String → Command → DropRow → ℕ → Tx HandlerSuccess
unfolding update_drop release_binding touched insert_event
release_ended actor command drop now = do
  refuse_if (is_active_state drop.state) (
      failure_with_revision RefusalKind.invalid_state ErrorCode.invalid_state
        "Listings release only after the drop ends." drop.revision)
  modify λ db. record db {
    drop_listings = map (release_binding command.aggregate_id) db.drop_listings;
  }
  update_drop command.aggregate_id (touched (drop.revision + 1) now)
  event_id ←
      insert_event command command.aggregate_id (drop.revision + 1) actor "drop.listings_released"
        now
  pure (record { revision = drop.revision + 1; event_ids = event_id ∷ [] })

unfoldable pub release_listings : String → Command → ℕ → Tx HandlerSuccess
unfolding fetch_drop_for_update drop_not_found guard_drop_revision
release_listings actor command now = do
  found ← fetch_drop_for_update command.aggregate_id drop_not_found
  refuse_if (not (found.seller_pubky == actor)) (
      failure RefusalKind.unauthorized ErrorCode.unauthorized
        "Only the seller may release a drop's listings.")
  guard_drop_revision command found
  drop ← apply_time_transitions found command now
  release_ended actor command drop now

order_drop_missing : CommandFailure
unfolding failure
order_drop_missing =
    failure RefusalKind.invariant_violation ErrorCode.invariant_violation
      "The order's drop is missing."

pub paid_one : ℕ → DropRow → DropRow
paid_one now row = record row {
  paid_quantity = row.paid_quantity + 1;
  revision = row.revision + 1;
  updated_at = now;
}

-- `UPDATE drops SET paid_quantity = paid_quantity + 1 …`, with the constraint that the paid count
-- stays within the total.
unfoldable pub pay_unit : String → ℕ → Tx DropRow
unfolding paid_one update_drop
pay_unit drop_aggregate_id now = do
  drop ← update_drop drop_aggregate_id (paid_one now)
  if leb drop.paid_quantity drop.total_quantity then pure drop else (λ db. fault constraint)

-- The sold-out transition of a live drop, its bindings, event and the seller's notification.
unfoldable pub end_sold_out : DropRow → String → String → Command → ℕ → Tx (Unit {0})
unfolding update_drop moved_to deactivate_drop_listing_bindings insert_event
    insert_notification_intent
end_sold_out drop drop_aggregate_id actor command now = do
  update_drop drop_aggregate_id (moved_to "ended_sold_out" (drop.revision + 1) now)
  deactivate_drop_listing_bindings drop_aggregate_id
  event_id ← insert_event command drop_aggregate_id (drop.revision + 1) actor "drop.ended" now
  insert_notification_intent event_id "drop_sold_out" drop.seller_pubky actor drop_aggregate_id none
      now

unfoldable pub end_if_sold_out : DropRow → String → String → Command → ℕ → Tx (Unit {0})
end_if_sold_out drop drop_aggregate_id actor command now =
    if drop.paid_quantity == drop.total_quantity && drop.state == "live"
    then end_sold_out drop drop_aggregate_id actor command now
    else pure tt

-- One paid unit: the new paid count is the confirming order's edition.
unfoldable pub record_paid_unit : String → String → Command → ℕ → Tx ℕ
unfolding fetch_drop_for_update order_drop_missing
record_paid_unit drop_aggregate_id actor command now = do
  found ← fetch_drop_for_update drop_aggregate_id order_drop_missing
  apply_time_transitions found command now
  drop ← pay_unit drop_aggregate_id now
  end_if_sold_out drop drop_aggregate_id actor command now
  pure drop.paid_quantity
