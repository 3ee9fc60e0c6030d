-- ===== src/Drops/Lifecycle.antt =====
-- crates/service/src/handlers/drops.rs: the state that server time gives a drop.
pub mod Laws
use pubky_marketplace_servic.Prelude.{
  ℕ, String, Bool, true, false, Option, none, some, List, [], ◌∷◌, ◌==◌, string_key, ◌&&◌, ◌||◌,
  not, if◌then◌else◌, leb, ltb, ◌+◌, write, map,
}
use pubky_marketplace_servic.Domain.ErrorCode.{ErrorCode}
use pubky_marketplace_servic.Store.{
  DropRow, DropListingRow, Db, Tx, RefusalKind, CommandFailure, failure, Outcome, done, refused,
  fault, row_not_found, ◌>>=◌, ◌>>◌, pure, refuse_if, modify, Command, insert_event,
}

-- `now >= ends_at`, of an optional end.
pub has_ended : Option ℕ → ℕ → Bool
has_ended none now = false
has_ended (some ends_at) now = leb ends_at now

unfoldable pub derived_state : ℕ → Option ℕ → ℕ → String
unfolding has_ended
derived_state starts_at ends_at now =
    if has_ended ends_at now
    then "ended_closed"
    else if leb starts_at now
    then "live"
    else "announced"

unfoldable pub is_active_state : String → Bool
is_active_state state = state == "announced" || state == "live"

-- The state that a command acts on: server time for an announced or live drop, the stored state
-- for an ended one.
unfoldable pub effective_state : DropRow → ℕ → String
effective_state drop now =
    if is_active_state drop.state then derived_state drop.starts_at drop.ends_at now else drop.state

unfoldable pub deactivate : String → DropListingRow → DropListingRow
deactivate drop_aggregate_id row =
    if row.drop_aggregate_id == drop_aggregate_id then record row { active = false } else row

unfoldable pub deactivate_drop_listing_bindings : String → Tx (Unit {0})
deactivate_drop_listing_bindings drop_aggregate_id =
    modify λ db. record db { drop_listings = map (deactivate drop_aggregate_id) db.drop_listings }

-- `UPDATE drops SET … WHERE aggregate_id = $1 RETURNING …`, by `fetch_one`.
unfoldable pub update_drop : String → (DropRow → DropRow) → Tx DropRow
update_drop aggregate_id set db = elim (db.drops aggregate_id) [
  | none ↦ fault row_not_found
  | some row ↦ done (set row) (record db { drops = write db.drops aggregate_id (set row) })
]

unfoldable pub moved_to : String → ℕ → ℕ → DropRow → DropRow
moved_to state revision now row = record row {
  state = state;
  revision = revision;
  updated_at = now;
}

unfoldable pub drop_event : String → String
drop_event target = if target == "live" then "drop.started" else "drop.ended"

-- The write, the bindings and the event of one due transition.
unfoldable pub transition_drop : DropRow → String → Command → ℕ → Tx DropRow
unfolding update_drop deactivate_drop_listing_bindings insert_event
transition_drop drop target command now = do
  transitioned ← update_drop drop.aggregate_id (moved_to target (drop.revision + 1) now)
  if is_active_state target then pure tt else deactivate_drop_listing_bindings drop.aggregate_id
  insert_event command drop.aggregate_id (drop.revision + 1) drop.seller_pubky (drop_event target)
      now
  pure transitioned

-- Lazy server-time transitions of a row-locked drop.
unfoldable pub apply_time_transitions : DropRow → Command → ℕ → Tx DropRow
apply_time_transitions drop command now =
    if not (is_active_state drop.state)
    then pure drop
    else if derived_state drop.starts_at drop.ends_at now == drop.state
    then pure drop
    else transition_drop drop (derived_state drop.starts_at drop.ends_at now) command now
