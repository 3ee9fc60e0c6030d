-- ===== src/Store/Effects.antt =====
-- The writes that the handlers share: crates/service/src/executor.rs (`insert_event`) and
-- crates/service/src/handlers/mod.rs.
use Prim.Native.String.{◌++◌ as text_append}
use pubky_marketplace_servic.Prelude.{
  ℕ, ◌/◌, ◌*◌, String, Bool, true, false, Option, [], ◌∷◌, ◌++◌, ◌==◌, ◌&&◌, ◌||◌, string_key,
  nat_key, any,
}
use pubky_marketplace_servic.Domain.Money.{Money}
use pubky_marketplace_servic.Store.Rows.{EventRow}
use pubky_marketplace_servic.Store.Transaction.{
  Tx, done, fault, unique_violation, ◌>>=◌, ◌>>◌, pure, modify, new_uuid,
}

-- crates/service/src/clock.rs: an instant as the JSON documents keep it, to the millisecond.
unfoldable pub format_timestamp : ℕ → ℕ
format_timestamp instant = instant / 1000000 * 1000000

-- The command envelope, without the payload that each handler takes as its own argument.
pub record Command : Type 0 where
  pub command_id : String
  pub aggregate_id : String
  pub expected_revision : ℕ

-- The table's primary key, one event for each revision of an aggregate, and one confirmation for
-- each payment.
unfoldable pub clashes : EventRow → EventRow → Bool
clashes row e =
    e.id == row.id
    || e.aggregate_id == row.aggregate_id && e.revision == row.revision
    || e.aggregate_id == row.aggregate_id
      && e.kind == "payment.confirmed"
      && row.kind == "payment.confirmed"

unfoldable pub put_event : EventRow → Tx (Unit {0})
put_event row db = elim (any (clashes row) db.events) [
  | true ↦ fault unique_violation
  | false ↦ done tt (record db { events = db.events ++ row ∷ [] })
]

-- Appends one immutable domain event and returns its id.
unfoldable pub insert_event : Command → String → ℕ → String → String → ℕ → Tx String
unfolding put_event
insert_event command aggregate_id revision actor kind occurred_at = do
  event_id ← new_uuid
  put_event (record {
    id = event_id;
    command_id = command.command_id;
    aggregate_id = aggregate_id;
    revision = revision;
    actor_pubky = actor;
    kind = kind;
    occurred_at = occurred_at;
  })
  pure event_id

-- A complete notification intent, in the transaction of the command.
unfoldable pub insert_notification_intent :
    String → String → String → String → String → Option Money → ℕ → Tx (Unit {0})
insert_notification_intent event_id notification_type recipient actor aggregate_id amount now =
    modify λ db. record db {
      outbox =
          db.outbox
          ++ record {
            event_id = event_id;
            kind = text_append "notification." notification_type;
            recipient_pubky = recipient;
            actor_pubky = actor;
            aggregate_id = aggregate_id;
            amount = amount;
            created_at = now;
          }
            ∷ [];
    }
