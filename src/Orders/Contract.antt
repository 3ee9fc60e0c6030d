-- ===== src/Orders/Contract.antt =====
-- The contract of an order action (crates/service/src/handlers), stated against the order machine.
use Prim.Native.String.{◌++◌ as text_append}
use pubky_marketplace_servic.Prelude.{
  ℕ, String, Bool, true, false, none, some, [], ◌∷◌, ◌++◌, ◌==◌, string_key, ◌&&◌, ◌≡◌, ◌+◌, any,
  write, refl, ap, Table, arith, ◌||◌, subst, sym, eq_iff, Bool-cases, inl, inr,
}
use pubky_marketplace_servic.Domain.Machines.{AggregateMachine, command, server, order_machine}
use pubky_marketplace_servic.Domain.Ids.{order_aggregate_id}
use pubky_marketplace_servic.Store.{OrderRow, EventRow, OutboxRow, Db, Command, done}
use pubky_marketplace_servic.Orders.Action.{
  HandlerSuccess, update_order, finish_order_action, advance_order,
}

-- The table has an edge between the two states with this command among its triggers.
unfoldable pub triggers : AggregateMachine → String → String → String → Bool
triggers m name from to =
    any
      (λ x.
        x.from == from
        && x.to == to
        && any (λ v. elim v [ command n ↦ n == name | server n ↦ false ]) x.via)
      m.transitions

-- The table of orders is keyed by the row's own id.
abbrev pub IsKeyed : Db → Type 0
IsKeyed db = (k : String) (o : OrderRow) → db.orders k ≡ some o → o.id ≡ k

-- One order moved along an edge of the order machine that the command triggers: its revision grew
-- by one, its parties, lines, total and hold stay, no other order and no listing changed, one
-- event with the new revision was appended on the order's aggregate, and one notification intent
-- to `recipient` was enqueued under that event.
pub record Advanced (name kind actor recipient : String) (c : Command) (old new : OrderRow)
    (db db' : Db) (s : HandlerSuccess) : Type 0 where
  pub stored : db'.orders ≡ write db.orders old.id new
  pub listings : db'.listings ≡ db.listings
  pub edge : triggers order_machine name old.state new.state ≡ true
  pub checked : c.expected_revision ≡ old.revision
  pub revision : new.revision ≡ old.revision + 1
  pub reported : s.revision ≡ new.revision
  pub same_id : new.id ≡ old.id
  pub buyer : new.buyer_pubky ≡ old.buyer_pubky
  pub seller : new.seller_pubky ≡ old.seller_pubky
  pub lines : new.lines ≡ old.lines
  pub total : new.total_minor ≡ old.total_minor
  pub held : new.stock_held ≡ old.stock_held
  pub event : EventRow
  pub logged : db'.events ≡ db.events ++ event ∷ []
  pub event_kind : event.kind ≡ kind
  pub event_subject : event.aggregate_id ≡ order_aggregate_id old.id
  pub event_revision : event.revision ≡ new.revision
  pub event_actor : event.actor_pubky ≡ actor
  pub intent : OutboxRow
  pub notified : db'.outbox ≡ db.outbox ++ intent ∷ []
  pub intent_event : intent.event_id ≡ event.id
  pub intent_recipient : intent.recipient_pubky ≡ recipient

abbrev pub bumped : OrderRow → OrderRow
bumped o = record o { revision = o.revision + 1 }

-- A state that equals one of the tested texts takes the edges of that text.
pub at_state :
    (name to state a : String)
    → (state == a) ≡ true
    → triggers order_machine name a to ≡ true
    → triggers order_machine name state to ≡ true
at_state name to state a e h =
    subst (λ x. triggers order_machine name x to ≡ true) (sym ((eq_iff state a).0 e)) h

pub at_either_state :
    (name to state a b : String)
    → (state == a || state == b) ≡ true
    → triggers order_machine name a to ≡ true
    → triggers order_machine name b to ≡ true
    → triggers order_machine name state to ≡ true
at_either_state name to state a b e h k = elim (Bool-cases (state == a)) [
  | inl is_a ↦ at_state name to state a is_a h
  | inr not_a ↦ at_state name to state b (ground arith) k
]

-- What an UPDATE of an order action leaves alone.
pub record Keeps (new o : OrderRow) : Type 0 where
  pub same_id : new.id ≡ o.id
  pub revision : new.revision ≡ o.revision + 1
  pub buyer : new.buyer_pubky ≡ o.buyer_pubky
  pub seller : new.seller_pubky ≡ o.seller_pubky
  pub lines : new.lines ≡ o.lines
  pub total : new.total_minor ≡ o.total_minor
  pub held : new.stock_held ≡ o.stock_held

-- The tables that an order action does not write before its own UPDATE of the order.
pub record Untouched (db mid : Db) : Type 0 where
  pub listings : mid.listings ≡ db.listings
  pub events : mid.events ≡ db.events
  pub outbox : mid.outbox ≡ db.outbox

-- The event and the intent complete the promise, from any rows that hold the updated order.
pub finish_order_action-Advanced :
    (name actor : String) (c : Command) (o new : OrderRow) (kind notification_type : String)
    (recipient : String) (now : ℕ) (db mid db' : Db) (s : HandlerSuccess)
    → mid.orders ≡ write db.orders o.id new
    → Untouched db mid
    → c.expected_revision ≡ o.revision
    → Keeps new o
    → triggers order_machine name o.state new.state ≡ true
    → finish_order_action actor c new kind notification_type recipient now mid ≡ done s db'
    → Advanced name kind actor recipient c o new db db' s
unfolding finish_order_action
finish_order_action-Advanced name actor c o new kind notification_type recipient now db mid db' s
      put same checked kept edge h =
    record {
      stored = ground arith;
      listings = ground arith;
      edge = edge;
      checked = checked;
      revision = kept.revision;
      reported = ground arith;
      same_id = kept.same_id;
      buyer = kept.buyer;
      seller = kept.seller;
      lines = kept.lines;
      total = kept.total;
      held = kept.held;
      event = event;
      logged = ground arith;
      event_kind = refl;
      event_subject = ap order_aggregate_id kept.same_id;
      event_revision = refl;
      event_actor = refl;
      intent = intent;
      notified = ground arith;
      intent_event = refl;
      intent_recipient = refl;
    }
  where
    event : EventRow
    event = record {
      id = mid.uuids mid.drawn;
      command_id = c.command_id;
      aggregate_id = order_aggregate_id new.id;
      revision = new.revision;
      actor_pubky = actor;
      kind = kind;
      occurred_at = now;
    }

    intent : OutboxRow
    intent = record {
      event_id = mid.uuids mid.drawn;
      kind = text_append "notification." notification_type;
      recipient_pubky = recipient;
      actor_pubky = actor;
      aggregate_id = order_aggregate_id new.id;
      amount = none;
      created_at = now;
    }

-- The shared tail keeps the promise, if its UPDATE moves the state along a triggered edge.
pub advance_order-Advanced :
    (name actor : String) (c : Command) (o : OrderRow) (set : OrderRow → OrderRow)
    (kind notification_type : String) (recipient : OrderRow → String) (now : ℕ) (db mid db' : Db)
    (s : HandlerSuccess)
    → mid.orders ≡ db.orders
    → Untouched db mid
    → db.orders o.id ≡ some o
    → c.expected_revision ≡ o.revision
    → Keeps (set (bumped o)) o
    → triggers order_machine name o.state (set (bumped o)).state ≡ true
    → advance_order actor c o set kind notification_type recipient now mid ≡ done s db'
    → Advanced name kind actor (recipient (set (bumped o))) c o (set (bumped o)) db db' s
unfolding advance_order update_order
advance_order-Advanced name actor c o set kind notification_type recipient now db mid db' s put same
      found checked kept edge h =
    finish_order_action-Advanced name actor c o (set (bumped o)) kind notification_type
      (recipient (set (bumped o))) now db
      (record mid { orders = write mid.orders o.id (set (bumped o)) }) db' s
      (ap (λ (t : Table String OrderRow). write t o.id (set (bumped o))) put)
      (record { listings = same.listings; events = same.events; outbox = same.outbox }) checked kept
      edge (ground (arith, ap (λ (t : Table String OrderRow). t o.id) put))

pub untouched : (db : Db) → Untouched db db
untouched db = record { listings = refl; events = refl; outbox = refl }
