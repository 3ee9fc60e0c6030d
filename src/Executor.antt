-- ===== src/Executor.antt =====
-- crates/service/src/executor.rs: one command from its submission to its stored result.
pub mod Laws
pub mod Dispatch
pub mod Sound
pub mod Orders
use pubky_marketplace_servic.Prelude.{
  ℕ, String, Bool, true, false, Option, none, some, List, [], ◌∷◌, ◌==◌, string_key, ◌&&◌,
  if◌then◌else◌, ◌≡◌, Table,
}
use pubky_marketplace_servic.Domain.ErrorCode.{ErrorCode}
use pubky_marketplace_servic.Store.{
  Db, Tx, Outcome, done, refused, fault, DbError, unique_violation, row_not_found, constraint,
  protocol, panic, CommandFailure, RefusalKind, failure, Command,
}
use pubky_marketplace_servic.Orders.Action.{HandlerSuccess}

-- `success_body`, without the JSON projection of the handler's result.
pub record Body : Type 0 where
  pub command_id : String
  pub aggregate_id : String
  pub revision : ℕ
  pub event_ids : List String

pub success_body : Command → HandlerSuccess → Body
success_body command success = record {
  command_id = command.command_id;
  aggregate_id = command.aggregate_id;
  revision = success.revision;
  event_ids = success.event_ids;
}

-- A parsed command: its envelope, its payload, and the hash of its whole input.
pub record Submission (P : Type 0) : Type 0 where
  pub command : Command
  pub payload : P
  pub request_hash : String

-- What the executor calls: the handlers, the redaction of a stored checkout result, and the sealing
-- of a prepared Locks result, which fails where no Locks adapter is configured.
pub record Handlers (P : Type 0) : Type 0 where
  pub kind : P → String
  pub dispatch : String → Command → P → ℕ → Tx HandlerSuccess
  pub redact_command_result : Body → Option Body
  pub seal_prepare_locks_result : Command → String → Body → Option Body
  pub unseal_prepare_locks_result : Command → String → Body → Option Body

pub record StoredResult : Type 0 where
  pub request_hash : String
  pub result : Body

-- The rows, and the table `command_results`, keyed by actor and command id.
pub record State : Type 0 where
  pub db : Db
  pub command_results : String → Table String StoredResult

pub data Response : Type 0 where
  ok : Body → Response
  failed : CommandFailure → Response
  error : DbError → Response

invariant_failure : String → CommandFailure
unfolding failure
invariant_failure message =
    failure RefusalKind.invariant_violation ErrorCode.invariant_violation message

pub idempotency_conflict : CommandFailure
unfolding failure
idempotency_conflict =
    failure RefusalKind.idempotency_conflict ErrorCode.idempotency_conflict
      "The command id was already used with different input."

pub ok_or_unprocessed : Option Body → Response
unfolding invariant_failure
ok_or_unprocessed none =
    failed (invariant_failure "The stored command result could not be processed.")
ok_or_unprocessed (some body) = ok body

is_unique_violation : DbError → Bool
is_unique_violation unique_violation = true
is_unique_violation row_not_found = false
is_unique_violation constraint = false
is_unique_violation protocol = false
is_unique_violation panic = false

module _ {P : Type 0} (h : Handlers P) (actor : String) (s : Submission P) where
  pub stored_result_response : StoredResult → Response
  unfolding ok_or_unprocessed idempotency_conflict
  stored_result_response stored =
      if stored.request_hash == s.request_hash
      then if h.kind s.payload == "checkout.create"
        then ok_or_unprocessed (h.redact_command_result stored.result)
        else if h.kind s.payload == "payment.prepare_locks"
        then ok_or_unprocessed (h.unseal_prepare_locks_result s.command actor stored.result)
        else ok stored.result
      else failed idempotency_conflict

  -- The durable copy of a result.
  pub stored_body : Body → Option Body
  stored_body body =
      if h.kind s.payload == "payment.prepare_locks"
      then h.seal_prepare_locks_result s.command actor body
      else some body

  -- `INSERT INTO command_results …`
  pub store : Body → State → Db → State
  store body state db = record {
    db = db;
    command_results = λ a id.
        if a == actor && id == s.command.command_id
        then some (record { request_hash = s.request_hash; result = body })
        else state.command_results a id;
  }

  pub commit : HandlerSuccess → State → Db → Response × State
  unfolding success_body stored_body store invariant_failure
  commit success state db =
      let body = success_body s.command success in
      elim (stored_body body) [
        | none ↦ (failed (invariant_failure "The command result could not be protected."), state)
        | some durable ↦ (ok body, store durable state db)
      ]

  error_response : DbError → Response
  unfolding invariant_failure is_unique_violation
  error_response e =
      if is_unique_violation e
      then failed (invariant_failure "A uniqueness constraint rejected the command.")
      else error e

  -- A refusal and an error roll the transaction back: the state stays as it was.
  unfoldable pub execute : ℕ → State → Response × State
  unfolding stored_result_response commit error_response
  execute now state = elim (state.command_results actor s.command.command_id) [
    | some stored ↦ (stored_result_response stored, state)
    | none ↦ elim (h.dispatch actor s.command s.payload now state.db) [
      | done success db ↦ commit success state db
      | refused e ↦ (failed e, state)
      | fault e ↦ (error_response e, state)
    ]
  ]
