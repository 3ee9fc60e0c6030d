-- ===== src/Examples/Executor.antt =====
-- A return asked for twice under one command id, and once more with different input.
use pubky_marketplace_servic.Prelude.{
  String, List, none, some, [], ◌∷◌, ◌≡◌, refl, sym, subst, arith, eq_iff, string_key, ◌==◌, true,
  inl, inr, Bool-cases,
}
use pubky_marketplace_servic.Domain.Machines.{order_machine, can_transition}
use pubky_marketplace_servic.Domain.Machines.Reach.{Reach, start, step}
use pubky_marketplace_servic.Domain.Ids.{order_aggregate_id}
use pubky_marketplace_servic.Store.{OrderRow}
use pubky_marketplace_servic.Orders.Action.{advance_order, update_order, finish_order_action}
use pubky_marketplace_servic.Orders.Returns.{request, return_requested}
use pubky_marketplace_servic.Executor.{
  Body, Submission, Handlers, State, ok, failed, idempotency_conflict, execute,
}
use pubky_marketplace_servic.Executor.Laws.{Call, run, execute_replays, execute_conflicts_later}
use pubky_marketplace_servic.Executor.Dispatch.{
  CommandPayload, kind, dispatch, request_return, approve_return,
}
use pubky_marketplace_servic.Executor.Sound.{IsSound}
use pubky_marketplace_servic.Executor.Orders.{handlers, History, run-IsSound}
use pubky_marketplace_servic.Examples.Samples.{
  lamp, order_one, with_order, with_order-IsKeyed, command,
}

abbrev delivered_order : OrderRow
delivered_order = record order_one { state = "delivered"; stock_held = true }

-- Results are stored as they are.
abbrev plain : Handlers CommandPayload
plain = record {
  kind = kind;
  dispatch = dispatch none;
  redact_command_result = some;
  seal_prepare_locks_result = λ c a body. some body;
  unseal_prepare_locks_result = λ c a body. some body;
}

abbrev asked : Submission CommandPayload
asked = record {
  command = command;
  payload =
      request_return (record { order_id = "o1"; reason = "broken"; requested_amount_minor = 700 });
  request_hash = "h1";
}

abbrev approved : Submission CommandPayload
approved = record {
  command = record { command_id = "c2"; aggregate_id = "order:o1"; expected_revision = 4 };
  payload = approve_return "o1";
  request_hash = "h2";
}

abbrev changed : Submission CommandPayload
changed = record asked { request_hash = "h3" }

abbrev fresh : State
fresh = record { db = with_order delivered_order; command_results = λ a i. none }

abbrev body : Body
body = record {
  command_id = "c1";
  aggregate_id = "order:o1";
  revision = 4;
  event_ids = "event" ∷ [];
}

abbrev approval : Call CommandPayload
approval = record { actor = "sam"; submission = approved; now = 95 }

execute_replays_example :
    let state' = run plain (approval ∷ []) (execute plain "bea" asked 90 fresh).1 in
    execute plain "bea" asked 99 state' ≡ (ok body, state')
unfolding execute dispatch kind request order_aggregate_id advance_order update_order
    finish_order_action return_requested
execute_replays_example =
    execute_replays plain "bea" asked 90 99 fresh body (approval ∷ []) (λ c a x y e. sym e)
      (λ e. cc) refl

execute_conflicts_later_example :
    let state' = run plain (approval ∷ []) (execute plain "bea" asked 90 fresh).1 in
    execute plain "bea" changed 99 state' ≡ (failed idempotency_conflict, state')
unfolding execute dispatch kind request order_aggregate_id advance_order update_order
    finish_order_action return_requested
execute_conflicts_later_example =
    execute_conflicts_later plain "bea" asked changed 90 99 fresh body (approval ∷ []) refl refl
      (λ e. ground (arith, eq_iff asked.request_hash changed.request_hash))

paid_reached : Reach order_machine "paid"
unfolding order_machine can_transition
paid_reached = step (start {s = "pending_payment"} refl) refl

shipped_reached : Reach order_machine "shipped"
unfolding order_machine can_transition
shipped_reached = step paid_reached refl

delivered_reached : Reach order_machine "delivered"
unfolding order_machine can_transition
delivered_reached = step shipped_reached refl

fresh-IsSound : IsSound fresh.db
fresh-IsSound = record {
  orders_keyed = with_order-IsKeyed delivered_order;
  listings_keyed = λ k l at. ground (arith, eq_iff k lamp.aggregate_id);
  states = λ k o at. elim (Bool-cases (k == "o1")) [
    | inl hit ↦
        let same : delivered_order ≡ o = ground arith in
        subst (λ x. Reach order_machine x.state) same delivered_reached
    | inr miss ↦ absurd (ground arith)
  ];
}

abbrev both_calls : List (Call CommandPayload)
both_calls = record { actor = "bea"; submission = asked; now = 90 } ∷ approval ∷ []

run-IsSound_example :
    IsSound (run (handlers none plain) both_calls fresh).db
    × ((k : String) (o : OrderRow)
        → fresh.db.orders k ≡ some o
        → (o' : OrderRow) × ((run (handlers none plain) both_calls fresh).db.orders k ≡ some o')
          × History both_calls o o')
run-IsSound_example = run-IsSound none plain both_calls fresh fresh-IsSound
