-- ===== src/Domain/Machines/Types.antt =====
-- crates/domain/src/state_machines.rs: what a machine is, and the test that the handlers make on
-- it. States and triggers are the source's texts.
use pubky_marketplace_servic.Prelude.{
  String, Bool, List, any, contains, ◌==◌, string_key, ◌&&◌, if◌then◌else◌, nat_key,
}

pub data Via : Type 0 where
  command server : String → Via

pub record Transition : Type 0 where
  pub from : String
  pub to : String
  pub via : List Via

pub record AggregateMachine : Type 0 where
  pub aggregate : String
  pub states : List String
  pub initial : String
  pub transitions : List Transition
  pub commands : List String
  pub unreachable_states : List String

abbrev pub t : String → String → List Via → Transition
t from to via = record { from = from; to = to; via = via }

-- Staying in the same state is always allowed.
unfoldable pub can_transition : AggregateMachine → String → String → Bool
can_transition machine from to =
    if from == to
    then contains machine.states from
    else any (λ transition. transition.from == from && transition.to == to) machine.transitions
