-- ===== src/Executor/Laws.antt =====
-- crates/service/src/executor.rs: replays, conflicts and rollbacks, over runs of submissions.
use pubky_marketplace_servic.Prelude.{
  ℕ, String, none, some, List, [], ◌∷◌, ◌==◌, string_key, ◌&&◌, ◌≡◌, ◌≢◌, ◌⊎◌, refl, inl, inr, ap,
  sym, ◌∙◌, arith, eq_iff, Option-cases, Bool-cases,
}
use pubky_marketplace_servic.Store.{Db, Outcome, done, refused, fault, Command}
use pubky_marketplace_servic.Orders.Action.{HandlerSuccess}
use pubky_marketplace_servic.Executor.{
  Body, success_body, Submission, Handlers, StoredResult, State, ok, failed, idempotency_conflict,
  ok_or_unprocessed, stored_result_response, stored_body, store, commit, execute,
}

-- One submission of a run: who submits what, and when.
pub record Call (P : Type 0) : Type 0 where
  pub actor : String
  pub submission : Submission P
  pub now : ℕ

ok_injective : {b c : Body} → ok b ≡ ok c → b ≡ c
ok_injective e = cc

module _ {P : Type 0} (h : Handlers P) where
  -- The state after a sequence of submissions, whatever their answers.
  abbrev pub run : List (Call P) → State → State
  run [] state = state
  run (x ∷ xs) state = run xs (execute h x.actor x.submission x.now state).1

  -- The state as it was, and no success for a fresh command.
  abbrev Unchanged : String → Submission P → ℕ → State → Type 0
  Unchanged a s now state =
      ((execute h a s now state).1 ≡ state)
      × (state.command_results a s.command.command_id ≡ none
          → (body : Body) → (execute h a s now state).0 ≢ ok body)

  -- The stored result of a fresh command, or the state as it was.
  pub execute_state :
      (a : String) (s : Submission P) (now : ℕ) (state : State)
      → Unchanged a s now state
        ⊎ ((state.command_results a s.command.command_id ≡ none)
            × (success : HandlerSuccess) × (db : Db) × (durable : Body) × (h.dispatch a s.command
                  s.payload now state.db
                ≡ done success db)
            × (stored_body h a s (success_body s.command success) ≡ some durable)
            × (execute h a s now state
                ≡ (ok (success_body s.command success), store h a s durable state db)))
  unfolding execute commit success_body
  execute_state a s now state = elim (Option-cases (state.command_results a s.command.command_id)) [
    | inr (stored, known) ↦ inl (ground arith, λ fresh b e. ground arith)
    | inl fresh ↦ dispatched (h.dispatch a s.command s.payload now state.db) refl fresh
  ]
    where
      dispatched :
          (r : Outcome HandlerSuccess)
          → h.dispatch a s.command s.payload now state.db ≡ r
          → state.command_results a s.command.command_id ≡ none
          → Unchanged a s now state
            ⊎ ((state.command_results a s.command.command_id ≡ none)
                × (success : HandlerSuccess) × (db : Db) × (durable : Body) × (h.dispatch a
                      s.command s.payload now state.db
                    ≡ done success db)
                × (stored_body h a s (success_body s.command success) ≡ some durable)
                × (execute h a s now state
                    ≡ (ok (success_body s.command success), store h a s durable state db)))
      dispatched (refused e) ran fresh = inl (ground arith, λ _ b e. ground arith)
      dispatched (fault e) ran fresh = inl (ground arith, λ _ b e. ground arith)
      dispatched (done success db) ran fresh =
          elim (Option-cases (stored_body h a s (success_body s.command success))) [
            | inl unsealed ↦ inl (ground arith, λ _ b e. ground arith)
            | inr (durable, sealed) ↦ inr (fresh, success, db, durable, ran, sealed, ground arith)
          ]

  execute-keeps :
      (a b i : String) (s : Submission P) (now : ℕ) (state : State) (r : StoredResult)
      → state.command_results b i ≡ some r
      → (execute h a s now state).1.command_results b i ≡ some r
  unfolding store
  execute-keeps a b i s now state r known = elim (execute_state a s now state) [
    | inl (same, _) ↦ ap (λ x. x.command_results b i) same ∙ known
    | inr (fresh, success, db, durable, ran, sealed, e) ↦
        ap (λ x. x.1.command_results b i) e
        ∙ elim (Bool-cases (b == a && i == s.command.command_id)) [
          | inl hit ↦ absurd (
              ground (
                arith,
                ap (λ x. state.command_results x i) ((eq_iff b a).0 (ground arith)),
                ap (state.command_results a) ((eq_iff i s.command.command_id).0 (ground arith)),
              ))
          | inr miss ↦ ground arith
        ]
  ]

  -- No submission ever changes or drops a stored result.
  run-keeps :
      (calls : List (Call P)) (state : State) (b i : String) (r : StoredResult)
      → state.command_results b i ≡ some r
      → (run calls state).command_results b i ≡ some r
  run-keeps [] state b i r known = known
  run-keeps (x ∷ calls) state b i r known =
      run-keeps calls (execute h x.actor x.submission x.now state).1 b i r
        (execute-keeps x.actor b i x.submission x.now state r known)

  -- What the success of a fresh command stored.
  stored_success :
      (a : String) (s : Submission P) (now : ℕ) (state : State) (body : Body)
      → state.command_results a s.command.command_id ≡ none
      → (execute h a s now state).0 ≡ ok body
      → (durable : Body) × (stored_body h a s body ≡ some durable)
        × ((execute h a s now state).1.command_results a s.command.command_id
            ≡ some (record { request_hash = s.request_hash; result = durable }))
  unfolding store
  stored_success a s now state body fresh answered = elim (execute_state a s now state) [
    | inl (_, refuses) ↦ absurd (refuses fresh body answered)
    | inr (_, success, db, durable, ran, sealed, e) ↦ (
      durable,
      ap (λ x. stored_body h a s x) (ok_injective (sym answered ∙ ap (λ x. x.0) e)) ∙ sealed,
      ap (λ x. x.1.command_results a s.command.command_id) e
          ∙ ground (arith, eq_iff a a, eq_iff s.command.command_id s.command.command_id),
    )
  ]

  -- A sealed result opens again.
  abbrev Opens : Type 0
  Opens =
      (c : Command) (a : String) (body durable : Body)
      → h.seal_prepare_locks_result c a body ≡ some durable
      → h.unseal_prepare_locks_result c a durable ≡ some body

  answer_of_stored :
      (a : String) (s : Submission P) (body durable : Body)
      → Opens
      → h.kind s.payload ≢ "checkout.create"
      → stored_body h a s body ≡ some durable
      → stored_result_response h a s (record { request_hash = s.request_hash; result = durable })
        ≡ ok body
  unfolding stored_body stored_result_response ok_or_unprocessed
  answer_of_stored a s body durable opens ordinary kept = ground (
    arith,
    eq_iff s.request_hash s.request_hash,
    eq_iff (h.kind s.payload) "checkout.create",
    opens s.command a body durable,
  )

  execute_stored :
      (a : String) (s : Submission P) (now : ℕ) (state : State) (r : StoredResult)
      → state.command_results a s.command.command_id ≡ some r
      → execute h a s now state ≡ (stored_result_response h a s r, state)
  unfolding execute
  execute_stored a s now state r known = ground arith

  -- A command that was answered with a success is answered with the same success when its actor
  -- submits it again, at any later time and after any submissions of anyone, and the repetition
  -- changes nothing: its effect is not repeated. A checkout, whose stored result is redacted, is
  -- excepted, and a sealed result is supposed to open again.
  pub execute_replays :
      (a : String) (s : Submission P) (now later : ℕ) (state : State) (body : Body)
      (calls : List (Call P))
      → Opens
      → h.kind s.payload ≢ "checkout.create"
      → (execute h a s now state).0 ≡ ok body
      → let state' = run calls (execute h a s now state).1 in
        execute h a s later state' ≡ (ok body, state')
  execute_replays a s now later state body calls opens ordinary answered =
      elim (Option-cases (state.command_results a s.command.command_id)) [
        | inl fresh ↦
            let (durable, kept, stored) = stored_success a s now state body fresh answered in
            let r : StoredResult = record { request_hash = s.request_hash; result = durable } in
            execute_stored a s later (run calls (execute h a s now state).1) r
              (run-keeps calls (execute h a s now state).1 a s.command.command_id r stored)
            ∙ ap (λ x. (x, run calls (execute h a s now state).1))
                (answer_of_stored a s body durable opens ordinary kept)
        | inr (r, known) ↦
            let first : execute h a s now state ≡ (stored_result_response h a s r, state) =
              execute_stored a s now state r known in
            let kept : (execute h a s now state).1.command_results a s.command.command_id ≡ some r =
              ap (λ x. x.1.command_results a s.command.command_id) first ∙ known in
            execute_stored a s later (run calls (execute h a s now state).1) r
              (run-keeps calls (execute h a s now state).1 a s.command.command_id r kept)
            ∙ ap (λ x. (x, run calls (execute h a s now state).1))
                (sym (ap (λ x. x.0) first) ∙ answered)
      ]

  stored_conflicts :
      (a : String) (s : Submission P) (now : ℕ) (state : State) (r : StoredResult)
      → state.command_results a s.command.command_id ≡ some r
      → r.request_hash ≢ s.request_hash
      → execute h a s now state ≡ (failed idempotency_conflict, state)
  unfolding execute stored_result_response
  stored_conflicts a s now state r known differs =
      ground (arith, eq_iff r.request_hash s.request_hash)

  answered_same_hash :
      (a : String) (s : Submission P) (r : StoredResult) (body : Body)
      → stored_result_response h a s r ≡ ok body
      → r.request_hash ≡ s.request_hash
  unfolding stored_result_response
  answered_same_hash a s r body answered = ground (arith, eq_iff r.request_hash s.request_hash)

  -- Once a command has been answered with a success, its id is taken: whatever anyone submits in
  -- between, its actor's submission of other input under that id is refused as an idempotency
  -- conflict and changes nothing.
  pub execute_conflicts_later :
      (a : String) (s other : Submission P) (now later : ℕ) (state : State) (body : Body)
      (calls : List (Call P))
      → (execute h a s now state).0 ≡ ok body
      → other.command.command_id ≡ s.command.command_id
      → s.request_hash ≢ other.request_hash
      → let state' = run calls (execute h a s now state).1 in
        execute h a other later state' ≡ (failed idempotency_conflict, state')
  execute_conflicts_later a s other now later state body calls answered same differs =
      let after = (execute h a s now state).1 in
      let refuse =
        λ (r : StoredResult) (kept : after.command_results a s.command.command_id ≡ some r)
            (hash : r.request_hash ≡ s.request_hash).
          stored_conflicts a other later (run calls after) r
            (ap ((run calls after).command_results a) same
              ∙ run-keeps calls after a s.command.command_id r kept)
            (λ e. differs (sym hash ∙ e)) in
      elim (Option-cases (state.command_results a s.command.command_id)) [
        | inl fresh ↦
            let (durable, kept, stored) = stored_success a s now state body fresh answered in
            refuse (record { request_hash = s.request_hash; result = durable }) stored refl
        | inr (r, known) ↦
            let first = execute_stored a s now state r known in
            refuse r (ap (λ x. x.1.command_results a s.command.command_id) first ∙ known)
              (answered_same_hash a s r body (sym (ap (λ x. x.0) first) ∙ answered))
      ]
