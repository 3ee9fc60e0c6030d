-- ===== src/Drops/Lifecycle/Laws.antt =====
-- crates/service/src/handlers/drops.rs: the lazy transitions against server time and the machine.
use pubky_marketplace_servic.Prelude.{
  ℕ, String, true, false, Option, some, ◌==◌, string_key, ◌≡◌, ◌≤◌, ◌<◌, ◌+◌, contains, inl, inr,
  refl, ap, arith, eq_iff, Bool-cases, write, leb, subst, sym,
}
use pubky_marketplace_servic.Domain.Machines.{drop_machine, can_transition}
use pubky_marketplace_servic.Store.{DropRow, Db, Command, done}
use pubky_marketplace_servic.Drops.Lifecycle.{
  has_ended, derived_state, is_active_state, effective_state, moved_to, transition_drop,
  apply_time_transitions,
}

-- The counters and caps of a drop.
pub record SameTerms (d d' : DropRow) : Type 0 where
  pub id : d'.aggregate_id ≡ d.aggregate_id
  pub seller : d'.seller_pubky ≡ d.seller_pubky
  pub total : d'.total_quantity ≡ d.total_quantity
  pub limit : d'.per_buyer_limit ≡ d.per_buyer_limit
  pub remaining : d'.remaining_quantity ≡ d.remaining_quantity
  pub paid : d'.paid_quantity ≡ d.paid_quantity

-- Server time gives one of three states.
derived_cases {ℓ} :
    (P : String → Type ℓ) (starts_at : ℕ) (ends_at : Option ℕ) (now : ℕ)
    → P "ended_closed"
    → (starts_at ≤ now → P "live")
    → (now < starts_at → P "announced")
    → P (derived_state starts_at ends_at now)
unfolding derived_state
derived_cases P starts_at ends_at now closed live announced =
    elim (Bool-cases (has_ended ends_at now)) [
      | inl e ↦ rw e closed
      | inr e ↦ elim (Bool-cases (leb starts_at now)) [
        | inl begun ↦ rw (e, begun) (live (ground arith))
        | inr early ↦ rw (e, early) (announced (ground arith))
      ]
    ]

derived_edge :
    (state : String) (starts_at : ℕ) (ends_at : Option ℕ) (now : ℕ)
    → is_active_state state ≡ true
    → (state ≡ "live" → starts_at ≤ now)
    → can_transition drop_machine state (derived_state starts_at ends_at now) ≡ true
unfolding can_transition drop_machine is_active_state
derived_edge state starts_at ends_at now active begun = elim (Bool-cases (state == "announced")) [
  | inl e ↦
      subst (λ x. can_transition drop_machine x (derived_state starts_at ends_at now) ≡ true)
        (sym ((eq_iff state "announced").0 e))
        (derived_cases (λ x. can_transition drop_machine "announced" x ≡ true) starts_at ends_at now
          refl (λ _. refl) (λ _. refl))
  | inr n ↦
      let live : state ≡ "live" = (eq_iff state "live").0 (ground arith) in
      subst (λ x. can_transition drop_machine x (derived_state starts_at ends_at now) ≡ true)
        (sym live)
        (derived_cases (λ x. can_transition drop_machine "live" x ≡ true) starts_at ends_at now refl
          (λ _. refl) (λ early. absurd (omega (arith, begun live))))
]

-- A finished drop stays as it is.
kept_edge :
    (state : String)
    → is_active_state state ≡ false
    → (contains drop_machine.states state ≡ true)
    → can_transition drop_machine state state ≡ true
unfolding can_transition
kept_edge state ended known = ground (arith, eq_iff state state)

module _ (drop : DropRow) (command : Command) (now : ℕ) (db db' : Db) (drop' : DropRow)
    (stored : db.drops drop.aggregate_id ≡ some drop)
    (applied : apply_time_transitions drop command now db ≡ done drop' db') where
  transition_fields :
      (target : String)
      → transition_drop drop target command now db ≡ done drop' db'
      → (drop' ≡ moved_to target (drop.revision + 1) now drop)
        × (db'.drops ≡ write db.drops drop.aggregate_id drop')
  unfolding transition_drop
  transition_fields target h = elim (Bool-cases (is_active_state target)) [
    | inl e ↦ (ground arith, ground arith)
    | inr e ↦ (ground arith, ground arith)
  ]

  -- After the lazy transitions the row holds the state that server time gives an announced or live
  -- drop, and an ended drop its own; the caps and counters of the drop are as before, the stored
  -- row is the returned one, and the step is one that the drop machine permits, for a declared
  -- state and a live drop that has started.
  pub apply_time_transitions-effective :
      contains drop_machine.states drop.state ≡ true
      → (drop.state ≡ "live" → drop.starts_at ≤ now)
      → (drop'.state ≡ effective_state drop now)
        × SameTerms drop drop'
        × (db'.drops drop.aggregate_id ≡ some drop')
        × (can_transition drop_machine drop.state drop'.state ≡ true)
  unfolding apply_time_transitions effective_state moved_to
  apply_time_transitions-effective known begun = elim (Bool-cases (is_active_state drop.state)) [
    | inl active ↦
        let target = derived_state drop.starts_at drop.ends_at now in
        let edge = derived_edge drop.state drop.starts_at drop.ends_at now active begun in
        elim (Bool-cases (target == drop.state)) [
          | inl due ↦
              let same : target ≡ drop.state = (eq_iff target drop.state).0 due in
              (
                ground arith,
                ground arith,
                ground arith,
                ground (arith, ap (can_transition drop_machine drop.state) same),
              )
          | inr moved ↦
              let (row, put) = transition_fields target (ground arith) in
              (
                ground arith,
                ground arith,
                ground (
                  arith,
                  eq_iff drop.aggregate_id drop.aggregate_id,
                  ap (λ t. t drop.aggregate_id) put,
                ),
                ground (arith, ap (λ d. can_transition drop_machine drop.state d.state) row),
              )
        ]
    | inr ended ↦
        (ground arith, ground arith, ground arith, ground (arith, kept_edge drop.state ended known))
  ]
