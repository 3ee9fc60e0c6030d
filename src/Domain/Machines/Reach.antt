-- ===== src/Domain/Machines/Reach.antt =====
-- crates/domain/src/state_machines.rs: the runs of an aggregate machine from its initial state.
use pubky_marketplace_servic.Prelude.{
  ℕ, zero, suc, String, Bool, true, false, List, [], ◌∷◌, ◌++◌, ◌≡◌, refl, sym, subst, not, inl,
  inr, ◌⊎◌, ◌↔◌, any, all, any-all, any_weaken, contains, ◌==◌, string_key, ◌&&◌, ◌||◌,
  if◌then◌else◌, Bool-cases, arith, eq_iff,
}
use pubky_marketplace_servic.Domain.Machines.Types.{Transition, AggregateMachine, can_transition}

-- States that some run from the initial state visits.
pub data Reach (m : AggregateMachine) : String → Type 0 where
  start : {s : String} → s ≡ m.initial → Reach m s
  step : {s u : String} → Reach m s → can_transition m s u ≡ true → Reach m u

targeted : AggregateMachine → String → Bool
targeted m s = any (λ transition. transition.to == s) m.transitions

abbrev is_empty {ℓ} : {A : Type ℓ} → List A → Bool
is_empty [] = true
is_empty (x ∷ xs) = false

-- The initial state and both ends of every transition are declared, every transition has a
-- trigger, and the states called unreachable are exactly the declared ones that are not initial
-- and that no transition produces.
unfoldable pub well_formed : AggregateMachine → Bool
unfolding targeted
well_formed m =
    contains m.states m.initial
    && all
        (λ transition.
          contains m.states transition.from
          && contains m.states transition.to
          && not (is_empty transition.via))
        m.transitions
    && all
        (λ s.
          if contains m.unreachable_states s
          then not (s == m.initial) && not (targeted m s)
          else s == m.initial || targeted m s)
        m.states
    && all (contains m.states) m.unreachable_states

contains_eq :
    (xs : List String) (a b : String)
    → (a == b) ≡ true
    → contains xs a ≡ true
    → contains xs b ≡ true
contains_eq xs a b e h = subst (λ c. contains xs c ≡ true) ((eq_iff a b).0 e) h

-- A permitted step of a well formed machine joins declared states.
can_transition-declared :
    (m : AggregateMachine) (s u : String)
    → well_formed m ≡ true
    → can_transition m s u ≡ true
    → (contains m.states s ≡ true) × (contains m.states u ≡ true)
unfolding can_transition well_formed
can_transition-declared m s u w h = elim (Bool-cases (s == u)) [
  | inl same ↦
      let here : contains m.states s ≡ true = ground (arith, eq_iff s u) in
      (here, contains_eq m.states s u same here)
  | inr differ ↦
      let (transition, ends, declared) =
        any-all (λ (x : Transition). x.from == s && x.to == u)
          (λ x. contains m.states x.from && contains m.states x.to && not (is_empty x.via))
          m.transitions (ground arith) (ground arith) in
      (
        contains_eq m.states transition.from s (ground arith) (ground arith),
        contains_eq m.states transition.to u (ground arith) (ground arith),
      )
]

-- One round of steps: the states that a transition out of `seen` produces.
targets : List String → List Transition → List String
targets seen [] = []
targets seen (x ∷ xs) =
    let rest = targets seen xs in if contains seen x.from then x.to ∷ rest else rest

-- The states at most `n` rounds of steps away from those in `seen`.
closure : ℕ → AggregateMachine → List String → List String
closure zero m seen = seen
closure (suc n) m seen = closure n m (seen ++ targets seen m.transitions)

-- Every declared state is either called unreachable or found within 14 rounds, more than any
-- machine has states to find.
unfoldable pub explored : AggregateMachine → Bool
unfolding closure targets
explored m =
    all (λ s. contains m.unreachable_states s || contains (closure 14 m (m.initial ∷ [])) s)
      m.states

all_at :
    (q : String → Bool) (xs : List String) (a : String)
    → all q xs ≡ true
    → contains xs a ≡ true
    → q a ≡ true
all_at q [] a h k = absurd (ground arith)
all_at q (x ∷ xs) a h k = elim (Bool-cases (x == a)) [
  | inl e ↦ subst (λ c. q c ≡ true) ((eq_iff x a).0 e) (ground arith)
  | inr e ↦ all_at q xs a (ground arith) (ground arith)
]

edge_of :
    (m : AggregateMachine) (s u : String)
    → can_transition m s u ≡ true
    → (s ≡ u) ⊎ (targeted m u ≡ true)
unfolding can_transition targeted
edge_of m s u h = elim (Bool-cases (s == u)) [
  | inl same ↦ inl ((eq_iff s u).0 same)
  | inr differ ↦ inr (
      any_weaken (λ x. x.from == s && x.to == u) (λ x. x.to == u) m.transitions
        (λ x k. ground arith) (ground arith))
]

-- A reached state is declared and not called unreachable.
Reach-declared :
    (m : AggregateMachine) (s : String)
    → well_formed m ≡ true
    → Reach m s
    → contains m.states s ≡ true
unfolding well_formed
Reach-declared m s w (start e) = subst (λ c. contains m.states c ≡ true) (sym e) (ground arith)
Reach-declared m s w (step {s = r} before h) = (can_transition-declared m r s w h).1

state_check :
    (m : AggregateMachine) (s : String)
    → well_formed m ≡ true
    → contains m.states s ≡ true
    → contains m.unreachable_states s ≡ true
    → ((s == m.initial) ≡ false) × (targeted m s ≡ false)
unfolding well_formed
state_check m s w declared u =
    let checked =
      all_at
        (λ c.
          if contains m.unreachable_states c
          then not (c == m.initial) && not (targeted m c)
          else c == m.initial || targeted m c)
        m.states s (ground arith) declared in
    (ground arith, ground arith)

Reach-not_unreachable :
    (m : AggregateMachine) (s : String)
    → well_formed m ≡ true
    → Reach m s
    → contains m.unreachable_states s ≡ false
Reach-not_unreachable m s w (start e) = elim (Bool-cases (contains m.unreachable_states s)) [
  | inl u ↦
      let facts = state_check m s w (Reach-declared m s w (start e)) u in
      absurd (ground (arith, eq_iff s m.initial))
  | inr n ↦ n
]
Reach-not_unreachable m s w (step {s = r} before h) = elim (edge_of m r s h) [
  | inl same ↦
      subst (λ c. contains m.unreachable_states c ≡ false) same (Reach-not_unreachable m r w before)
  | inr hit ↦ elim (Bool-cases (contains m.unreachable_states s)) [
    | inl u ↦
        let facts = state_check m s w (can_transition-declared m r s w h).1 u in
        absurd (ground arith)
    | inr n ↦ n
  ]
]

-- Every state in a list is reached.
abbrev AllReach : AggregateMachine → List String → Type 0
AllReach m [] = Unit {0}
AllReach m (x ∷ xs) = Reach m x × AllReach m xs

AllReach-append :
    (m : AggregateMachine) (xs ys : List String)
    → AllReach m xs
    → AllReach m ys
    → AllReach m (xs ++ ys)
AllReach-append m [] ys p q = q
AllReach-append m (x ∷ xs) ys p q = (p.0, AllReach-append m xs ys p.1 q)

AllReach-contains :
    (m : AggregateMachine) (xs : List String) (s : String)
    → AllReach m xs
    → contains xs s ≡ true
    → Reach m s
AllReach-contains m [] s p h = absurd (ground arith)
AllReach-contains m (x ∷ xs) s p h = elim (Bool-cases (x == s)) [
  | inl e ↦ subst (λ c. Reach m c) ((eq_iff x s).0 e) p.0
  | inr e ↦ AllReach-contains m xs s p.1 (ground arith)
]

-- `ts` is a part of the machine's transitions, each of which is a permitted step.
abbrev Permitted : AggregateMachine → List Transition → Type 0
Permitted m [] = Unit {0}
Permitted m (x ∷ xs) = (can_transition m x.from x.to ≡ true) × Permitted m xs

Permitted-all :
    (m : AggregateMachine) (ts : List Transition)
    → all (λ x. can_transition m x.from x.to) ts ≡ true
    → Permitted m ts
Permitted-all m [] h = tt
Permitted-all m (x ∷ xs) h = (ground arith, Permitted-all m xs (ground arith))

targets-AllReach :
    (m : AggregateMachine) (seen : List String) (ts : List Transition)
    → AllReach m seen
    → Permitted m ts
    → AllReach m (targets seen ts)
unfolding targets
targets-AllReach m seen [] p q = tt
targets-AllReach m seen (x ∷ xs) p q = elim (Bool-cases (contains seen x.from)) [
  | inl e ↦ rw e (step (AllReach-contains m seen x.from p e) q.0, targets-AllReach m seen xs p q.1)
  | inr e ↦ rw e (targets-AllReach m seen xs p q.1)
]

closure-AllReach :
    (n : ℕ) (m : AggregateMachine) (seen : List String)
    → Permitted m m.transitions
    → AllReach m seen
    → AllReach m (closure n m seen)
unfolding closure
closure-AllReach zero m seen q p = p
closure-AllReach (suc n) m seen q p = closure-AllReach n m (seen ++ targets seen m.transitions) q (
    AllReach-append m seen (targets seen m.transitions) p
      (targets-AllReach m seen m.transitions p q))

-- Every row of the table is a permitted step.
unfoldable pub rows_permitted : AggregateMachine → Bool
rows_permitted m = all (λ x. can_transition m x.from x.to) m.transitions

-- A machine whose table passes the three checks reaches exactly the states that it declares and does
-- not call unreachable.
pub Reach-exact :
    (m : AggregateMachine) (s : String)
    → well_formed m ≡ true
    → explored m ≡ true
    → rows_permitted m ≡ true
    → Reach m s ↔ ((contains m.states s && not (contains m.unreachable_states s)) ≡ true)
unfolding explored rows_permitted
Reach-exact m s w x q = (
  λ r. ground (arith, Reach-declared m s w r, Reach-not_unreachable m s w r),
  λ h.
      AllReach-contains m (closure 14 m (m.initial ∷ [])) s
        (closure-AllReach 14 m (m.initial ∷ []) (Permitted-all m m.transitions q) (start refl, tt))
        (ground (
          arith,
          all_at
              (λ c. contains m.unreachable_states c || contains (closure 14 m (m.initial ∷ [])) c)
              m.states s x,
        )),
)
