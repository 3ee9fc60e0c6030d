-- ===== src/Domain/Machines/Facts.antt =====
-- crates/domain/src/state_machines.rs: the eight tables, evaluated.
use pubky_marketplace_servic.Prelude.{
  String, Bool, true, false, List, [], ◌∷◌, ◌≡◌, ◌≢◌, refl, not, ◌↔◌, all, any, any-all, contains,
  ◌==◌, string_key, ◌&&◌, ◌||◌, arith, eq_iff, Bool-cases, inl, inr, ap, &&-eq_true,
}
use pubky_marketplace_servic.Domain.Machines.Types.{
  Via, command, server, Transition, AggregateMachine, can_transition,
}
use pubky_marketplace_servic.Domain.Machines.Tables.{
  listing_machine, reservation_machine, offer_machine, auction_machine, return_machine,
  payment_machine, drop_machine,
}
use pubky_marketplace_servic.Domain.Machines.OrderTable.{order_machine}
use pubky_marketplace_servic.Domain.Machines.Reach.{
  Reach, well_formed, explored, rows_permitted, Reach-exact,
}

abbrev all_machines : List AggregateMachine
all_machines =
    listing_machine ∷ reservation_machine ∷ offer_machine ∷ auction_machine ∷ order_machine
    ∷ payment_machine ∷ return_machine ∷ drop_machine ∷ []

abbrev Each : (AggregateMachine → Type 0) → List AggregateMachine → Type 0
Each P [] = Unit {0}
Each P (m ∷ ms) = P m × Each P ms

-- Exactly the states that the table declares and does not list as unreachable are reached.
abbrev ReachesDeclared : AggregateMachine → Type 0
ReachesDeclared m =
    (s : String)
    → Reach m s ↔ ((contains m.states s && not (contains m.unreachable_states s)) ≡ true)

IsSound : AggregateMachine → Type 0
IsSound m = (well_formed m ≡ true) × (explored m ≡ true) × (rows_permitted m ≡ true)

machines-IsSound : Each IsSound all_machines
unfolding IsSound well_formed explored rows_permitted can_transition listing_machine
    reservation_machine offer_machine auction_machine return_machine payment_machine drop_machine
    order_machine
machines-IsSound = (
  (refl, refl, refl),
  (
    (refl, refl, refl),
    (
      (refl, refl, refl),
      (
        (refl, refl, refl),
        ((refl, refl, refl), ((refl, refl, refl), ((refl, refl, refl), ((refl, refl, refl), tt)))),
      ),
    ),
  ),
)

Each-map :
    {P Q : AggregateMachine → Type 0} (ms : List AggregateMachine)
    → ((m : AggregateMachine) → P m → Q m)
    → Each P ms
    → Each Q ms
Each-map [] f h = tt
Each-map (m ∷ ms) f h = (f m h.0, Each-map ms f h.1)

-- In each of the eight machines, the states that some run of permitted steps from the initial
-- state reaches are exactly the declared states outside the list of unreachable states.
pub machines_reach_declared : Each ReachesDeclared all_machines
unfolding IsSound
machines_reach_declared =
    Each-map {P = IsSound} {Q = ReachesDeclared} all_machines (λ m h s. Reach-exact m s h.0 h.1 h.2)
      machines-IsSound

-- No permitted step leaves the state.
abbrev IsFinal : AggregateMachine → String → Type 0
IsFinal m s = (u : String) → can_transition m s u ≡ true → s ≡ u

has_no_exit : AggregateMachine → String → Bool
has_no_exit m s = all (λ x. not (x.from == s)) m.transitions

has_no_exit-IsFinal : (m : AggregateMachine) (s : String) → has_no_exit m s ≡ true → IsFinal m s
unfolding has_no_exit can_transition
has_no_exit-IsFinal m s f u h = elim (Bool-cases (s == u)) [
  | inl same ↦ (eq_iff s u).0 same
  | inr differ ↦
      let (x, hit, miss) =
        any-all (λ (x : Transition). x.from == s && x.to == u) (λ x. not (x.from == s))
          m.transitions (ground arith) f in
      absurd (ground arith)
]

-- In the declared machines a confirmed payment, a settled reservation, a resolved offer, a closed
-- auction and an ended drop are final: no declared transition leaves them.
pub settled_states-IsFinal :
    IsFinal payment_machine "confirmed"
    × IsFinal reservation_machine "converted"
    × IsFinal reservation_machine "released"
    × IsFinal reservation_machine "expired"
    × IsFinal offer_machine "converted"
    × IsFinal offer_machine "rejected"
    × IsFinal offer_machine "withdrawn"
    × IsFinal offer_machine "expired"
    × IsFinal auction_machine "sold"
    × IsFinal auction_machine "unsold"
    × IsFinal drop_machine "ended_sold_out"
    × IsFinal drop_machine "ended_closed"
    × IsFinal drop_machine "ended_cancelled"
unfolding has_no_exit payment_machine reservation_machine offer_machine auction_machine drop_machine
settled_states-IsFinal = (
  has_no_exit-IsFinal payment_machine "confirmed" refl,
  has_no_exit-IsFinal reservation_machine "converted" refl,
  has_no_exit-IsFinal reservation_machine "released" refl,
  has_no_exit-IsFinal reservation_machine "expired" refl,
  has_no_exit-IsFinal offer_machine "converted" refl,
  has_no_exit-IsFinal offer_machine "rejected" refl,
  has_no_exit-IsFinal offer_machine "withdrawn" refl,
  has_no_exit-IsFinal offer_machine "expired" refl,
  has_no_exit-IsFinal auction_machine "sold" refl,
  has_no_exit-IsFinal auction_machine "unsold" refl,
  has_no_exit-IsFinal drop_machine "ended_sold_out" refl,
  has_no_exit-IsFinal drop_machine "ended_closed" refl,
  has_no_exit-IsFinal drop_machine "ended_cancelled" refl,
)

abbrev is_command : Via → Bool
is_command (command name) = true
is_command (server name) = false

-- A step that some client command may take.
unfoldable pub by_command : AggregateMachine → String → String → Bool
by_command m s u = any (λ x. x.from == s && x.to == u && any is_command x.via) m.transitions

-- A run of an order on client commands alone that has not come to `paid`.
pub data UnpaidRun : String → Type 0 where
  placed : {s : String} → s ≡ order_machine.initial → UnpaidRun s
  next :
      {s u : String} → UnpaidRun s → by_command order_machine s u ≡ true → u ≢ "paid" → UnpaidRun u

abbrev pub unpaid_states : List String
unpaid_states = "pending_payment" ∷ "cancelled" ∷ "refunded_external" ∷ []

unpaid_closed :
    all
      (λ x.
        not (contains unpaid_states x.from && any is_command x.via)
        || contains unpaid_states x.to
        || x.to == "paid")
      order_machine.transitions
    ≡ true
unfolding order_machine
unpaid_closed = refl

unpaid_step :
    (r s from to : String) (commanded : Bool)
    → contains unpaid_states r ≡ true
    → s ≢ "paid"
    → from ≡ r
    → to ≡ s
    → commanded ≡ true
    → (not (contains unpaid_states from && commanded) || contains unpaid_states to || to == "paid")
      ≡ true
    → contains unpaid_states s ≡ true
unpaid_step r s from to commanded before n p q c kept =
    ground (arith, eq_iff to "paid", ap (contains unpaid_states) p, ap (contains unpaid_states) q)

-- An order moved by client commands alone is, until it has been paid, pending, cancelled or
-- recorded as refunded: no command ships, hands over or completes an unpaid order.
pub UnpaidRun-states : (s : String) → UnpaidRun s → contains unpaid_states s ≡ true
unfolding by_command order_machine
UnpaidRun-states s (placed e) = ground (arith, eq_iff "pending_payment" s)
UnpaidRun-states s (next {s = r} before h n) =
    let (x, hit, kept) =
      any-all (λ (x : Transition). x.from == r && x.to == s && any is_command x.via)
        (λ x.
          not (contains unpaid_states x.from && any is_command x.via)
          || contains unpaid_states x.to
          || x.to == "paid")
        order_machine.transitions h unpaid_closed in
    let (ends, commanded) = &&-eq_true (x.from == r && x.to == s) (any is_command x.via) hit in
    let (from, to) = &&-eq_true (x.from == r) (x.to == s) ends in
    unpaid_step r s x.from x.to (any is_command x.via) (UnpaidRun-states r before) n
      ((eq_iff x.from r).0 from) ((eq_iff x.to s).0 to) commanded kept
