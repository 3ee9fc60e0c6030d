-- ===== src/Executor/Sound.antt =====
-- crates/service/src/executor.rs: orders and listings that a handler leaves sound.
use pubky_marketplace_servic.Prelude.{
  ◌⊎◌, ℕ, String, true, false, Option, none, some, refl, ◌==◌, string_key, ◌&&◌, ◌≡◌, inl, inr, ap,
  sym, subst, ◌∙◌, any, any_weaken, write, arith, eq_iff, Bool-cases,
}
use pubky_marketplace_servic.Domain.Machines.{
  AggregateMachine, order_machine, can_transition, command, server,
}
use pubky_marketplace_servic.Domain.Machines.Reach.{Reach, start, step}
use pubky_marketplace_servic.Store.{
  OrderRow, AuctionState, ListingRow, AuctionReserveRow, Db, Command,
}
use pubky_marketplace_servic.Orders.Action.{HandlerSuccess}
use pubky_marketplace_servic.Auctions.Awarding.{won_order}
use pubky_marketplace_servic.Auctions.Closing.{winner_of, closed_listing}
use pubky_marketplace_servic.Auctions.Closing.Award.{Given}
use pubky_marketplace_servic.Auctions.Closing.Laws.{Closed, meets}
use pubky_marketplace_servic.Orders.Contract.{IsKeyed, Advanced, triggers}
use pubky_marketplace_servic.Auctions.Bidding.{auction_updated}
use pubky_marketplace_servic.Inventory.Listings.{IsKeyed as ListingsKeyed}

-- Orders and listings are keyed by their own ids, and every order is in a state that a run of the
-- order machine reaches.
pub record IsSound (db : Db) : Type 0 where
  pub orders_keyed : IsKeyed db
  pub listings_keyed : ListingsKeyed db
  pub states : (k : String) (o : OrderRow) → db.orders k ≡ some o → Reach order_machine o.state

Reach-triggers :
    (m : AggregateMachine) (name s u : String) → Reach m s → triggers m name s u ≡ true → Reach m u
unfolding triggers can_transition
Reach-triggers m name s u before h = elim (Bool-cases (s == u)) [
  | inl same ↦ subst (Reach m) ((eq_iff s u).0 same) before
  | inr differ ↦ step before (
      ground (
        arith,
        any_weaken
            (λ x.
              x.from == s
              && x.to == u
              && any (λ v. elim v [ command n ↦ n == name | server n ↦ false ]) x.via)
            (λ x. x.from == s && x.to == u) m.transitions (λ x k. ground arith) h,
      ))
]

pub Advanced-IsSound :
    (name kind actor recipient : String) (c : Command) (old new : OrderRow) (db db' : Db)
    (s : HandlerSuccess)
    → IsSound db
    → db.orders old.id ≡ some old
    → Advanced name kind actor recipient c old new db db' s
    → IsSound db'
Advanced-IsSound name kind actor recipient c old new db db' s sound found moved = record {
  orders_keyed = λ k o at.
      let here : write db.orders old.id new k ≡ some o = sym (ap (λ t. t k) moved.stored) ∙ at in
      elim (Bool-cases (k == old.id)) [
        | inl hit ↦ ground (arith, eq_iff k old.id, moved.same_id)
        | inr miss ↦ sound.orders_keyed k o (ground arith)
      ];
  listings_keyed = λ k l at. sound.listings_keyed k l (sym (ap (λ t. t k) moved.listings) ∙ at);
  states = λ k o at.
      let here : write db.orders old.id new k ≡ some o = sym (ap (λ t. t k) moved.stored) ∙ at in
      elim (Bool-cases (k == old.id)) [
        | inl hit ↦
            let same : new ≡ o = ground arith in
            subst (λ x. Reach order_machine x.state) same
              (Reach-triggers order_machine name old.state new.state (sound.states old.id old found)
                moved.edge)
        | inr miss ↦ sound.states k o (ground arith)
      ];
}

pub stored_at :
    (db : Db) (k : String) (o : OrderRow)
    → IsSound db
    → db.orders k ≡ some o
    → db.orders o.id ≡ some o
stored_at db k o sound found = ap db.orders (sound.orders_keyed k o found) ∙ found

pub same-IsSound :
    (db db' : Db) → db'.orders ≡ db.orders → ListingsKeyed db' → IsSound db → IsSound db'
same-IsSound db db' same keyed sound = record {
  orders_keyed = λ k o at. sound.orders_keyed k o (sym (ap (λ t. t k) same) ∙ at);
  listings_keyed = keyed;
  states = λ k o at. sound.states k o (sym (ap (λ t. t k) same) ∙ at);
}

written-IsSound :
    (o : OrderRow) (db db' : Db)
    → Reach order_machine o.state
    → db'.orders ≡ write db.orders o.id o
    → ListingsKeyed db'
    → IsSound db
    → IsSound db'
written-IsSound o db db' reached same keyed sound = record {
  orders_keyed = λ k x at.
      ground (arith, sym (ap (λ t. t k) same) ∙ at, eq_iff k o.id, sound.orders_keyed k x);
  listings_keyed = keyed;
  states = λ k x at.
      let here : write db.orders o.id o k ≡ some x = sym (ap (λ t. t k) same) ∙ at in
      elim (Bool-cases (k == o.id)) [
        | inl hit ↦
            let same_order : o ≡ x = ground arith in
            subst (λ y. Reach order_machine y.state) same_order reached
        | inr miss ↦ sound.states k x (ground arith)
      ];
}

Given-IsSound :
    (c : Command) (l : ListingRow) (a : AuctionState) (w : Option String) (now : ℕ) (db db' : Db)
    → Given c l a w now db db'
    → IsSound db
    → IsSound db'
unfolding won_order order_machine
Given-IsSound c l a none now db db' given sound =
    same-IsSound db db' given.orders
      (λ k x at. sound.listings_keyed k x (sym (ap (λ t. t k) given.listings) ∙ at)) sound
Given-IsSound c l a (some w) now db db' given sound =
    written-IsSound (won_order l a w given.order_id now) db db' (start refl) given.orders
      (λ k x at. sound.listings_keyed k x (sym (ap (λ t. t k) given.listings) ∙ at)) sound

pub Closed-IsSound :
    (c : Command) (l : ListingRow) (a : AuctionState) (reserve : AuctionReserveRow) (now : ℕ)
    (db db' : Db)
    → db.listings l.aggregate_id ≡ some l
    → Closed c l a reserve now db db'
    → IsSound db
    → IsSound db'
unfolding closed_listing auction_updated
Closed-IsSound c l a reserve now db db' found closed sound =
    Given-IsSound c l a (winner_of l a (meets reserve a)) now _ db' closed.given (
      same-IsSound db _ refl
        (λ k x at. ground (arith, at, eq_iff k l.aggregate_id, sound.listings_keyed k x)) sound)

-- A command leaves an order as it was, or moves it along an edge of the order machine that the
-- command triggers.
abbrev pub Moved : String → OrderRow → OrderRow → Type 0
Moved name o o' = (o' ≡ o) ⊎ (triggers order_machine name o.state o'.state ≡ true)

abbrev pub Evolves : String → Db → Db → Type 0
Evolves name db db' =
    (k : String) (o : OrderRow)
    → db.orders k ≡ some o
    → (o' : OrderRow) × (db'.orders k ≡ some o') × Moved name o o'

pub same-Evolves : (name : String) (db db' : Db) → db'.orders ≡ db.orders → Evolves name db db'
same-Evolves name db db' same k o found = (o, ap (λ t. t k) same ∙ found, inl refl)

pub before-Evolves :
    (name : String) (db mid db' : Db)
    → mid.orders ≡ db.orders
    → Evolves name mid db'
    → Evolves name db db'
before-Evolves name db mid db' same moves k o found = moves k o (ap (λ t. t k) same ∙ found)

pub Advanced-Evolves :
    (name kind actor recipient : String) (c : Command) (old new : OrderRow) (db db' : Db)
    (s : HandlerSuccess)
    → db.orders old.id ≡ some old
    → Advanced name kind actor recipient c old new db db' s
    → Evolves name db db'
Advanced-Evolves name kind actor recipient c old new db db' s found moved k o at =
    elim (Bool-cases (k == old.id)) [
      | inl hit ↦
          let same : old ≡ o = ground (arith, found, at, ap db.orders ((eq_iff k old.id).0 hit)) in
          (
            new,
            ap (λ t. t k) moved.stored ∙ ground arith,
            inr (subst (λ x. triggers order_machine name x.state new.state ≡ true) same moved.edge),
          )
      | inr miss ↦ (o, ap (λ t. t k) moved.stored ∙ ground arith, inl refl)
    ]

Given-Evolves :
    (name : String) (c : Command) (l : ListingRow) (a : AuctionState) (w : Option String) (now : ℕ)
    (db db' : Db)
    → Given c l a w now db db'
    → Evolves name db db'
Given-Evolves name c l a none now db db' given k o at = same-Evolves name db db' given.orders k o at
Given-Evolves name c l a (some w) now db db' given k o at =
    elim (Bool-cases (k == given.order_id)) [
      | inl hit ↦
          absurd (ground (arith, given.fresh, at, ap db.orders ((eq_iff k given.order_id).0 hit)))
      | inr miss ↦ (o, ap (λ t. t k) given.orders ∙ ground arith, inl refl)
    ]

pub Closed-Evolves :
    (name : String) (c : Command) (l : ListingRow) (a : AuctionState) (reserve : AuctionReserveRow)
    (now : ℕ) (db db' : Db)
    → Closed c l a reserve now db db'
    → Evolves name db db'
Closed-Evolves name c l a reserve now db db' closed k o at =
    Given-Evolves name c l a (winner_of l a (meets reserve a)) now _ db' closed.given k o at
