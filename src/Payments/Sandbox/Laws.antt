-- ===== src/Payments/Sandbox/Laws.antt =====
-- crates/service/src/handlers/payment.rs: which advances succeed, and what they leave alone.
use pubky_marketplace_servic.Prelude.{
  find, map, subst, refl, ℕ, String, true, false, some, List, [], ◌∷◌, ◌==◌, string_key, nat_key,
  ◌&&◌, ◌≡◌, ◌≤◌, ap, ◌∙◌, inl, inr, if◌then◌else◌, is_some, contains, ◌+◌, arith, eq_iff,
  Option-cases, Bool-cases, sym, ltb,
}
use pubky_marketplace_servic.Domain.Machines.{payment_machine}
use pubky_marketplace_servic.Store.{
  OrderRow, OrderLine, PaymentRow, Db, Command, done, gets, pure, ◌>>=◌, >>-eq-done, >>=-eq-done,
}
use pubky_marketplace_servic.Orders.Action.{HandlerSuccess}
use pubky_marketplace_servic.Orders.Contract.{triggers}
use pubky_marketplace_servic.Inventory.Holds.{
  acquire_line, acquire_lines, acquire_payment_hold, set_order, armed, held, seconds,
}
use pubky_marketplace_servic.Payments.Pins.{unpinnable}
use pubky_marketplace_servic.Payments.Confirmation.{ConfirmKeys}
use pubky_marketplace_servic.Payments.RefundRoute.{find_payment, set_payment}
use pubky_marketplace_servic.Payments.Sandbox.{
  SandboxPaymentTarget, detected, confirmed, expired, manual_review, target_text, is_confirmed,
  AdvanceSandboxPaymentPayload, allowed, guard_advance, start_payment_hold, refund_route,
  settle_payment, log_advance, advanced, update_payment, move_payment, lock_and_move, advance,
}

-- The rows of receipts and of payments are as they were.
record Kept (db db' : Db) : Type 0 where
  receipts : db'.receipts ≡ db.receipts
  payments : db'.payments ≡ db.payments

Kept-trans : (a b c : Db) → Kept a b → Kept b c → Kept a c
Kept-trans a b c p q = record {
  receipts = q.receipts ∙ p.receipts;
  payments = q.payments ∙ p.payments;
}

acquire_line-Kept :
    (created_at now : ℕ) (line : OrderLine) (db mid : Db)
    → acquire_line created_at now line db ≡ done tt mid
    → Kept db mid
unfolding acquire_line
acquire_line-Kept created_at now line db mid h =
    elim (Option-cases (db.listings line.listing_aggregate_id)) [
      | inl missing ↦ absurd (ground arith)
      | inr (x, at_line) ↦ record { receipts = ground arith; payments = ground arith }
    ]

acquire_lines-Kept :
    (created_at now : ℕ) (lines : List OrderLine) (db db' : Db)
    → acquire_lines created_at now lines db ≡ done tt db'
    → Kept db db'
unfolding acquire_lines
acquire_lines-Kept created_at now [] db db' h = record {
  receipts = ground arith;
  payments = ground arith;
}
acquire_lines-Kept created_at now (line ∷ lines) db db' h =
    let (_, mid, first, rest) =
      >>-eq-done (acquire_line created_at now line) (acquire_lines created_at now lines) db db' tt
        h in
    Kept-trans db mid db' (acquire_line-Kept created_at now line db mid first)
      (acquire_lines-Kept created_at now lines mid db' rest)

set_order-Kept :
    (o o' : OrderRow) (set : OrderRow → OrderRow) (db db' : Db)
    → set_order o set db ≡ done o' db'
    → Kept db db'
unfolding set_order
set_order-Kept o o' set db db' h = elim (Option-cases (db.orders o.id)) [
  | inl missing ↦ absurd (ground arith)
  | inr (row, found) ↦ record { receipts = ground arith; payments = ground arith }
]

acquire_payment_hold-Kept :
    (o o' : OrderRow) (window now : ℕ) (source : String) (db db' : Db)
    → acquire_payment_hold o window source now db ≡ done o' db'
    → Kept db db'
unfolding acquire_payment_hold
acquire_payment_hold-Kept o o' window now source db db' h =
    elim (Bool-cases (is_some o.auction_aggregate_id)) [
      | inl auctioned ↦ record { receipts = ground arith; payments = ground arith }
      | inr ordinary ↦ elim (Bool-cases o.stock_held) [
        | inl again ↦
            set_order-Kept o o' (armed (now + seconds window) source now) db db' (ground arith)
        | inr first ↦
            let (_, mid, took, marked) =
              >>-eq-done (acquire_lines o.created_at now o.lines)
                (set_order o (held (now + seconds window) source now)) db db' o' (ground arith) in
            Kept-trans db mid db' (acquire_lines-Kept o.created_at now o.lines db mid took)
              (set_order-Kept o o' (held (now + seconds window) source now) mid db' marked)
      ]
    ]

-- The handler's own table of transitions is part of the payment machine's.
allowed-triggers :
    (state : String) (target : SandboxPaymentTarget)
    → contains (allowed state) (target_text target) ≡ true
    → triggers payment_machine "payment.sandbox_advance" state (target_text target) ≡ true
unfolding allowed target_text triggers payment_machine
allowed-triggers state detected h =
    ground (arith, eq_iff state "awaiting_entitlement", eq_iff state "detected")
allowed-triggers state confirmed h =
    ground (arith, eq_iff state "awaiting_entitlement", eq_iff state "detected")
allowed-triggers state expired h =
    ground (arith, eq_iff state "awaiting_entitlement", eq_iff state "detected")
allowed-triggers state manual_review h =
    ground (arith, eq_iff state "awaiting_entitlement", eq_iff state "detected")

guard_advance_done :
    (actor : String) (c : Command) (payload : AdvanceSandboxPaymentPayload) (p : PaymentRow)
    (db mid : Db)
    → guard_advance actor c payload p db ≡ done tt mid
    → (mid ≡ db)
      × (p.buyer_pubky ≡ actor)
      × (p.adapter ≡ "sandbox")
      × (c.expected_revision ≡ p.revision)
      × (contains (allowed p.state) (target_text payload.target) ≡ true)
      × ((is_confirmed payload.target && ltb payload.confirmations 1) ≡ false)
unfolding guard_advance
guard_advance_done actor c payload p db mid h = (
  ground arith,
  ground (arith, eq_iff p.buyer_pubky actor),
  ground (arith, eq_iff p.adapter "sandbox"),
  ground arith,
  ground arith,
  ground arith,
)

confirmations_needed :
    (target : SandboxPaymentTarget) (n : ℕ)
    → (is_confirmed target && ltb n 1) ≡ false
    → target ≡ confirmed
    → 1 ≤ n
unfolding is_confirmed
confirmations_needed target n h e = ground arith

start_payment_hold-Kept :
    (p : PaymentRow) (o o' : OrderRow) (window now : ℕ) (db db' : Db)
    → start_payment_hold p o window now db ≡ done o' db'
    → Kept db db'
unfolding start_payment_hold
start_payment_hold-Kept p o o' window now db db' h =
    elim (Bool-cases (p.state == "awaiting_entitlement")) [
      | inl first ↦ acquire_payment_hold-Kept o o' window now "sandbox" db db' (
          sym
            (ap (λ b. (if b then acquire_payment_hold o window "sandbox" now else pure o) db) first)
          ∙ h)
      | inr later ↦ record { receipts = ground arith; payments = ground arith }
    ]

find-id :
    (id : String) (rows : List PaymentRow) (p : PaymentRow)
    → find (λ q. q.id == id) rows ≡ some p
    → p.id ≡ id
find-id id [] p h = absurd (ground arith)
find-id id (q ∷ rows) p h = elim (Bool-cases (q.id == id)) [
  | inl hit ↦ let same : q ≡ p = ground arith in ap (λ x. x.id) (sym same) ∙ (eq_iff q.id id).0 hit
  | inr miss ↦ find-id id rows p (ground arith)
]

find-set :
    (id : String) (set : PaymentRow → PaymentRow) (rows : List PaymentRow) (p : PaymentRow)
    → ((q : PaymentRow) → (set q).id ≡ q.id)
    → find (λ q. q.id == id) rows ≡ some p
    → find (λ q. q.id == id) (map (λ q. if q.id == id then set q else q) rows) ≡ some (set p)
find-set id set [] p keeps h = absurd (ground arith)
find-set id set (q ∷ rows) p keeps h = elim (Bool-cases (q.id == id)) [
  | inl hit ↦
      let same : q ≡ p = ground arith in
      let still : ((set q).id == id) ≡ true = ap (λ x. x == id) (keeps q) ∙ hit in
      rw (hit, still) (ap (λ x. some (set x)) same)
  | inr miss ↦ rw (miss, miss) (find-set id set rows p keeps (ground arith))
]

update_payment_done :
    (id : String) (set : PaymentRow → PaymentRow) (row p : PaymentRow) (db db' : Db)
    → ((q : PaymentRow) → (set q).id ≡ q.id)
    → find_payment id db ≡ some p
    → update_payment id set db ≡ done row db'
    → (db'.receipts ≡ db.receipts) × (find_payment id db' ≡ some (set p))
unfolding update_payment set_payment find_payment
update_payment_done id set row p db db' keeps found h = (
  ground (arith, found, h),
  ap (find (λ q. q.id == id)) {x = db'.payments}
        {y = map (λ q. if q.id == id then set q else q) db.payments} (ground (arith, found, h))
      ∙ find-set id set db.payments p keeps found,
)

log_advance-Kept :
    (keys : ConfirmKeys) (actor : String) (c : Command) (payload : AdvanceSandboxPaymentPayload)
    (p : PaymentRow) (o : OrderRow) (now : ℕ) (updated : PaymentRow) (db db' : Db)
    (s : HandlerSuccess)
    → is_confirmed payload.target ≡ false
    → log_advance keys actor c payload p o now updated db ≡ done s db'
    → Kept db db'
unfolding log_advance
log_advance-Kept keys actor c payload p o now updated db db' s unsettled h = record {
  receipts = ground arith;
  payments = ground arith;
}

-- What an advance to another target than `confirmed` leaves: no receipt more, and the payment at its
-- target, one revision on, with the confirmations given.
pub record Unsettled (payload : AdvanceSandboxPaymentPayload) (p : PaymentRow) (db db' : Db)
    : Type 0 where
  pub receipts : db'.receipts ≡ db.receipts
  pub after : PaymentRow
  pub stored : find_payment payload.payment_id db' ≡ some after
  pub state : after.state ≡ target_text payload.target
  pub revision : after.revision ≡ p.revision + 1
  pub confirmations : after.confirmations ≡ payload.confirmations
  pub same_order : after.order_id ≡ p.order_id

settle_payment-Unsettled :
    (keys : ConfirmKeys) (actor : String) (c : Command) (payload : AdvanceSandboxPaymentPayload)
    (p : PaymentRow) (o : OrderRow) (now : ℕ) (db db' : Db) (s : HandlerSuccess)
    → p.id ≡ payload.payment_id
    → find_payment payload.payment_id db ≡ some p
    → is_confirmed payload.target ≡ false
    → settle_payment keys actor c payload p o now db ≡ done s db'
    → Unsettled payload p db db'
unfolding settle_payment advanced find_payment
settle_payment-Unsettled keys actor c payload p o now db db' s same found unsettled h =
    let (row, mid, moved, rest) =
      >>=-eq-done (update_payment p.id (advanced payload now))
        (log_advance keys actor c payload p o now) db db' s h in
    let (receipts, stored) =
      update_payment_done p.id (advanced payload now) row p db mid (λ q. refl)
        (ap (λ i. find_payment i db) same ∙ found) moved in
    let kept = log_advance-Kept keys actor c payload p o now row mid db' s unsettled rest in
    record {
      receipts = kept.receipts ∙ receipts;
      after = advanced payload now p;
      stored =
          ap (find (λ q. q.id == payload.payment_id)) kept.payments
          ∙ ap (λ i. find_payment i mid) (sym same)
          ∙ stored;
      state = refl;
      revision = refl;
      confirmations = refl;
      same_order = refl;
    }

-- What a successful advance was given: a sandbox payment of its buyer at the revision the buyer
-- knows and a move of the payment machine; and what it leaves where the target is not confirmed.
pub record Permitted (actor : String) (c : Command) (payload : AdvanceSandboxPaymentPayload)
    (db db' : Db) : Type 0 where
  pub payment : PaymentRow
  pub found : find_payment payload.payment_id db ≡ some payment
  pub by_buyer : payment.buyer_pubky ≡ actor
  pub in_sandbox : payment.adapter ≡ "sandbox"
  pub current : c.expected_revision ≡ payment.revision
  pub triggered :
      triggers payment_machine "payment.sandbox_advance" payment.state (target_text payload.target)
      ≡ true
  pub counted : payload.target ≡ confirmed → 1 ≤ payload.confirmations
  pub unsettled : is_confirmed payload.target ≡ false → Unsettled payload payment db db'

move_payment-Unsettled :
    (keys : ConfirmKeys) (window : ℕ) (actor : String) (c : Command)
    (payload : AdvanceSandboxPaymentPayload) (p : PaymentRow) (o : OrderRow) (now : ℕ) (db db' : Db)
    (s : HandlerSuccess)
    → p.id ≡ payload.payment_id
    → find_payment payload.payment_id db ≡ some p
    → is_confirmed payload.target ≡ false
    → move_payment keys window actor c payload p o now db ≡ done s db'
    → Unsettled payload p db db'
unfolding move_payment find_payment
move_payment-Unsettled keys window actor c payload p o now db db' s same found unsettled h =
    let (order, mid, started, rest) =
      >>=-eq-done (start_payment_hold p o window now)
        (λ order. gets (unpinnable order) >>= λ undeliverable.
          if is_confirmed payload.target && undeliverable
          then refund_route actor c p order now
          else settle_payment keys actor c payload p order now)
        db db' s h in
    let settled : settle_payment keys actor c payload p order now mid ≡ done s db' = ground arith in
    let kept = start_payment_hold-Kept p o order window now db mid started in
    let left =
      settle_payment-Unsettled keys actor c payload p order now mid db' s same
        (ap (find (λ q. q.id == payload.payment_id)) kept.payments ∙ found) unsettled settled in
    record {
      receipts = left.receipts ∙ kept.receipts;
      after = left.after;
      stored = left.stored;
      state = left.state;
      revision = left.revision;
      confirmations = left.confirmations;
      same_order = left.same_order;
    }

lock_and_move-Unsettled :
    (keys : ConfirmKeys) (window : ℕ) (actor : String) (c : Command)
    (payload : AdvanceSandboxPaymentPayload) (p : PaymentRow) (now : ℕ) (db db' : Db)
    (s : HandlerSuccess)
    → p.id ≡ payload.payment_id
    → find_payment payload.payment_id db ≡ some p
    → is_confirmed payload.target ≡ false
    → lock_and_move keys window actor c payload p now db ≡ done s db'
    → Unsettled payload p db db'
unfolding lock_and_move
lock_and_move-Unsettled keys window actor c payload p now db db' s same found unsettled h =
    elim (Option-cases (db.orders p.order_id)) [
      | inl missing ↦ absurd (ground arith)
      | inr (o, stored) ↦
          move_payment-Unsettled keys window actor c payload p o now db db' s same found unsettled
            (ground arith)
    ]

module _ (keys : ConfirmKeys) (window : ℕ) (actor : String) (c : Command)
    (payload : AdvanceSandboxPaymentPayload) (now : ℕ) (db db' : Db) (s : HandlerSuccess) where
  -- `payment.sandbox_advance` succeeds only for a stored sandbox payment of the actor, at the
  -- revision the command expects, and only along a transition that the payment machine gives to
  -- this command; a confirmation carries at least one confirmation. An advance to any other target leaves
  -- the payment at that target, one revision on, and adds no receipt.
  pub advance-Permitted :
      advance keys window actor c payload now db ≡ done s db' → Permitted actor c payload db db'
  unfolding advance find_payment
  advance-Permitted h = elim (Option-cases (find_payment payload.payment_id db)) [
    | inl missing ↦ absurd (ground arith)
    | inr (p, found) ↦
        let (_, mid, guarded, moved) =
          >>-eq-done (guard_advance actor c payload p)
            (lock_and_move keys window actor c payload p now) db db' s (ground arith) in
        let (same, by_buyer, in_sandbox, current, listed, counted) =
          guard_advance_done actor c payload p db mid guarded in
        record {
          payment = p;
          found = found;
          by_buyer = by_buyer;
          in_sandbox = in_sandbox;
          current = current;
          triggered = allowed-triggers p.state payload.target listed;
          counted = confirmations_needed payload.target payload.confirmations counted;
          unsettled = λ unsettled.
              subst (λ d. Unsettled payload p d db') same
                (lock_and_move-Unsettled keys window actor c payload p now mid db' s
                  (find-id payload.payment_id db.payments p found)
                  (ap (find_payment payload.payment_id) same ∙ found) unsettled moved);
        }
  ]
