-- ===== src/Orders/Refund/Laws.antt =====
-- crates/service/src/handlers/returns.rs: the recorded external refund, on success.
use pubky_marketplace_servic.Prelude.{
  ℕ, String, true, false, Option, none, some, ◌==◌, string_key, ◌&&◌, ◌||◌, ◌≡◌, ◌≤◌, any, refl,
  arith, inl, inr, ◌⊎◌, Option-cases, Bool-cases, eq_iff, write,
}
use pubky_marketplace_servic.Domain.Machines.{order_machine}
use pubky_marketplace_servic.Store.{OrderRow, ExternalRefund, Db, Command, done}
use pubky_marketplace_servic.Orders.Action.{HandlerSuccess, update_order}
use pubky_marketplace_servic.Orders.Contract.{
  Advanced, IsKeyed, bumped, triggers, finish_order_action-Advanced, untouched, Untouched,
  at_either_state,
}
use pubky_marketplace_servic.Orders.Refund.{
  RecordExternalRefundPayload, recorded_minor, below_recorded, is_refundable_state, refunded,
  annotate, record_external_refund,
}

-- An annotation writes no table that the order contract speaks of.
annotate_done :
    (attestor : Option (String → String)) (id outcome : String) (now : ℕ) (db : Db)
    → (mid : Db) × (annotate attestor id outcome now db ≡ done tt mid)
      × Untouched db mid
      × (mid.orders ≡ db.orders)
unfolding annotate
annotate_done none id outcome now db = (db, refl, untouched db, refl)
annotate_done (some order_ref) id outcome now db = (_, refl, ground arith, refl)

refundable_edge :
    (o : OrderRow)
    → is_refundable_state o ≡ true
    → triggers order_machine "refund.record_external" o.state "refunded_external" ≡ true
unfolding is_refundable_state triggers order_machine
refundable_edge o h = elim (Bool-cases (o.state == "return_received" || o.state == "cancelled")) [
  | inl e ↦
      at_either_state "refund.record_external" "refunded_external" o.state "return_received"
        "cancelled" e refl refl
  | inr n ↦
      at_either_state "refund.record_external" "refunded_external" o.state "delivered" "completed"
        (ground arith) refl refl
]

-- What the check on an earlier record leaves: no record, or a PayPal refund that this one covers.
abbrev pub CoversRecorded : OrderRow → Db → ℕ → Type 0
CoversRecorded o db amount_minor =
    (o.external_refund ≡ none)
    ⊎ ((r : ExternalRefund) × (o.external_refund ≡ some r)
        × (any (λ g. g.order_id == o.id && g.refund_txn_id == r.transaction_id) db.gateway_refunds
            ≡ true)
        × (r.amount_minor ≤ amount_minor))

covers_recorded :
    (o : OrderRow) (db : Db) (amount_minor : ℕ)
    → below_recorded (recorded_minor o db) amount_minor ≡ false
    → CoversRecorded o db amount_minor
unfolding below_recorded recorded_minor
covers_recorded o db amount_minor h = elim (Option-cases o.external_refund) [
  | inl e ↦ inl e
  | inr (r, e) ↦ inr (r, e, ground arith, ground arith)
]

module _ (actor : String) (c : Command) (now : ℕ) (db db' : Db) (s : HandlerSuccess) where
  -- A recorded refund that succeeds was recorded by the seller of an order in a state that admits a
  -- refund, for at most the order's total and, over an earlier record, only if that is a PayPal
  -- refund of at most this amount; it moves the order along an edge that `refund.record_external`
  -- triggers, whether or not an attestor annotates it.
  pub record_external_refund-Advanced :
      (attestor : Option (String → String)) (p : RecordExternalRefundPayload)
      → IsKeyed db
      → record_external_refund attestor actor c p now db ≡ done s db'
      → (o : OrderRow) × (db.orders p.order_id ≡ some o)
        × (o.seller_pubky ≡ actor)
        × (is_refundable_state o ≡ true)
        × (p.amount_minor ≤ o.total_minor)
        × CoversRecorded o db p.amount_minor
        × Advanced "refund.record_external" "refund.recorded_external" actor o.buyer_pubky c o
            (refunded p now (bumped o))
            db
            db'
            s
  unfolding record_external_refund refunded update_order
  record_external_refund-Advanced attestor p keyed h = elim (Option-cases (db.orders p.order_id)) [
    | inl missing ↦ absurd (ground arith)
    | inr (o, found) ↦
        let put : Db = record db { orders = write db.orders o.id (refunded p now (bumped o)) } in
        let (mid, ran, same, kept) = annotate_done attestor o.id "refunded" now put in
        (
          o,
          found,
          ground (arith, eq_iff o.seller_pubky actor),
          ground arith,
          ground arith,
          covers_recorded o db p.amount_minor (ground arith),
          finish_order_action-Advanced "refund.record_external" actor c o
              (refunded p now (bumped o)) "refund.recorded_external" "refund_recorded" o.buyer_pubky
              now db mid db' s kept
              (record { listings = same.listings; events = same.events; outbox = same.outbox })
              (ground arith) (ground (arith, keyed p.order_id o found))
              (refundable_edge o (ground arith)) (ground (arith, keyed p.order_id o found)),
        )
  ]
