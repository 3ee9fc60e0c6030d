-- ===== src/Orders/Returns/Laws.antt =====
-- crates/service/src/handlers/returns.rs: the return commands, on success.
use pubky_marketplace_servic.Prelude.{
  ℕ, String, true, some, string_key, ◌≡◌, ◌≢◌, ◌≤◌, refl, arith, inl, inr, Option-cases, eq_iff,
}
use pubky_marketplace_servic.Domain.Machines.{order_machine}
use pubky_marketplace_servic.Store.{OrderRow, ReturnRequest, Db, Command, done, format_timestamp}
use pubky_marketplace_servic.Orders.Action.{HandlerSuccess}
use pubky_marketplace_servic.Orders.Contract.{
  Advanced, IsKeyed, bumped, triggers, advance_order-Advanced, untouched, at_state, at_either_state,
}
use pubky_marketplace_servic.Orders.Returns.{
  RequestReturnPayload, request, return_requested, ReturnStep, return_in_state, return_advanced,
  advance_return, approve_step, receive_step, approve, receive,
}

module _ (actor : String) (c : Command) (now : ℕ) (db db' : Db) (s : HandlerSuccess) where
  -- A return request that succeeds was made by the buyer of an order that is not digital and that
  -- stands at `delivered` or `completed`, for at most the order's total, and moves the order along
  -- an edge of the order machine that `return.request` triggers, with its event and the seller's
  -- notification.
  pub request-Advanced :
      (p : RequestReturnPayload)
      → IsKeyed db
      → request actor c p now db ≡ done s db'
      → (o : OrderRow) × (db.orders p.order_id ≡ some o)
        × (o.buyer_pubky ≡ actor)
        × (o.fulfillment ≢ "digital")
        × (p.requested_amount_minor ≤ o.total_minor)
        × Advanced "return.request" "return.requested" actor o.seller_pubky c o
            (return_requested p now (bumped o))
            db
            db'
            s
  unfolding request return_requested triggers order_machine
  request-Advanced p keyed h = elim (Option-cases (db.orders p.order_id)) [
    | inl missing ↦ absurd (ground arith)
    | inr (o, found) ↦ (
      o,
      found,
      ground (arith, eq_iff o.buyer_pubky actor),
      ground (arith, eq_iff o.fulfillment "digital"),
      ground arith,
      advance_order-Advanced "return.request" actor c o (return_requested p now) "return.requested"
          "return_updated" (λ u. u.seller_pubky) now db db db' s refl (untouched db)
          (ground (arith, keyed p.order_id o found)) (ground arith) (ground arith)
          (at_either_state "return.request" "return_requested" o.state "delivered" "completed"
            (ground arith) refl refl)
          (ground arith),
    )
  ]

  -- The seller's steps of a return, for the step's own edge.
  advance_return-Advanced :
      (name order_id : String) (step : ReturnStep)
      → triggers order_machine name step.from_order_state step.to_order_state ≡ true
      → IsKeyed db
      → advance_return actor c order_id step now db ≡ done s db'
      → (o : OrderRow) × (r : ReturnRequest) × (db.orders order_id ≡ some o)
        × (o.seller_pubky ≡ actor)
        × (o.return_request ≡ some r)
        × Advanced name step.event_kind actor o.buyer_pubky c o
            (return_advanced step r now (bumped o))
            db
            db'
            s
  unfolding advance_return return_in_state return_advanced
  advance_return-Advanced name order_id step edge keyed h =
      elim (Option-cases (db.orders order_id)) [
        | inl missing ↦ absurd (ground arith)
        | inr (o, found) ↦ elim (Option-cases (return_in_state step o)) [
          | inl out ↦ absurd (ground arith)
          | inr (r, within) ↦ (
            o,
            r,
            found,
            ground (arith, eq_iff o.seller_pubky actor),
            ground arith,
            advance_order-Advanced name actor c o (return_advanced step r now) step.event_kind
                "return_updated" (λ u. u.buyer_pubky) now db db db' s refl (untouched db)
                (ground (arith, keyed order_id o found)) (ground arith) (ground arith)
                (at_state name step.to_order_state o.state step.from_order_state (ground arith)
                  edge)
                (ground arith),
          )
        ]
      ]

  -- A return approval that succeeds was made by the seller of an order with a return request, moves
  -- the order along an edge of the order machine that `return.approve` triggers, and gives the return
  -- request, otherwise as it was, the approved state and the instant to the millisecond, with its event and the buyer's notification.
  pub approve-Advanced :
      (order_id : String)
      → IsKeyed db
      → approve actor c order_id now db ≡ done s db'
      → (o : OrderRow) × (r : ReturnRequest) × (db.orders order_id ≡ some o)
        × (o.seller_pubky ≡ actor)
        × (o.return_request ≡ some r)
        × ((return_advanced approve_step r now (bumped o)).return_request
            ≡ some (record r { state = "approved"; updated_at = format_timestamp now }))
        × Advanced "return.approve" "return.approved" actor o.buyer_pubky c o
            (return_advanced approve_step r now (bumped o))
            db
            db'
            s
  unfolding approve triggers order_machine return_advanced
  approve-Advanced order_id keyed h =
      let (o, r, found, seller, asked, moved) =
        advance_return-Advanced "return.approve" order_id approve_step refl keyed h in
      (o, r, found, seller, asked, refl, moved)

  -- A return receipt that succeeds was made by the seller of an order with a return request, moves the
  -- order along an edge of the order machine that `return.receive` triggers, and gives the return
  -- request, otherwise as it was, the received state and the instant to the millisecond, with its event and the buyer's notification.
  pub receive-Advanced :
      (order_id : String)
      → IsKeyed db
      → receive actor c order_id now db ≡ done s db'
      → (o : OrderRow) × (r : ReturnRequest) × (db.orders order_id ≡ some o)
        × (o.seller_pubky ≡ actor)
        × (o.return_request ≡ some r)
        × ((return_advanced receive_step r now (bumped o)).return_request
            ≡ some (record r { state = "received"; updated_at = format_timestamp now }))
        × Advanced "return.receive" "return.received" actor o.buyer_pubky c o
            (return_advanced receive_step r now (bumped o))
            db
            db'
            s
  unfolding receive triggers order_machine return_advanced
  receive-Advanced order_id keyed h =
      let (o, r, found, seller, asked, moved) =
        advance_return-Advanced "return.receive" order_id receive_step refl keyed h in
      (o, r, found, seller, asked, refl, moved)
