-- ===== src/Domain/Machines/Tables.antt =====
-- crates/domain/src/state_machines.rs: every aggregate machine but the order machine.
use pubky_marketplace_servic.Prelude.{[], ◌∷◌}
use pubky_marketplace_servic.Domain.Machines.Types.{AggregateMachine, t, command, server}

unfoldable pub listing_machine : AggregateMachine
listing_machine = record {
  aggregate = "listing";
  states = "available" ∷ "reserved" ∷ "sold" ∷ [];
  initial = "available";
  transitions =
      t "available" "reserved" (
        command "inventory.reserve"
        ∷ command "checkout.create"
        ∷ command "offer.accept"
        ∷ command "auction.close"
        ∷ [])
      ∷ t "reserved" "available" (
          server "reservation_expiry"
          ∷ command "order.cancel_request"
          ∷ command "order.cancel_approve"
          ∷ [])
      ∷ t "reserved" "sold" (command "payment.sandbox_advance" ∷ server "payment_confirmation" ∷ [])
      ∷ t "sold" "available" (command "order.cancel_approve" ∷ command "order.cancel_request" ∷ [])
      ∷ [];
  commands =
      "listing.register" ∷ "listing.sync" ∷ "inventory.reserve" ∷ "checkout.create" ∷ "offer.accept"
      ∷ "auction.close" ∷ [];
  unreachable_states = [];
}

unfoldable pub reservation_machine : AggregateMachine
reservation_machine = record {
  aggregate = "reservation";
  states = "active" ∷ "converted" ∷ "released" ∷ "expired" ∷ [];
  initial = "active";
  transitions =
      t "active" "expired" (server "reservation_expiry" ∷ [])
      ∷ t "active" "released" (command "order.cancel_request" ∷ command "order.cancel_approve" ∷ [])
      ∷ t "active" "converted"
          (command "payment.sandbox_advance" ∷ server "payment_confirmation" ∷ [])
      ∷ [];
  commands = "inventory.reserve" ∷ [];
  unreachable_states = [];
}

unfoldable pub offer_machine : AggregateMachine
offer_machine = record {
  aggregate = "offer";
  states =
      "pending" ∷ "countered" ∷ "accepted" ∷ "converted" ∷ "rejected" ∷ "withdrawn" ∷ "expired"
      ∷ [];
  initial = "pending";
  transitions =
      t "pending" "countered" (command "offer.counter" ∷ [])
      ∷ t "pending" "accepted" (command "offer.accept" ∷ [])
      ∷ t "pending" "rejected" (command "offer.reject" ∷ [])
      ∷ t "pending" "withdrawn" (command "offer.withdraw" ∷ [])
      ∷ t "pending" "expired" (server "offer_expiry" ∷ [])
      ∷ t "countered" "countered" (command "offer.counter" ∷ [])
      ∷ t "countered" "accepted" (command "offer.accept" ∷ [])
      ∷ t "countered" "rejected" (command "offer.reject" ∷ [])
      ∷ t "countered" "withdrawn" (command "offer.withdraw" ∷ [])
      ∷ t "countered" "expired" (server "offer_expiry" ∷ [])
      ∷ t "accepted" "converted" (command "offer.checkout" ∷ [])
      ∷ t "accepted" "expired" (server "award_expiry" ∷ [])
      ∷ [];
  commands =
      "offer.create" ∷ "offer.counter" ∷ "offer.accept" ∷ "offer.reject" ∷ "offer.withdraw"
      ∷ "offer.checkout" ∷ [];
  unreachable_states = [];
}

unfoldable pub auction_machine : AggregateMachine
auction_machine = record {
  aggregate = "auction";
  states = "scheduled" ∷ "active" ∷ "sold" ∷ "unsold" ∷ "cancelled" ∷ [];
  initial = "scheduled";
  transitions =
      t "scheduled" "active" (server "auction_start" ∷ [])
      ∷ t "active" "sold" (command "auction.close" ∷ server "auction_close" ∷ [])
      ∷ t "active" "unsold" (command "auction.close" ∷ server "auction_close" ∷ [])
      ∷ [];
  commands = "listing.register" ∷ "auction.place_bid" ∷ "auction.close" ∷ [];
  unreachable_states = "cancelled" ∷ [];
}

unfoldable pub return_machine : AggregateMachine
return_machine = record {
  aggregate = "return";
  states = "requested" ∷ "approved" ∷ "received" ∷ "refunded" ∷ [];
  initial = "requested";
  transitions =
      t "requested" "approved" (command "return.approve" ∷ [])
      ∷ t "approved" "received" (command "return.receive" ∷ [])
      ∷ t "received" "refunded" (command "refund.record_external" ∷ server "paypal_refund" ∷ [])
      ∷ t "requested" "refunded" (server "paypal_refund" ∷ [])
      ∷ t "approved" "refunded" (server "paypal_refund" ∷ [])
      ∷ t "refunded" "requested" (server "paypal_reversal_cancelled" ∷ [])
      ∷ t "refunded" "approved" (server "paypal_reversal_cancelled" ∷ [])
      ∷ t "refunded" "received" (server "paypal_reversal_cancelled" ∷ [])
      ∷ [];
  commands = "return.request" ∷ "return.approve" ∷ "return.receive" ∷ "refund.record_external" ∷ [];
  unreachable_states = [];
}

unfoldable pub payment_machine : AggregateMachine
payment_machine = record {
  aggregate = "payment";
  states = "awaiting_entitlement" ∷ "detected" ∷ "confirmed" ∷ "expired" ∷ "manual_review" ∷ [];
  initial = "awaiting_entitlement";
  transitions =
      t "awaiting_entitlement" "detected" (command "payment.sandbox_advance" ∷ [])
      ∷ t "awaiting_entitlement" "confirmed" (
          command "payment.sandbox_advance"
          ∷ server "locks_verification"
          ∷ server "late_completion"
          ∷ [])
      ∷ t "awaiting_entitlement" "expired" (
          command "payment.sandbox_advance"
          ∷ command "order.cancel_request"
          ∷ server "payment_window"
          ∷ [])
      ∷ t "awaiting_entitlement" "manual_review" (
          command "payment.sandbox_advance"
          ∷ server "locks_verification"
          ∷ server "late_completion"
          ∷ [])
      ∷ t "detected" "confirmed" (command "payment.sandbox_advance" ∷ [])
      ∷ t "detected" "manual_review" (command "payment.sandbox_advance" ∷ [])
      ∷ t "expired" "manual_review" (server "locks_late_completion" ∷ server "late_completion" ∷ [])
      ∷ t "expired" "confirmed" (server "late_completion" ∷ [])
      ∷ t "manual_review" "confirmed" (server "paykit_resolution" ∷ [])
      ∷ t "manual_review" "expired" (server "paykit_resolution" ∷ [])
      ∷ [];
  commands = "payment.sandbox_advance" ∷ "payment.prepare_locks" ∷ "payment.register_locks" ∷ [];
  unreachable_states = [];
}

unfoldable pub drop_machine : AggregateMachine
drop_machine = record {
  aggregate = "drop";
  states = "announced" ∷ "live" ∷ "ended_sold_out" ∷ "ended_closed" ∷ "ended_cancelled" ∷ [];
  initial = "announced";
  transitions =
      t "announced" "live"
        (command "inventory.reserve" ∷ command "checkout.create" ∷ server "drop_start" ∷ [])
      ∷ t "announced" "ended_closed" (server "drop_end" ∷ [])
      ∷ t "live" "ended_closed" (server "drop_end" ∷ [])
      ∷ t "live" "ended_sold_out"
          (command "payment.sandbox_advance" ∷ server "payment_confirmation" ∷ [])
      ∷ t "announced" "ended_cancelled" (command "drop.cancel" ∷ [])
      ∷ t "live" "ended_cancelled" (command "drop.cancel" ∷ [])
      ∷ [];
  commands =
      "drop.sync" ∷ "drop.cancel" ∷ "drop.release_listings" ∷ "inventory.reserve"
      ∷ "checkout.create" ∷ [];
  unreachable_states = [];
}
