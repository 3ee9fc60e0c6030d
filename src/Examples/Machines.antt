-- ===== src/Examples/Machines.antt =====
-- A run of the order machine.
use pubky_marketplace_servic.Prelude.{true, ◌≡◌, refl, contains, string_key}
use pubky_marketplace_servic.Domain.Machines.{order_machine}
use pubky_marketplace_servic.Domain.Machines.Facts.{
  UnpaidRun, placed, next, by_command, unpaid_states, UnpaidRun-states,
}

cancelled_run : UnpaidRun "cancelled"
unfolding order_machine by_command
cancelled_run = next (placed {s = "pending_payment"} refl) refl (λ e. cc)

refunded_run : UnpaidRun "refunded_external"
unfolding order_machine by_command
refunded_run = next cancelled_run refl (λ e. cc)

UnpaidRun-states_example : contains unpaid_states "refunded_external" ≡ true
UnpaidRun-states_example = UnpaidRun-states "refunded_external" refunded_run
