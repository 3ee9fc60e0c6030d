-- ===== src/Drops/Gate/Laws.antt =====
-- crates/service/src/handlers/drops.rs: the debit of the gate and its credit.
use pubky_marketplace_servic.Prelude.{
  ℕ, String, true, some, ◌==◌, string_key, ◌≡◌, ◌≤◌, ◌<◌, ◌+◌, ◌-◌, inl, inr, ap, ◌∙◌,
  if◌then◌else◌, arith, eq_iff, Option-cases, write, ◌&&◌, ◌≢◌, sym, contains,
}
use pubky_marketplace_servic.Domain.Machines.{drop_machine}
use pubky_marketplace_servic.Store.{DropRow, Db, Command, done, >>=-eq-done}
use pubky_marketplace_servic.Drops.Lifecycle.{
  effective_state, apply_time_transitions, transition_drop,
}
use pubky_marketplace_servic.Drops.Lifecycle.Laws.{SameTerms, apply_time_transitions-effective}
use pubky_marketplace_servic.Drops.Gate.{
  purchased, debit_drop, debit_live_drop, enforce_drop_gate, credit_drop, credit_drop_release,
}

-- The debit of `units` units for a buyer: within both caps, and no other buyer's count moved.
pub record Debited (units : ℕ) (buyer : String) (d d' : DropRow) (db db' : Db) : Type 0 where
  pub in_stock : units ≤ d.remaining_quantity
  pub remaining : d'.remaining_quantity + units ≡ d.remaining_quantity
  pub paid : d'.paid_quantity ≡ d.paid_quantity
  pub total : d'.total_quantity ≡ d.total_quantity
  pub stored : db'.drops d.aggregate_id ≡ some d'
  pub counted : purchased d.aggregate_id buyer db' ≡ purchased d.aggregate_id buyer db + units
  pub within_limit : purchased d.aggregate_id buyer db' ≤ d.per_buyer_limit
  pub others :
      (b : String) → b ≢ buyer → purchased d.aggregate_id b db' ≡ purchased d.aggregate_id b db

debit_live_drop-Debited :
    (d d' : DropRow) (buyer : String) (units now : ℕ) (db db' : Db)
    → db.drops d.aggregate_id ≡ some d
    → debit_live_drop d buyer units now db ≡ done d' db'
    → (d.state ≡ "live") × Debited units buyer d d' db db'
unfolding debit_live_drop debit_drop purchased
debit_live_drop-Debited d d' buyer units now db db' found h = (
  ground (arith, eq_iff d.state "live"),
  record {
    in_stock = ground arith;
    remaining = ground arith;
    paid = ground arith;
    total = ground arith;
    stored = ground (arith, eq_iff d.aggregate_id d.aggregate_id);
    counted = ground (arith, eq_iff d.aggregate_id d.aggregate_id, eq_iff buyer buyer);
    within_limit = ground (arith, eq_iff d.aggregate_id d.aggregate_id, eq_iff buyer buyer);
    others = λ b n. ground (arith, eq_iff b buyer, eq_iff d.aggregate_id d.aggregate_id);
  },
)

transitions_purchases :
    (d d' : DropRow) (c : Command) (now : ℕ) (db mid : Db)
    → apply_time_transitions d c now db ≡ done d' mid
    → mid.drop_purchases ≡ db.drop_purchases
unfolding apply_time_transitions transition_drop
transitions_purchases d d' c now db mid h = elim (Option-cases (db.drops d.aggregate_id)) [
  | inl missing ↦ ground arith
  | inr (row, found) ↦ ground arith
]

purchased_same :
    (i j b : String) (db mid : Db)
    → j ≡ i
    → mid.drop_purchases ≡ db.drop_purchases
    → purchased j b mid ≡ purchased i b db
unfolding purchased
purchased_same i j b db mid e same =
    let row : mid.drop_purchases j b ≡ db.drop_purchases i b =
      ap (λ x. mid.drop_purchases x b) e ∙ ap (λ t. t i b) same in
    elim (Option-cases (db.drop_purchases i b)) [
      | inl missing ↦ ground arith
      | inr (r, found) ↦ ground arith
    ]

Debited-from :
    (d m d' : DropRow) (buyer : String) (units : ℕ) (db mid db' : Db)
    → SameTerms d m
    → mid.drop_purchases ≡ db.drop_purchases
    → Debited units buyer m d' mid db'
    → Debited units buyer d d' db db'
Debited-from d m d' buyer units db mid db' terms same moved =
    let before =
      λ (b : String). purchased_same d.aggregate_id m.aggregate_id b db mid terms.id same in
    let after = λ (b : String). ap (λ x. purchased x b db') terms.id in
    record {
      in_stock = ground (arith, terms.remaining);
      remaining = ground (arith, terms.remaining);
      paid = ground (arith, terms.paid);
      total = ground (arith, terms.total);
      stored = sym (ap db'.drops terms.id) ∙ moved.stored;
      counted = ground (arith, before buyer, after buyer);
      within_limit = ground (arith, after buyer, terms.limit);
      others = λ b n. sym (after b) ∙ moved.others b n ∙ before b;
    }

module _ (d d' : DropRow) (buyer : String) (units now : ℕ) (c : Command) (db db' : Db)
    (found : db.drops d.aggregate_id ≡ some d)
    (passed : enforce_drop_gate d buyer units c now db ≡ done d' db') where
  -- A hold passes the gate only for a drop that is live on server time. The gate takes the units from
  -- the drop, which had them, adds them to the buyer's count, which stays within the buyer's limit,
  -- and leaves every other buyer's count and the paid count alone.
  pub enforce_drop_gate-Debited :
      contains drop_machine.states d.state ≡ true
      → (d.state ≡ "live" → d.starts_at ≤ now)
      → (effective_state d now ≡ "live") × Debited units buyer d d' db db'
  unfolding enforce_drop_gate purchased
  enforce_drop_gate-Debited known begun =
      let (mid_drop, mid, first, second) =
        >>=-eq-done (apply_time_transitions d c now) (λ x. debit_live_drop x buyer units now) db db'
          d' passed in
      let (state, terms, put, edge) =
        apply_time_transitions-effective d c now db mid mid_drop found first known begun in
      let (live, moved) =
        debit_live_drop-Debited mid_drop d' buyer units now mid db' (ap mid.drops terms.id ∙ put)
          second in
      let same = transitions_purchases d mid_drop c now db mid first in
      (sym state ∙ live, Debited-from d mid_drop d' buyer units db mid db' terms same moved)

-- Whatever the gate debited, one unit at least, can be credited once the drop and the count are as the gate left them:
-- the release is accepted, and the remaining units and the buyer's count are what they were before.
pub credit-gate :
    (d d' : DropRow) (buyer : String) (units now later : ℕ) (db db' : Db)
    → 0 < units
    → d.remaining_quantity ≤ d.total_quantity
    → Debited units buyer d d' db db'
    → (back : Db) × (credit_drop_release d.aggregate_id buyer units later db' ≡ done true back)
      × (restored : DropRow) × (back.drops d.aggregate_id ≡ some restored)
      × (restored.remaining_quantity ≡ d.remaining_quantity)
      × (purchased d.aggregate_id buyer back ≡ purchased d.aggregate_id buyer db)
unfolding credit_drop_release purchased credit_drop
credit-gate d d' buyer units now later db db' some_units fits moved =
    elim (Option-cases (db'.drop_purchases d.aggregate_id buyer)) [
      | inl missing ↦ absurd (ground (arith, moved.counted))
      | inr (row, held) ↦ (
        record db' {
          drops = write db'.drops d.aggregate_id (credit_drop units later d');
          drop_purchases = λ i b.
              if i == d.aggregate_id && b == buyer
              then some (record row { quantity = row.quantity - units })
              else db'.drop_purchases i b;
        },
        ground (arith, moved.stored, moved.remaining, moved.total, moved.counted),
        credit_drop units later d',
        ground (arith, eq_iff d.aggregate_id d.aggregate_id),
        ground (arith, moved.remaining),
        ground (arith, moved.counted, eq_iff d.aggregate_id d.aggregate_id, eq_iff buyer buyer),
      )
    ]
