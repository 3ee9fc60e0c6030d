-- ===== src/Drops/Commands/Editions.antt =====
-- crates/service/src/handlers/drops.rs: `record_paid_unit`.
use pubky_marketplace_servic.Prelude.{
  ℕ, String, true, some, ◌==◌, string_key, nat_key, ◌≡◌, ◌≤◌, ◌+◌, ◌&&◌, inl, inr, refl, ap, sym,
  ◌∙◌, arith, eq_iff, Option-cases, Bool-cases, if◌then◌else◌, contains,
}
use pubky_marketplace_servic.Domain.Machines.{drop_machine}
use pubky_marketplace_servic.Store.{
  DropRow, Db, Command, done, pure, ◌>>=◌, ◌>>◌, >>-eq-done, >>=-eq-done,
}
use pubky_marketplace_servic.Drops.Lifecycle.{effective_state, moved_to, apply_time_transitions}
use pubky_marketplace_servic.Drops.Lifecycle.Laws.{apply_time_transitions-effective}
use pubky_marketplace_servic.Drops.Commands.{
  paid_one, pay_unit, end_sold_out, end_if_sold_out, record_paid_unit,
}

-- What the tables promise of every drop row: its key, a declared state, and that a live drop has
-- started.
abbrev pub IsScheduled : Db → ℕ → Type 0
IsScheduled db now =
    (k : String) (d : DropRow)
    → db.drops k ≡ some d
    → (d.aggregate_id ≡ k)
      × (contains drop_machine.states d.state ≡ true)
      × (d.state ≡ "live" → d.starts_at ≤ now)

-- A live drop whose paid count has come to its total ends sold out.
abbrev pub state_after : ℕ → ℕ → String → String
state_after paid total state = if paid == total && state == "live" then "ended_sold_out" else state

pay_unit_done :
    (id : String) (now : ℕ) (d d' : DropRow) (db db' : Db)
    → db.drops id ≡ some d
    → pay_unit id now db ≡ done d' db'
    → (d' ≡ paid_one now d) × (d'.paid_quantity ≤ d'.total_quantity) × (db'.drops id ≡ some d')
unfolding pay_unit
pay_unit_done id now d d' db db' found h =
    (ground arith, ground arith, ground (arith, eq_iff id id))

end_if_sold_out_done :
    (d : DropRow) (id actor : String) (c : Command) (now : ℕ) (db db' : Db)
    → db.drops id ≡ some d
    → end_if_sold_out d id actor c now db ≡ done tt db'
    → (d' : DropRow) × (db'.drops id ≡ some d')
      × (d'.paid_quantity ≡ d.paid_quantity)
      × (d'.remaining_quantity ≡ d.remaining_quantity)
      × (d'.total_quantity ≡ d.total_quantity)
      × (d'.state ≡ state_after d.paid_quantity d.total_quantity d.state)
unfolding end_if_sold_out end_sold_out
end_if_sold_out_done d id actor c now db db' found h =
    elim (Bool-cases (d.paid_quantity == d.total_quantity && d.state == "live")) [
      | inl over ↦ (
        moved_to "ended_sold_out" (d.revision + 1) now d,
        ground (arith, eq_iff id id),
        refl,
        refl,
        refl,
        ground arith,
      )
      | inr more ↦ (d, ground arith, refl, refl, refl, ground arith)
    ]

-- A paid unit that is recorded gets the next edition, which is within the drop's total; the paid
-- count is that edition, the remaining count and the total are as before, and the drop, in the state
-- that server time gives it, ends sold out exactly if it is live and this was the last unit.
pub record_paid_unit-edition :
    (id actor : String) (c : Command) (now : ℕ) (db db' : Db) (edition : ℕ)
    → IsScheduled db now
    → record_paid_unit id actor c now db ≡ done edition db'
    → (d : DropRow) × (d' : DropRow) × (db.drops id ≡ some d)
      × (db'.drops id ≡ some d')
      × (edition ≡ d.paid_quantity + 1)
      × (edition ≤ d.total_quantity)
      × (d'.paid_quantity ≡ edition)
      × (d'.remaining_quantity ≡ d.remaining_quantity)
      × (d'.total_quantity ≡ d.total_quantity)
      × (d'.state ≡ state_after edition d.total_quantity (effective_state d now))
unfolding record_paid_unit paid_one
record_paid_unit-edition id actor c now db db' edition scheduled h =
    elim (Option-cases (db.drops id)) [
      | inl missing ↦ absurd (ground arith)
      | inr (d, found) ↦
          let (key, known, begun) = scheduled id d found in
          let (d1, m1, applied, rest) =
            >>-eq-done (apply_time_transitions d c now)
              (pay_unit id now >>= λ drop.
                end_if_sold_out drop id actor c now >> pure drop.paid_quantity)
              db db' edition (ground arith) in
          let (state, terms, put, edge) =
            apply_time_transitions-effective d c now db m1 d1 (ap db.drops key ∙ found) applied
              known begun in
          let (d2, m2, paid, last) =
            >>=-eq-done (pay_unit id now)
              (λ drop. end_if_sold_out drop id actor c now >> pure drop.paid_quantity) m1 db'
              edition rest in
          let (row, fits, at_two) =
            pay_unit_done id now d1 d2 m1 m2 (sym (ap m1.drops key) ∙ put) paid in
          let (_, m3, ended, numbered) =
            >>-eq-done (end_if_sold_out d2 id actor c now) (pure d2.paid_quantity) m2 db' edition
              last in
          let (d', at_end, p, r, t, s) =
            end_if_sold_out_done d2 id actor c now m2 m3 at_two ended in
          let count : d2.paid_quantity ≡ edition = ground arith in
          let total : d2.total_quantity ≡ d.total_quantity = ground (arith, row, terms.total) in
          let now_in : d2.state ≡ effective_state d now = ap (λ x. x.state) row ∙ state in
          (
            d,
            d',
            found,
            ground (arith, numbered, at_end),
            ground (arith, row, terms.paid),
            ground arith,
            ground arith,
            ground (arith, row, terms.remaining),
            ground arith,
            s
                ∙ ap (λ x. state_after x d2.total_quantity d2.state) count
                ∙ ap (λ x. state_after edition x d2.state) total
                ∙ ap (λ x. state_after edition d.total_quantity x) now_in,
          )
    ]
