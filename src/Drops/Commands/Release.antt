-- ===== src/Drops/Commands/Release.antt =====
-- crates/service/src/handlers/drops.rs: `drop.release_listings`.
use pubky_marketplace_servic.Prelude.{
  ℕ, String, Bool, true, false, some, List, [], ◌∷◌, ◌==◌, string_key, nat_key, ◌≡◌, ◌+◌, inl, inr,
  refl, ap, sym, ◌∙◌, arith, eq_iff, Option-cases, ◌&&◌, ◌||◌, not, all, map,
}
use pubky_marketplace_servic.Store.{DropRow, DropListingRow, Db, Command, done, >>=-eq-done}
use pubky_marketplace_servic.Orders.Action.{HandlerSuccess}
use pubky_marketplace_servic.Drops.Lifecycle.{
  effective_state, is_active_state, apply_time_transitions,
}
use pubky_marketplace_servic.Drops.Lifecycle.Laws.{apply_time_transitions-effective}
use pubky_marketplace_servic.Drops.Commands.{
  release_binding, touched, release_ended, release_listings,
}
use pubky_marketplace_servic.Drops.Commands.Editions.{IsScheduled}

-- Every binding of the drop is released and inactive.
abbrev pub all_released : String → List DropListingRow → Bool
all_released drop_aggregate_id rows =
    all (λ b. not (b.drop_aggregate_id == drop_aggregate_id) || b.released && not b.active) rows

release_all :
    (id : String) (rows : List DropListingRow)
    → all_released id (map (release_binding id) rows) ≡ true
unfolding release_binding
release_all id [] = refl
release_all id (row ∷ rows) = ground (arith, release_all id rows)

release_ended_done :
    (actor : String) (c : Command) (d : DropRow) (now : ℕ) (db db' : Db) (s : HandlerSuccess)
    → db.drops c.aggregate_id ≡ some d
    → release_ended actor c d now db ≡ done s db'
    → (is_active_state d.state ≡ false)
      × (db'.drop_listings ≡ map (release_binding c.aggregate_id) db.drop_listings)
      × (db'.drops c.aggregate_id ≡ some (touched (d.revision + 1) now d))
      × (s.revision ≡ d.revision + 1)
unfolding release_ended
release_ended_done actor c d now db db' s found h =
    (ground arith, ground arith, ground (arith, eq_iff c.aggregate_id c.aggregate_id), ground arith)

-- A release that succeeds was made by the drop's seller, for a drop that server time has ended: every
-- binding of the drop is then released and inactive, and the drop keeps the state that server time
-- gives it.
pub release_listings_releases :
    (actor : String) (c : Command) (now : ℕ) (db db' : Db) (s : HandlerSuccess)
    → IsScheduled db now
    → release_listings actor c now db ≡ done s db'
    → (d : DropRow) × (d' : DropRow) × (db.drops c.aggregate_id ≡ some d)
      × (d.seller_pubky ≡ actor)
      × (c.expected_revision ≡ d.revision)
      × (is_active_state (effective_state d now) ≡ false)
      × (db'.drops c.aggregate_id ≡ some d')
      × (d'.state ≡ effective_state d now)
      × (s.revision ≡ d'.revision)
      × (all_released c.aggregate_id db'.drop_listings ≡ true)
unfolding release_listings touched
release_listings_releases actor c now db db' s scheduled h =
    elim (Option-cases (db.drops c.aggregate_id)) [
      | inl missing ↦ absurd (ground arith)
      | inr (d, found) ↦
          let (key, known, begun) = scheduled c.aggregate_id d found in
          let (d1, mid, applied, ended) =
            >>=-eq-done (apply_time_transitions d c now) (λ drop. release_ended actor c drop now) db
              db' s (ground arith) in
          let (state, terms, put, edge) =
            apply_time_transitions-effective d c now db mid d1 (ap db.drops key ∙ found) applied
              known begun in
          let (over, rows, stored, reported) =
            release_ended_done actor c d1 now mid db' s (sym (ap mid.drops key) ∙ put) ended in
          (
            d,
            touched (d1.revision + 1) now d1,
            found,
            ground (arith, eq_iff d.seller_pubky actor),
            ground arith,
            sym (ap is_active_state state) ∙ over,
            stored,
            state,
            reported,
            ap (all_released c.aggregate_id) rows ∙ release_all c.aggregate_id mid.drop_listings,
          )
    ]
