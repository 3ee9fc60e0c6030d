-- ===== src/Inventory/Expiry/Log.antt =====
-- crates/service/src/expiry.rs: the events of the sweep, and the keys of the event table.
use pubky_marketplace_servic.Prelude.{
  ℕ, suc, zero, sym, String, Bool, ap, ◌∙◌, true, false, not, ◌||◌, nat_key, some, List, [], ◌∷◌,
  ◌++◌, ◌==◌, string_key, ◌&&◌, ◌≡◌, ◌+◌, inl, inr, refl, any, map, ltb, write, arith, eq_iff,
  Bool-cases,
}
use pubky_marketplace_servic.Store.{ListingRow, ReservationRow, EventRow, Db, clashes}

-- No event was logged and no id drawn.
pub record SameLog (db db' : Db) : Type 0 where
  pub events : db'.events ≡ db.events
  pub uuids : db'.uuids ≡ db.uuids
  pub drawn : db'.drawn ≡ db.drawn

abbrev pub expiry_event : ReservationRow → ListingRow → ℕ → Db → EventRow
expiry_event r listing now db = record {
  id = db.uuids db.drawn;
  command_id = r.id;
  aggregate_id = r.listing_aggregate_id;
  revision = listing.server_revision;
  actor_pubky = r.buyer_pubky;
  kind = "inventory.reservation_expired";
  occurred_at = now;
}

-- The rows once the expiry has been logged.
abbrev pub logged : ReservationRow → ListingRow → ℕ → Db → Db
logged r listing now db = record db {
  events = db.events ++ expiry_event r listing now db ∷ [];
  drawn = suc db.drawn;
}

-- An event of the aggregate `k` after the revision `n`.
abbrev pub late : String → ℕ → EventRow → Bool
late k n e = e.aggregate_id == k && ltb n e.revision

-- The `k` ids drawn from the `n`th on are new and distinct.
abbrev unused : (ℕ → String) → ℕ → ℕ → List String → Bool
unused uuids zero n ids = true
unused uuids (suc k) n ids =
    let rest = unused uuids k (suc n) (ids ++ uuids n ∷ []) in
    not (any (λ i. i == uuids n) ids) && rest

-- The next `k` event ids are new, and no event of a listing is past the listing's revision.
pub record IsLogged (k : ℕ) (db : Db) : Type 0 where
  pub fresh : unused db.uuids k db.drawn (map (λ e. e.id) db.events) ≡ true
  pub current :
      (i : String) (l : ListingRow)
      → db.listings i ≡ some l
      → any (late i l.server_revision) db.events ≡ false

any-snoc :
    (p : EventRow → Bool) (es : List EventRow) (e : EventRow)
    → any p (es ++ e ∷ []) ≡ (any p es || p e)
any-snoc p [] e = ground arith
any-snoc p (x ∷ es) e = ground (arith, any-snoc p es e)

ids-snoc :
    (es : List EventRow) (e : EventRow)
    → map (λ x. x.id) (es ++ e ∷ []) ≡ map (λ x. x.id) es ++ e.id ∷ []
ids-snoc [] e = refl
ids-snoc (x ∷ es) e = ap (λ is. x.id ∷ is) (ids-snoc es e)

late-later :
    (k : String) (n : ℕ) (es : List EventRow)
    → any (late k n) es ≡ false
    → any (late k (n + 1)) es ≡ false
late-later k n [] h = refl
late-later k n (e ∷ es) h = ground (arith, late-later k n es)

-- A new id and a revision past every event's keep the keys.
no_clash :
    (row : EventRow) (n : ℕ) (es : List EventRow)
    → row.kind ≡ "inventory.reservation_expired"
    → row.revision ≡ n + 1
    → any (late row.aggregate_id n) es ≡ false
    → any (λ i. i == row.id) (map (λ e. e.id) es) ≡ false
    → any (clashes row) es ≡ false
unfolding clashes
no_clash row n [] kind revision past id = refl
no_clash row n (e ∷ es) kind revision past id =
    ground (arith, no_clash row n es kind revision, ap (λ k. k == "payment.confirmed") kind)

-- A logged expiry clashes with no event and keeps the log in order.
pub logged_step :
    (r : ReservationRow) (listing row : ListingRow) (now : ℕ) (db put : Db)
    → SameLog db put
    → db.listings r.listing_aggregate_id ≡ some row
    → listing.server_revision ≡ row.server_revision + 1
    → put.listings ≡ write db.listings r.listing_aggregate_id listing
    → (k : ℕ) → IsLogged (suc k) db
    → (any (clashes (expiry_event r listing now put)) put.events ≡ false)
      × IsLogged k (logged r listing now put)
logged_step r listing row now db put log found revision written k lg =
    let u = db.uuids db.drawn in
    let ids = map (λ (x : EventRow). x.id) in
    let e = expiry_event r listing now put in
    let id : put.uuids put.drawn ≡ u = ap (λ f. f put.drawn) log.uuids ∙ ap db.uuids log.drawn in
    let new_id : any (λ i. i == u) (map (λ x. x.id) db.events) ≡ false = ground (arith, lg.fresh) in
    let rest : unused db.uuids k (suc db.drawn) (map (λ x. x.id) db.events ++ u ∷ []) ≡ true =
      ground (arith, lg.fresh) in
    let past = lg.current r.listing_aggregate_id row found in
    (
      ap (any (clashes e)) log.events
          ∙ no_clash e row.server_revision db.events refl revision past
              (ap (λ v. any (λ i. i == v) (map (λ x. x.id) db.events)) id ∙ new_id),
      record {
        fresh =
            ap (λ f. unused f k (suc put.drawn) (ids (put.events ++ e ∷ []))) log.uuids
            ∙ ap (λ n. unused db.uuids k (suc n) (ids (put.events ++ e ∷ []))) log.drawn
            ∙ ap (λ es. unused db.uuids k (suc db.drawn) (ids (es ++ e ∷ []))) log.events
            ∙ ap (unused db.uuids k (suc db.drawn)) (ids-snoc db.events e)
            ∙ ap (λ v. unused db.uuids k (suc db.drawn) (ids db.events ++ v ∷ [])) id
            ∙ rest;
        current = λ i l at.
            let stored : write db.listings r.listing_aggregate_id listing i ≡ some l =
              sym (ap (λ t. t i) written) ∙ at in
            ap (λ es. any (late i l.server_revision) (es ++ e ∷ [])) log.events
            ∙ any-snoc (late i l.server_revision) db.events e
            ∙ elim (Bool-cases (i == r.listing_aggregate_id)) [
              | inl hit ↦
                  let same : l.server_revision ≡ row.server_revision + 1 =
                    ground (arith, stored, revision) in
                  let before : any (late i row.server_revision) db.events ≡ false =
                    ap (λ j. any (late j row.server_revision) db.events)
                      ((eq_iff i r.listing_aggregate_id).0 hit)
                    ∙ past in
                  rw same
                    (ground (arith, late-later i row.server_revision db.events before, revision))
              | inr miss ↦
                  let kept : db.listings i ≡ some l = ground (arith, stored) in
                  ground (
                    arith,
                    lg.current i l kept,
                    eq_iff i r.listing_aggregate_id,
                    eq_iff r.listing_aggregate_id i,
                  )
            ];
      },
    )
