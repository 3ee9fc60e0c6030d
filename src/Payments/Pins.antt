-- ===== src/Payments/Pins.antt =====
-- The terms that a confirmation pins: `pin_pickup_lines` of crates/service/src/handlers/pickup.rs
-- and crates/service/src/handlers/digital_orders.rs. The sealing itself is a parameter.
use pubky_marketplace_servic.Prelude.{
  ℕ, String, Bool, true, false, Option, none, some, List, [], ◌∷◌, ◌++◌, ◌==◌, string_key, nat_key,
  option_key, ◌&&◌, ◌||◌, not, if◌then◌else◌, ltb, ◌+◌, any, all, find, is_some,
}
use pubky_marketplace_servic.Store.{
  OrderRow, OrderLine, PickupDetailsRow, DeliverableRow, Db, Tx, done, fault, protocol,
  unique_violation, ◌>>=◌, ◌>>◌, pure,
}

-- The additional data that a ciphertext is bound to, as the fields that the code writes into it.
pub data Aad : Type 0 where
  details_aad : String → ℕ → Aad
  snapshot_aad : String → ℕ → ℕ → Aad
  version_aad : String → String → ℕ → String → Aad
  pin_aad : String → ℕ → String → String → ℕ → Aad

-- A sealing key of crates/service/src/seal.rs: a ciphertext that does not authenticate opens to
-- nothing.
pub record SealKeys : Type 0 where
  pub open_sealed : Aad → String → Option String
  pub seal : Aad → String → String

-- `ORDER BY d.version DESC LIMIT 1`
unfoldable pub latest_details : String → List PickupDetailsRow → Option PickupDetailsRow
latest_details aggregate_id [] = none
latest_details aggregate_id (d ∷ ds) =
    let rest = latest_details aggregate_id ds in
    if d.aggregate_id == aggregate_id
    then elim rest [
      | none ↦ some d
      | some other ↦ if ltb d.version other.version then some other else some d
    ]
    else rest

unfoldable pub current_details : String → Db → Option PickupDetailsRow
current_details aggregate_id db =
    if is_some (db.pickup_cleared_at aggregate_id)
    then none
    else latest_details aggregate_id db.pickup_details

-- `INSERT … ON CONFLICT (order_id, line_index) DO NOTHING`
unfoldable pub insert_snapshot : String → ℕ → String → ℕ → String → String → Db → Db
insert_snapshot order_id line_index listing version ciphertext adapter db =
    if any (λ s. s.order_id == order_id && s.line_index == line_index) db.pickup_snapshots
    then db
    else record db {
      pickup_snapshots =
          db.pickup_snapshots
          ++ record {
            order_id = order_id;
            line_index = line_index;
            listing_aggregate_id = listing;
            version = version;
            snapshot_ciphertext = ciphertext;
            confirming_adapter = adapter;
          }
            ∷ [];
    }

-- One turn of the loop of `pin_pickup_lines`.
unfoldable pub pin_pickup_line : SealKeys → String → String → ℕ → OrderLine → Tx OrderLine
pin_pickup_line keys order_id adapter line_index line db =
    if not (line.fulfillment == some "pickup")
    then done line db
    else elim (current_details line.listing_aggregate_id db) [
      | none ↦ done line db
      | some details ↦
          elim (keys.open_sealed (Aad.details_aad line.listing_aggregate_id details.version)
            details.details_ciphertext) [
              | none ↦ fault protocol
              | some plaintext ↦
                  done (record line { version_at_payment = some details.version })
                    (insert_snapshot order_id line_index line.listing_aggregate_id details.version
                      (keys.seal (Aad.snapshot_aad order_id line_index details.version) plaintext)
                      adapter db)
            ]
    ]

unfoldable pub pin_pickup_from :
    SealKeys → String → String → ℕ → List OrderLine → Tx (List OrderLine)
pin_pickup_from keys order_id adapter index [] = pure []
pin_pickup_from keys order_id adapter index (line ∷ lines) =
    let rest = pin_pickup_from keys order_id adapter (index + 1) lines in
    do
      pinned ← pin_pickup_line keys order_id adapter index line
      others ← rest
      pure (pinned ∷ others)

unfoldable pub pin_pickup_lines :
    String → List OrderLine → String → Option SealKeys → Tx (List OrderLine)
pin_pickup_lines order_id lines adapter none = pure lines
pin_pickup_lines order_id lines adapter (some keys) = pin_pickup_from keys order_id adapter 0 lines

-- `DigitalDeliveryKind::parse` and `is_instant`: file, link and text are released automatically.
unfoldable pub instant_kind : OrderLine → Option String
instant_kind line = elim line.digital_kind [
  | none ↦ none
  | some kind ↦ if kind == "file" || kind == "link" || kind == "text" then some kind else none
]

abbrev is_empty : List OrderLine → Bool
is_empty [] = true
is_empty (line ∷ lines) = false

unfoldable pub all_lines_instant : OrderRow → Bool
all_lines_instant order =
    not (is_empty order.lines) && all (λ line. is_some (instant_kind line)) order.lines

unfoldable pub current_version : String → Db → Option DeliverableRow
current_version listing db =
    find (λ v. v.listing_aggregate_id == listing && not (is_some v.superseded_at)) db.deliverables

line_unpinnable : Db → OrderLine → Bool
line_unpinnable db line = elim (instant_kind line) [
  | none ↦ false
  | some kind ↦ elim (current_version line.listing_aggregate_id db) [
    | none ↦ true
    | some current ↦ not (current.kind == kind)
  ]
]

unfoldable pub unpinnable : OrderRow → Db → Bool
unfolding line_unpinnable
unpinnable order db =
    if not (order.fulfillment == "digital") then false else any (line_unpinnable db) order.lines

-- The row's primary key.
unfoldable pub insert_pin :
    SealKeys → String → String → ℕ → String → String → DeliverableRow → String → Tx (Unit {0})
insert_pin keys order_id adapter line_index listing kind current plaintext db =
    if any (λ p. p.order_id == order_id && p.line_index == line_index) db.digital_pins
    then fault unique_violation
    else done tt (record db {
      digital_pins =
          db.digital_pins
          ++ record {
            order_id = order_id;
            line_index = line_index;
            listing_aggregate_id = listing;
            deliverable_id = current.deliverable_id;
            version = current.version;
            kind = kind;
            payload_ciphertext =
                keys.seal
                  (Aad.pin_aad order_id line_index listing current.deliverable_id current.version)
                  plaintext;
            confirming_adapter = adapter;
          }
            ∷ [];
    })

-- One turn of the loop of `pin_digital_lines`, of a line that is instant.
unfoldable pub pin_digital_line :
    Option SealKeys → String → String → ℕ → OrderLine → String → Tx (Unit {0})
pin_digital_line none order_id adapter line_index line kind db = fault protocol
pin_digital_line (some keys) order_id adapter line_index line kind db =
    elim (current_version line.listing_aggregate_id db) [
      | none ↦ fault protocol
      | some current ↦
          elim (keys.open_sealed
            (Aad.version_aad line.listing_aggregate_id current.deliverable_id current.version kind)
            current.payload_ciphertext) [
              | none ↦ fault protocol
              | some plaintext ↦
                  insert_pin keys order_id adapter line_index line.listing_aggregate_id kind current
                    plaintext db
            ]
    ]

unfoldable pub pin_digital_from :
    Option SealKeys → String → String → ℕ → List OrderLine → Tx (Unit {0})
pin_digital_from keys order_id adapter index [] = pure tt
pin_digital_from keys order_id adapter index (line ∷ lines) =
    let rest = pin_digital_from keys order_id adapter (index + 1) lines in
    do
      elim (instant_kind line) [
        | none ↦ pure tt
        | some kind ↦ pin_digital_line keys order_id adapter index line kind
      ]
      rest

unfoldable pub pin_digital_lines : OrderRow → String → Option SealKeys → Tx (Unit {0})
pin_digital_lines order adapter keys = pin_digital_from keys order.id adapter 0 order.lines
