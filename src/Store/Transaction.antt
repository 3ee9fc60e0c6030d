-- ===== src/Store/Transaction.antt =====
-- A database transaction as explicit state, and its three endings: a handler's success with the
-- rows as it leaves them, a refusal (`CommandFailure` of crates/service/src/result.rs), and a
-- database error (`sqlx::Error`). The executor rolls the transaction back on the last two.
use pubky_marketplace_servic.Prelude.{
  ℕ, String, Bool, true, false, Option, none, some, List, Table, suc, ◌≡◌, refl,
}
use pubky_marketplace_servic.Domain.ErrorCode.{ErrorCode}
use pubky_marketplace_servic.Store.Rows.{
  ListingRow, ReservationRow, OrderRow, PaymentRow, EventRow, OutboxRow, GatewayRefundRow,
  HandoverRow, AnnotationRow, PickupDetailsRow, BidRow, AuctionReserveRow, DropRow, DropListingRow,
  DropPurchaseRow, PickupSnapshotRow, DeliverableRow, DigitalPinRow, DigitalAccessRow, ReceiptRow,
}

-- `uuids` is what `Uuid::new_v4` draws, in order, and `drawn` how many have been drawn; `collates`
-- is the database's order of texts.
pub record Db : Type 0 where
  pub listings : Table String ListingRow
  pub orders : Table String OrderRow
  pub auction_winners : Table String String
  pub reservations : List ReservationRow
  pub payments : List PaymentRow
  pub events : List EventRow
  pub outbox : List OutboxRow
  pub gateway_refunds : List GatewayRefundRow
  pub handovers : Table String HandoverRow
  pub annotations : List AnnotationRow
  pub pickup_details : List PickupDetailsRow
  pub pickup_snapshots : List PickupSnapshotRow
  pub deliverables : List DeliverableRow
  pub digital_pins : List DigitalPinRow
  pub digital_access : List DigitalAccessRow
  pub receipts : List ReceiptRow
  pub pickup_cleared_at : Table String ℕ
  pub bids : List BidRow
  pub auction_reserves : Table String AuctionReserveRow
  pub drops : Table String DropRow
  pub drop_listings : List DropListingRow
  pub drop_purchases : String → Table String DropPurchaseRow
  pub collates : String → String → Bool
  pub uuids : ℕ → String
  pub drawn : ℕ

-- The refusal kinds of the modelled handlers (crates/service/src/refusal_audit.rs).
pub data RefusalKind : Type 0 where
  invalid_envelope : RefusalKind
  invalid_command : RefusalKind
  unauthorized : RefusalKind
  not_found : RefusalKind
  revision_conflict : RefusalKind
  idempotency_conflict : RefusalKind
  insufficient_inventory : RefusalKind
  invariant_violation : RefusalKind
  invalid_state : RefusalKind
  auction_closed : RefusalKind
  bid_too_low : RefusalKind
  bid_wrong_asset : RefusalKind
  bid_seller_forbidden : RefusalKind
  bid_not_auction : RefusalKind
  bid_listing_not_found : RefusalKind

pub record CommandFailure : Type 0 where
  pub code : ErrorCode
  pub refusal_kind : RefusalKind
  pub message : String
  pub current_revision : Option ℕ
  pub reason : Option String

unfoldable pub failure : RefusalKind → ErrorCode → String → CommandFailure
failure kind code message = record {
  code = code;
  refusal_kind = kind;
  message = message;
  current_revision = none;
  reason = none;
}

unfoldable pub failure_with_reason : RefusalKind → ErrorCode → String → String → CommandFailure
unfolding failure
failure_with_reason kind code message reason = record (failure kind code message) {
  reason = some reason;
}

unfoldable pub failure_with_revision : RefusalKind → ErrorCode → String → ℕ → CommandFailure
unfolding failure
failure_with_revision kind code message current_revision = record (failure kind code message) {
  current_revision = some current_revision;
}

-- `row_not_found`: a `fetch_one` with no row. `constraint`: a CHECK or a key is violated.
-- `protocol`: the code's own `sqlx::Error::Protocol` and `anyhow::bail!`. `panic`: an `expect` that
-- fails; the transaction is dropped, which rolls it back too.
pub data DbError : Type 0 where
  row_not_found constraint unique_violation protocol panic : DbError

pub data Outcome {ℓ} (A : Type ℓ) : Type ℓ where
  done : A → Db → Outcome A
  refused : CommandFailure → Outcome A
  fault : DbError → Outcome A

abbrev pub is_refused {ℓ} : {A : Type ℓ} → Outcome A → Bool
is_refused (done a db) = false
is_refused (refused e) = true
is_refused (fault e) = false

abbrev pub Tx : Type 0 → Type 0
Tx A = Db → Outcome A

infixl 5 ◌>>=◌ ◌>>◌
abbrev pub ◌>>=◌ : {A B : Type 0} → Tx A → (A → Tx B) → Tx B
◌>>=◌ m f db = elim (m db) [ done a db' ↦ f a db' | refused e ↦ refused e | fault e ↦ fault e ]

abbrev pub ◌>>◌ : {A B : Type 0} → Tx A → Tx B → Tx B
◌>>◌ m k db = elim (m db) [ done a db' ↦ k db' | refused e ↦ refused e | fault e ↦ fault e ]

abbrev pub pure : {A : Type 0} → A → Tx A
pure a db = done a db

abbrev pub refuse : {A : Type 0} → CommandFailure → Tx A
refuse e db = refused e

abbrev pub fail : {A : Type 0} → DbError → Tx A
fail e db = fault e

-- `if condition { return Ok(Err(failure)); }`
abbrev pub refuse_if : Bool → CommandFailure → Tx (Unit {0})
refuse_if true e db = refused e
refuse_if false e db = done tt db

-- `let Some(a) = o else { return Ok(Err(failure)); };`
abbrev pub some_or : {A : Type 0} → Option A → CommandFailure → Tx A
some_or none e db = refused e
some_or (some a) e db = done a db

-- `fetch_one`
abbrev pub fetch_one : {A : Type 0} → Option A → Tx A
fetch_one none db = fault row_not_found
fetch_one (some a) db = done a db

abbrev pub gets : {A : Type 0} → (Db → A) → Tx A
gets f db = done (f db) db

abbrev pub modify : (Db → Db) → Tx (Unit {0})
modify f db = done tt (f db)

-- `Uuid::new_v4()`
abbrev pub new_uuid : Tx String
new_uuid db = done (db.uuids db.drawn) (record db { drawn = suc db.drawn })

-- The steps of a chain that succeeds.
pub >>-eq-done :
    {A B : Type 0} (m : Tx A) (k : Tx B) (db db' : Db) (b : B)
    → (m >> k) db ≡ done b db'
    → (a : A) × (mid : Db) × (m db ≡ done a mid) × (k mid ≡ done b db')
>>-eq-done {A} {B} m k db db' b h = go (m db) refl h
  where
    go :
        (r : Outcome A)
        → m db ≡ r
        → Path
            (Outcome B)
            (elim r [ done a db' ↦ k db' | refused e ↦ refused e | fault e ↦ fault e ])
            (done b db')
        → (a : A) × (mid : Db) × (m db ≡ done a mid) × (k mid ≡ done b db')
    go (done a mid) e h = (a, mid, e, h)
    go (refused x) e h = absurd (cc)
    go (fault x) e h = absurd (cc)

pub >>-done :
    {A B : Type 0} (m : Tx A) (k : Tx B) {db mid db' : Db} {a : A} {b : B}
    → m db ≡ done a mid
    → k mid ≡ done b db'
    → (m >> k) db ≡ done b db'
>>-done m k first rest = rw (first, ◌>>◌) rest

pub >>=-eq-done :
    {A B : Type 0} (m : Tx A) (k : A → Tx B) (db db' : Db) (b : B)
    → (m >>= k) db ≡ done b db'
    → (a : A) × (mid : Db) × (m db ≡ done a mid) × (k a mid ≡ done b db')
>>=-eq-done {A} {B} m k db db' b h = go (m db) refl h
  where
    go :
        (r : Outcome A)
        → m db ≡ r
        → Path
            (Outcome B)
            (elim r [ done a db' ↦ k a db' | refused e ↦ refused e | fault e ↦ fault e ])
            (done b db')
        → (a : A) × (mid : Db) × (m db ≡ done a mid) × (k a mid ≡ done b db')
    go (done a mid) e h = (a, mid, e, h)
    go (refused x) e h = absurd (cc)
    go (fault x) e h = absurd (cc)
