-- ===== src/Store/Rows.antt =====
-- The rows that the handlers read and write: crates/service/src/model.rs and the tables of
-- crates/service/migrations, less the columns that no modelled handler reads. A BIGINT column that
-- a CHECK keeps non-negative is a natural number, an instant counts nanoseconds, a UUID is its
-- canonical text, and a JSON column is the record that the handlers build.
use pubky_marketplace_servic.Prelude.{ℕ, String, Bool, Option, List}
use pubky_marketplace_servic.Domain.Money.{Money}

pub record AuctionState : Type 0 where
  pub starts_at : ℕ
  pub ends_at : ℕ
  pub minimum_increment : Money
  pub anti_sniping_window_seconds : ℕ
  pub anti_sniping_extension_seconds : ℕ
  pub status : String
  pub current_price : Money
  pub leader_pubky : Option String
  pub bid_count : ℕ

pub record ListingRow : Type 0 where
  pub aggregate_id : String
  pub seller_pubky : String
  pub listing_id : String
  pub listing_revision : ℕ
  pub server_revision : ℕ
  pub state : String
  pub total_quantity : ℕ
  pub available_quantity : ℕ
  pub reserved_quantity : ℕ
  pub sold_quantity : ℕ
  pub unit_price_amount_minor : ℕ
  pub unit_price_currency : String
  pub unit_price_exponent : ℕ
  pub shipping_minor : ℕ
  pub sale_format : String
  pub auction : Option AuctionState
  pub generation : ℕ
  pub deleted_at : Option ℕ
  pub recreated_at : Option ℕ
  pub updated_at : ℕ

pub record ReservationRow : Type 0 where
  pub id : String
  pub listing_aggregate_id : String
  pub buyer_pubky : String
  pub quantity : ℕ
  pub status : String
  pub expires_at : ℕ
  pub created_at : ℕ
  pub updated_at : ℕ
  pub drop_aggregate_id : Option String
  pub offer_award_id : Option String

pub record OrderLine : Type 0 where
  pub listing_aggregate_id : String
  pub quantity : ℕ
  pub version_at_payment : Option ℕ
  pub fulfillment : Option String
  pub digital_kind : Option String

pub record Shipment : Type 0 where
  pub carrier : String
  pub tracking_number : Option String
  pub state : String
  pub shipped_at : ℕ
  pub delivered_at : Option ℕ

pub record ReturnRequest : Type 0 where
  pub state : String
  pub reason : String
  pub requested_amount_minor : ℕ
  pub requested_at : ℕ
  pub updated_at : ℕ

pub record ExternalRefund : Type 0 where
  pub amount_minor : ℕ
  pub transaction_id : String
  pub recorded_at : ℕ

pub record OrderRow : Type 0 where
  pub id : String
  pub auction_aggregate_id : Option String
  pub drop_aggregate_id : Option String
  pub buyer_pubky : String
  pub seller_pubky : String
  pub revision : ℕ
  pub state : String
  pub lines : List OrderLine
  pub total_minor : ℕ
  pub currency : String
  pub exponent : ℕ
  pub paykit_total_sats : Option ℕ
  pub stock_held : Bool
  pub hold_expires_at : Option ℕ
  pub hold_source : Option String
  pub shipment : Option Shipment
  pub return_request : Option ReturnRequest
  pub external_refund : Option ExternalRefund
  pub receipt_id : Option String
  pub edition : Option ℕ
  pub digital_delivered_at : Option ℕ
  pub cancellation_reason : Option String
  pub payment_method : Option String
  pub paykit_request_state : Option String
  pub fulfillment : String
  pub created_at : ℕ
  pub updated_at : ℕ

pub record PaymentRow : Type 0 where
  pub id : String
  pub order_id : String
  pub buyer_pubky : String
  pub seller_pubky : String
  pub revision : ℕ
  pub adapter : String
  pub state : String
  pub confirmations : ℕ
  pub manual_review_entered_at : Option ℕ
  pub review_reason : Option String
  pub resolution_outcome : Option String
  pub created_at : ℕ
  pub updated_at : ℕ

pub record EventRow : Type 0 where
  pub id : String
  pub command_id : String
  pub aggregate_id : String
  pub revision : ℕ
  pub actor_pubky : String
  pub kind : String
  pub occurred_at : ℕ

-- One notification intent of the outbox, its JSON payload spelled out.
pub record OutboxRow : Type 0 where
  pub event_id : String
  pub kind : String
  pub recipient_pubky : String
  pub actor_pubky : String
  pub aggregate_id : String
  pub amount : Option Money
  pub created_at : ℕ

pub record GatewayRefundRow : Type 0 where
  pub order_id : String
  pub refund_txn_id : String

pub record HandoverRow : Type 0 where
  pub confirmed_by : String
  pub confirmed_at : ℕ

pub record AnnotationRow : Type 0 where
  pub id : String
  pub order_ref : String
  pub outcome : String
  pub reason : Option String
  pub annotated_at : ℕ

pub record PickupDetailsRow : Type 0 where
  pub aggregate_id : String
  pub version : ℕ
  pub details_ciphertext : String

pub record PickupSnapshotRow : Type 0 where
  pub order_id : String
  pub line_index : ℕ
  pub listing_aggregate_id : String
  pub version : ℕ
  pub snapshot_ciphertext : String
  pub confirming_adapter : String

-- One version of a listing's digital deliverable; the current one is not superseded.
pub record DeliverableRow : Type 0 where
  pub listing_aggregate_id : String
  pub deliverable_id : String
  pub version : ℕ
  pub kind : String
  pub payload_ciphertext : String
  pub superseded_at : Option ℕ

pub record DigitalPinRow : Type 0 where
  pub order_id : String
  pub line_index : ℕ
  pub listing_aggregate_id : String
  pub deliverable_id : String
  pub version : ℕ
  pub kind : String
  pub payload_ciphertext : String
  pub confirming_adapter : String

-- A buyer's opening of an instant line.
pub record DigitalAccessRow : Type 0 where
  pub order_id : String
  pub line_index : ℕ

pub record ReceiptRow : Type 0 where
  pub id : String
  pub order_id : String
  pub payment_id : String
  pub issuer_pubky : String
  pub recipient_pubky : String
  pub total : Money
  pub merchandise_total : Money
  pub content_hash : String
  pub issued_at : ℕ

pub record BidRow : Type 0 where
  pub id : String
  pub listing_aggregate_id : String
  pub bidder_pubky : String
  pub maximum_amount_minor : ℕ
  pub currency : String
  pub exponent : ℕ
  pub sequence : ℕ
  pub created_at : ℕ
  pub visible_amount_minor : Option ℕ

pub record AuctionReserveRow : Type 0 where
  pub listing_aggregate_id : String
  pub listing_revision : ℕ
  pub reserve_price : Option Money

pub record DropRow : Type 0 where
  pub aggregate_id : String
  pub seller_pubky : String
  pub drop_id : String
  pub record_revision : ℕ
  pub revision : ℕ
  pub state : String
  pub starts_at : ℕ
  pub ends_at : Option ℕ
  pub total_quantity : ℕ
  pub per_buyer_limit : ℕ
  pub remaining_quantity : ℕ
  pub paid_quantity : ℕ
  pub updated_at : ℕ

pub record DropListingRow : Type 0 where
  pub drop_aggregate_id : String
  pub seller_pubky : String
  pub listing_id : String
  pub active : Bool
  pub released : Bool
  pub listing_generation : ℕ

pub record DropPurchaseRow : Type 0 where
  pub quantity : ℕ
  pub per_buyer_limit : ℕ
