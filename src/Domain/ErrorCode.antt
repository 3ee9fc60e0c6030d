-- ===== src/Domain/ErrorCode.antt =====
-- crates/domain/src/error.rs: the wire error codes and the HTTP status of each.
use pubky_marketplace_servic.Prelude.{ℕ}

pub data ErrorCode : Type 0 where
  invalid_command : ErrorCode
  unauthorized : ErrorCode
  not_found : ErrorCode
  revision_conflict : ErrorCode
  idempotency_conflict : ErrorCode
  insufficient_inventory : ErrorCode
  invariant_violation : ErrorCode
  offer_expired : ErrorCode
  invalid_state : ErrorCode
  auction_closed : ErrorCode
  bid_too_low : ErrorCode
  seller_registration_required : ErrorCode
  upstream_unavailable : ErrorCode
  award_expired : ErrorCode
  award_already_converted : ErrorCode
  award_quantity_mismatch : ErrorCode
  award_variant_mismatch : ErrorCode
  award_listing_changed : ErrorCode
  award_hold_missing : ErrorCode

unfoldable pub http_status : ErrorCode → ℕ
http_status invalid_command = 422
http_status unauthorized = 403
http_status not_found = 404
http_status revision_conflict = 409
http_status idempotency_conflict = 409
http_status insufficient_inventory = 409
http_status invariant_violation = 409
http_status offer_expired = 409
http_status invalid_state = 409
http_status auction_closed = 409
http_status bid_too_low = 409
http_status seller_registration_required = 409
http_status award_expired = 409
http_status award_already_converted = 409
http_status award_quantity_mismatch = 409
http_status award_variant_mismatch = 409
http_status award_listing_changed = 409
http_status award_hold_missing = 409
http_status upstream_unavailable = 503
