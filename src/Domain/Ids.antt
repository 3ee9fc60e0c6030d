-- ===== src/Domain/Ids.antt =====
-- crates/domain/src/ids.rs: aggregate ids. A UUID stands as its canonical text.
use Prim.Native.String.{◌++◌ as text_append}
use pubky_marketplace_servic.Prelude.{String}

unfoldable pub listing_aggregate_id : String → String → String
listing_aggregate_id seller_pubky listing_id =
    text_append "listing:" (text_append seller_pubky (text_append "_" listing_id))

unfoldable pub drop_aggregate_id : String → String → String
drop_aggregate_id seller_pubky drop_id =
    text_append "drop:" (text_append seller_pubky (text_append "_" drop_id))

unfoldable pub order_aggregate_id : String → String
order_aggregate_id order_id = text_append "order:" order_id

unfoldable pub offer_aggregate_id : String → String
offer_aggregate_id offer_id = text_append "offer:" offer_id

unfoldable pub payment_aggregate_id : String → String
payment_aggregate_id payment_id = text_append "payment:" payment_id
