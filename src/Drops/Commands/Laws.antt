-- ===== src/Drops/Commands/Laws.antt =====
-- crates/service/src/handlers/drops.rs: `drop.cancel`.
use pubky_marketplace_servic.Prelude.{String, Bool, List, ◌==◌, string_key, nat_key, ◌&&◌, not, all}
use pubky_marketplace_servic.Store.{DropListingRow}

-- No binding of the drop is active.
abbrev pub all_inactive : String → List DropListingRow → Bool
all_inactive drop_aggregate_id rows =
    all (λ b. not (b.drop_aggregate_id == drop_aggregate_id && b.active)) rows
