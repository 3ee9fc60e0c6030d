-- ===== src/Domain/Money.antt =====
-- crates/domain/src/money.rs: integer minor-unit money.
use pubky_marketplace_servic.Prelude.{ℕ, String, Bool, ◌==◌, nat_key, string_key, ◌&&◌}

pub record Money : Type 0 where
  pub amount_minor : ℕ
  pub currency : String
  pub exponent : ℕ

unfoldable pub with_amount : Money → ℕ → Money
with_amount self amount_minor = record self { amount_minor = amount_minor }

unfoldable pub same_asset : Money → Money → Bool
same_asset self other = self.currency == other.currency && self.exponent == other.exponent
