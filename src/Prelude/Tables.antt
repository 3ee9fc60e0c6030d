-- ===== src/Prelude/Tables.antt =====
-- A database table keyed by one column, read as a function, and its update.
use mathlib.Core.Option.{Option, some}
use pubky_marketplace_servic.Prelude.Tests.{Key, ◌==◌, if◌then◌else◌}

abbrev pub Table {ℓ κ} : Type ℓ → Type κ → Type (ℓ ⊔ κ)
Table K V = K → Option V

module _ {ℓ κ} {K : Type ℓ} {V : Type κ} ⦃e : Key K⦄ where
  abbrev pub write : Table K V → K → V → Table K V
  write t k v j = if j == k then some v else t j
