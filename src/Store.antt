-- ===== src/Store.antt =====
-- The database that the handlers share, and the transaction monad over it.
mod Rows
mod Transaction
mod Effects
unfoldable pub use Rows.*
unfoldable pub use Transaction.*
unfoldable pub use Effects.*
