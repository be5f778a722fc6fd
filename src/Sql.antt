-- ===== src/Sql.antt =====
-- Package database/sql as the stores use it: statements, transactions, and tables.
mod Defs
pub mod Table
pub mod Keys
pub mod Laws
unfoldable pub use Defs.*
