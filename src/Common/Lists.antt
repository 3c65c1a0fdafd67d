-- ===== src/Common/Lists.antt =====
-- Lists and the queries on tables, and their laws.
mod Defs
mod Falling
mod Laws
mod Queries
mod Updates
unfoldable pub use Defs.*
pub use Falling.*
pub use Laws.*
pub use Queries.*
pub use Updates.*
