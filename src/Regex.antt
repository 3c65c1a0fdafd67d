-- ===== src/Regex.antt =====
-- Python's `re`, as far as the extraction uses it: a backtracking matcher and what it finds.
mod Defs
pub mod Meaning
pub mod Sound
pub mod Found
pub mod Complete
pub mod Widths
pub mod Bodies
pub mod Places
unfoldable pub use Defs.*
