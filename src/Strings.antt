-- ===== src/Strings.antt =====
-- Python's strings beyond `Common.Text`: the methods that the extraction calls, and `re.sub` and
-- `re.finditer`. Case is that of ASCII.
mod Defs
pub mod Sizes
unfoldable pub use Defs.*
