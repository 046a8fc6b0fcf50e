-- ===== src/Text.antt =====
-- Go strings: their tests, and the sort by a string key.
mod Defs
mod Sort
unfoldable pub use Defs.*
unfoldable pub use Sort.*
