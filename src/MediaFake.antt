-- ===== src/MediaFake.antt =====
-- internal/mediafake/mediafake.go: the stand-in for a media unit. `Records` has the units of a fabric and
-- what a test sets on them, `Checks` and `Units` the operations of the port.
pub mod Records
pub mod Checks
pub mod Units
pub mod Entries
pub mod Books
mod Tests
pub mod Histories
pub mod Fitting
pub mod Receptions
