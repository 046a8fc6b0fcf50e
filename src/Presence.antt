-- ===== src/Presence.antt =====
-- internal/presence/presence.go: what a client is told about who else is in the room. `Records` has
-- the roll and its summary, `Pages` the pages of the full list, `Emitter` when a summary is due.
mod Tests
pub mod Records
pub mod Pages
pub mod Emitter
pub mod Emission
pub mod Gathering
pub mod Choosing
pub mod Rolls
pub mod Assembly
pub mod Cursor
pub mod Paging
pub mod Walk
