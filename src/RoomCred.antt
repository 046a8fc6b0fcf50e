-- ===== src/RoomCred.antt =====
-- internal/roomcred/roomcred.go: the signed credential that admits to a room. `Layout` has its bytes,
-- `Methods` the issuer and the verifier.
mod Tests
pub mod Layout
pub mod Methods
pub mod Numbers
pub mod Fields
pub mod Decoding
pub mod Verifying
pub mod Examples
