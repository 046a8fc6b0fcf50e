-- ===== src/Pool.antt =====
-- internal/pool/pool.go: the record of the units, their state machine and the placer's view of it.
-- `Rows` has a unit's row, `Proof` the registration proof, `Methods` the pool and its methods.
mod Tests
pub mod Rows
pub mod Proof
pub mod Methods
pub mod Moves
pub mod Evolution
pub mod Calls
pub mod Steps
pub mod Histories
pub mod Machine
pub mod Views
pub mod Seam
pub mod Placing
pub mod Joining
pub mod Payload
pub mod Sweeps
pub mod Stale
pub mod Forging
pub mod Examples
