-- ===== src/Sender.antt =====
-- internal/wire/send.go: the bounded queue of one client and the one goroutine that writes to it.
-- `Machine` has the sender with its operations, `Steps` their interleavings.

pub mod Machine
pub mod Steps
pub mod Orderly
pub mod Order
pub mod Progress
pub mod Ending
pub mod Loss
mod Tests
