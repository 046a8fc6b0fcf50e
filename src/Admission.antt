-- ===== src/Admission.antt =====
-- internal/admission/admission.go: from a room credential to a participant on a unit. `Records` has the
-- data, `Desk` the exchange.
mod Tests
pub mod Records
pub mod Desk
pub mod Cleared
pub mod Told
pub mod Outstanding
pub mod Sweeping
pub mod Histories
pub mod Assembled
mod Offers
mod Requests
