-- ===== src/Domain.antt =====
-- internal/domain/domain.go: the conference, its participants, sources and subscriptions.
-- `Model` has the values and their constructors, `Conference` the aggregate and its operations.
mod Tests
pub mod Model
pub mod Conference
pub mod Integrity
pub mod Operations
pub mod Counts
pub mod Receptions
