-- ===== src/Placement.antt =====
-- internal/placement/placement.go: the records the placer reads, and the naive placer. `Records` has
-- the records and their constructors, `Naive` the policy; the rest prove what they do.
mod Tests
pub mod Records
pub mod Naive
pub mod Lowest
pub mod Conferences
pub mod Participants
pub mod Honesty
