-- ===== src/Pool/Methods.antt =====
-- internal/pool/pool.go: the pool and its methods. A method that changes the pool returns the new one;
-- a refusal leaves the old one. `now` is what the pool's clock reads during the call, and the lock is
-- held for the whole call, except that `Collect` gives it up while it asks.
mod Marks
mod Loads
unfoldable pub use Marks.*
unfoldable pub use Loads.*
