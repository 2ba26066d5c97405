-- ===== src/Retention.antt =====
-- assist/retention.py: the oldest threads are deleted, and the rows of a thread go in batches.
mod Defs
mod Prune
pub mod Batches
pub mod Ranking
pub mod Recent
mod Examples
unfoldable pub use Defs.*
unfoldable pub use Prune.*
