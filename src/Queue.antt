-- ===== src/Queue.antt =====
-- assist/thread_queue.py: the queue that gives one thread at a time the model's slot.
mod Defs
mod Acquire
mod Tick
mod Control
mod Tiers
pub mod WellFormed
pub mod System
pub mod SingleFlight
pub mod Revocation
pub mod Order
pub mod Promotion
pub mod Budget
pub mod Accounting
pub mod Invariant
mod Examples
unfoldable pub use Defs.*
unfoldable pub use Acquire.*
unfoldable pub use Tick.*
unfoldable pub use Control.*
