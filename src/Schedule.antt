-- ===== src/Schedule.antt =====
-- assist/schedule/cadence.py and model.py: when a schedule fires next.
mod Defs
mod Cadence
mod Scheduler
pub mod Search
pub mod Bound
pub mod Monthly
pub mod Later
pub mod Plans
pub mod Advance
pub mod Polling
pub mod Overlap
mod Examples
unfoldable pub use Defs.*
unfoldable pub use Cadence.*
unfoldable pub use Scheduler.*
