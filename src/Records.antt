-- ===== src/Records.antt =====
-- assist/record_store.py: the store of records by thread that schedules, subscriptions and the
-- backlog share.
mod Store
pub mod Refinement
mod Examples
unfoldable pub use Store.*
