-- ===== src/Events.antt =====
-- assist/events: what comes in from a phone, the subscriptions that handle it, and the history of a
-- thread.
mod Defs
mod Tools
mod Inbound
pub mod Routing
pub mod Dedup
pub mod Log
mod Examples
unfoldable pub use Defs.*
unfoldable pub use Tools.*
unfoldable pub use Inbound.*
