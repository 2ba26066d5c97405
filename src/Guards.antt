-- ===== src/Guards.antt =====
-- assist/middleware: the guards that read a turn's tool calls from its messages.
mod Messages
mod Events
mod Repeats
mod Strip
mod Breakers
pub mod Stopping
pub mod Turns
pub mod Bounds
mod Examples
unfoldable pub use Messages.*
unfoldable pub use Events.*
unfoldable pub use Repeats.*
unfoldable pub use Strip.*
unfoldable pub use Breakers.*
