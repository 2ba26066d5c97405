-- ===== src/Dispatch.antt =====
-- manage/web/threads.py: how accepted runs reach the worker that executes them.
mod Queue
mod World
mod Pending
mod Handoff
mod Recovery
mod Startup
mod Start
mod Boundary
pub mod Progress
pub mod Creation
pub mod Steps
pub mod Coverage
pub mod Statuses
pub mod Restart
pub mod Loops
pub mod Import
pub mod Settling
pub mod Liveness
pub mod Alone
pub mod Stranding
pub mod Duplication
pub mod Wakes
pub mod Injection
pub mod Once
pub mod Finished
mod Interjections
mod Examples
pub mod Line
pub mod Tiers
unfoldable pub use Queue.*
unfoldable pub use World.*
unfoldable pub use Pending.*
unfoldable pub use Handoff.*
unfoldable pub use Recovery.*
unfoldable pub use Startup.*
unfoldable pub use Start.*
unfoldable pub use Boundary.*
