-- ===== src/Runs.antt =====
-- assist/run_service.py: durable runs, the files that hold them, and their life cycle.
mod Defs
mod Store
mod Create
mod Update
mod Legacy
pub mod Evolution
pub mod Lifecycle
pub mod Numbering
pub mod Acceptance
pub mod Migration
pub mod History
pub mod Idempotence
pub mod Admission
pub mod Claims
mod Examples
unfoldable pub use Defs.*
unfoldable pub use Store.*
unfoldable pub use Create.*
unfoldable pub use Update.*
unfoldable pub use Legacy.*
