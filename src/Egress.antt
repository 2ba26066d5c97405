-- ===== src/Egress.antt =====
-- assist/egress/store.py and assist/keyed_store.py: requests for network access, the user's
-- decisions, and the projection that the proxy enforces.
mod Defs
mod Store
mod Values
pub mod Calls
pub mod Caps
pub mod Grants
pub mod Expiry
pub mod Announcement
mod Examples
unfoldable pub use Defs.*
unfoldable pub use Store.*
