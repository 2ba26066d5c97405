-- ===== src/Voice.antt =====
-- manage/voice/wire.py: the buffer between a call's session and the phone.
mod Outbound
pub mod Delivery
mod Examples
unfoldable pub use Outbound.*
