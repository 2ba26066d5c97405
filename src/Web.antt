-- ===== src/Web.antt =====
-- manage/web: the badges of the thread list.
mod State
pub mod Marks
pub mod Badges
pub mod Written
mod Examples
unfoldable pub use State.*
