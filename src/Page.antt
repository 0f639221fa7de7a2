-- ===== src/Page.antt =====
-- kernel/page.c and kernel/include/synos/mm.h.
pub mod Order
pub mod State
pub mod Row
pub mod RowOk
pub mod Bitmap
pub mod Buddy
pub mod Inv
pub mod Split
pub mod Alloc
pub mod Reserve
pub mod Map
pub mod Merge
pub mod Free
pub mod Runs
pub mod Regions
mod Tests
