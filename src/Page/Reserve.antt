-- ===== src/Page/Reserve.antt =====
-- kernel/page.c: `pages_reserve`.
pub mod Take
pub mod Whole
