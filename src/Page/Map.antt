-- ===== src/Page/Map.antt =====
-- kernel/page.c: `region_map` and `_free_area_map`, which set up the bitmaps of a region.
pub mod Layout
pub mod Lowest
pub mod Clear
pub mod Building
pub mod Finish
pub mod Step
pub mod Whole
use synos.Prelude.{
  ℕ, zero, suc, ◌+◌, ◌-◌, ◌*◌, ◌/◌, ◌^◌, false, Option, none, some, ltb, ◌==◌, if◌then◌else◌, add64,
  update,
}
use synos.Page.Order.{max_order, free_area_length, order_max}
use synos.Page.State.{
  BpaMap, Region, block_clear, blocks_clear, blocks, set_pages_free, set_next_free,
}
use synos.Page.Buddy.{lock_region}
use synos.Spinlock.{spinlock_lock, spinlock_unlock}

-- `memset(pageent, 0xFF, n)`
abbrev pub fill : ℕ → (ℕ → ℕ) → ℕ → ℕ
fill n table a = if ltb a n then 0xFF else table a

-- The last two statements of `_free_area_map`, and those of its inner return: every block of the
-- order within `p` is free.
abbrev pub free_all : BpaMap → ℕ → ℕ → BpaMap
free_all map order p =
    blocks_clear (set_pages_free map order (free_area_length p order)) order 0
      (free_area_length p order)

-- One odd block at the end of an order.
abbrev pub free_last : BpaMap → ℕ → ℕ → BpaMap
free_last map order p =
    let map1 = set_next_free map order (free_area_length p order - 1) in
    let map2 = block_clear map1 order (map1.next_free_page order) in
    set_pages_free map2 order (add64 (map2.pages_free order) 1)

-- Each turn of `goto ord` clears the lowest bit of `p`, so that MAX_ORDER turns are enough.
unfoldable pub free_area_map_rounds : ℕ → BpaMap → ℕ → BpaMap
free_area_map_rounds zero map p = map
free_area_map_rounds (suc rounds) map p =
    let order = order_max p in
    let rest = free_area_map_rounds rounds (free_last map order p) (p - 2 ^ order) in
    if order == max_order - 1
    then free_all map order p
    else if blocks map (order + 1) == 0
    then free_all map order p
    else rest

unfoldable pub free_area_map : BpaMap → BpaMap
free_area_map map = free_area_map_rounds max_order map map.pages

-- The loop over `i` that cuts the table into bitmaps; `rounds` is MAX_ORDER - i.
unfoldable pub map_free_areas : ℕ → ℕ → ℕ → ℕ → (ℕ → ℕ) → ℕ → ℕ
map_free_areas zero i last_pos last_size area = area
map_free_areas (suc rounds) i last_pos last_size area =
    map_free_areas rounds (i + 1) (last_pos + last_size) ((last_size + 1) / 2)
      (update area i (last_pos + last_size))

-- The superblock before `_free_area_map`. A position is counted from `pageent`, and `table` is what
-- the memory held.
unfoldable pub blank_map : ℕ → (ℕ → ℕ) → BpaMap
blank_map pages table = record {
  pages = pages;
  free_area_size = (pages * 2 + 7) / 8;
  free_area = map_free_areas (max_order - 1) 1 0 ((pages + 7) / 8) (λ _. 0);
  pages_free = λ _. 0;
  next_free_page = λ _. 0;
  table = fill ((pages * 2 + 7) / 8) table;
}

unfoldable pub region_map : Region → ℕ → (ℕ → ℕ) → Option Region
unfolding spinlock_lock spinlock_unlock
region_map region pages table = elim (spinlock_lock region.lock) [
  | none ↦ none
  | some l ↦ some (record region {
    page_alloc_si = free_area_map (blank_map pages table);
    pages_total = pages;
    pages_free = pages;
    mem_full = false;
    lock = spinlock_unlock l;
  })
]
