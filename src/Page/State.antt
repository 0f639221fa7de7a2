-- ===== src/Page/State.antt =====
-- kernel/include/synos/mm.h: `bpa_map_t` and `mregion_t`, and the bitmaps of kernel/page.c
-- (`block_check`, `block_set`, `block_clear`, `blocks_clear`, `find_next_free_page`).
use synos.Prelude.{
  ℕ, zero, suc, ◌+◌, ◌-◌, ◌/◌, ◌%◌, Bool, Option, none, some, if◌then◌else◌, update, test_bit,
  set_bit, clear_bit,
}
use synos.Page.Order.{free_area_length}

-- `bpa_map_t`. `table` is the memory from `pageent` on, and a `free_area` pointer is an offset into
-- it. The arrays of MAX_ORDER entries are functions of the order.
pub record BpaMap : Type 0 where
  pub pages : ℕ
  pub free_area_size : ℕ
  pub free_area : ℕ → ℕ
  pub pages_free : ℕ → ℕ
  pub next_free_page : ℕ → ℕ
  pub table : ℕ → ℕ

-- `enum mem_regions_attributes`: MEM_REGION_READ and so on.
abbrev pub mem_region_read : ℕ
mem_region_read = 1

abbrev pub mem_region_write : ℕ
mem_region_write = 2

abbrev pub mem_region_protected : ℕ
mem_region_protected = 4

abbrev pub mem_region_mapped : ℕ
mem_region_mapped = 8

abbrev pub mem_region_bad : ℕ
mem_region_bad = 16

abbrev pub mem_region_preserve : ℕ
mem_region_preserve = 32

abbrev pub mem_region_available : ℕ
mem_region_available = 64

-- `mregion_t`, less the links of the list (Page/Regions). `page_alloc_si` is what it points to.
pub record Region : Type 0 where
  pub start : ℕ
  pub size : ℕ
  pub attrib : ℕ
  pub pages_total : ℕ
  pub pages_free : ℕ
  pub mem_full : Bool
  pub page_alloc_si : BpaMap
  pub lock : ℕ

-- `(byte[offset / 8] >> (offset % 8)) & 1U` in the bitmap of an order.
unfoldable pub bit_at : (ℕ → ℕ) → (ℕ → ℕ) → ℕ → ℕ → Bool
bit_at table area order offset = test_bit (table (area order + offset / 8) % 256) (offset % 8)

unfoldable pub put_bit : (ℕ → ℕ) → (ℕ → ℕ) → ℕ → ℕ → ℕ → ℕ
put_bit table area order offset =
    update table (area order + offset / 8)
      (set_bit (table (area order + offset / 8) % 256) (offset % 8))

unfoldable pub drop_bit : (ℕ → ℕ) → (ℕ → ℕ) → ℕ → ℕ → ℕ → ℕ
drop_bit table area order offset =
    update table (area order + offset / 8)
      (clear_bit (table (area order + offset / 8) % 256) (offset % 8))

abbrev pub block_check : BpaMap → ℕ → ℕ → Bool
block_check map order offset = bit_at map.table map.free_area order offset

abbrev pub block_set : BpaMap → ℕ → ℕ → BpaMap
block_set map order offset = record map { table = put_bit map.table map.free_area order offset }

abbrev pub block_clear : BpaMap → ℕ → ℕ → BpaMap
block_clear map order offset = record map { table = drop_bit map.table map.free_area order offset }

-- The loop from `offset_start` over `length` offsets.
unfoldable pub blocks_clear : BpaMap → ℕ → ℕ → ℕ → BpaMap
blocks_clear map order offset_start zero = map
blocks_clear map order offset_start (suc length) =
    blocks_clear (block_clear map order offset_start) order (offset_start + 1) length

abbrev pub set_pages_free : BpaMap → ℕ → ℕ → BpaMap
set_pages_free map order n = record map { pages_free = update map.pages_free order n }

abbrev pub set_next_free : BpaMap → ℕ → ℕ → BpaMap
set_next_free map order n = record map { next_free_page = update map.next_free_page order n }

-- The number of blocks of an order, the loop bound of `find_next_free_page`.
abbrev pub blocks : BpaMap → ℕ → ℕ
blocks map order = free_area_length map.pages order

-- The first offset from `i` on, within `rounds`, whose bit is clear.
unfoldable pub first_clear : (ℕ → Bool) → ℕ → ℕ → Option ℕ
first_clear row zero i = none
first_clear row (suc rounds) i =
    let rest = first_clear row rounds (i + 1) in if row i then rest else some i

-- With no clear bit left the count of the order is reset, and the result is 0.
unfoldable pub find_next_free_page : BpaMap → ℕ → ℕ → ℕ × BpaMap
unfolding first_clear
find_next_free_page map order start =
    elim (first_clear (block_check map order) (blocks map order - start) start) [
      | some i ↦ (i, map)
      | none ↦ (0, set_pages_free map order 0)
    ]
