-- ===== src/Page/Tests.antt =====
-- Concrete regions for kernel/page.c, and the theorems applied to them.
use synos.Prelude.{ℕ, ◌*◌, ◌<◌, ◌≡◌, refl, true, false, some, none, arith, test_bit, [], ◌∷◌}
use synos.Page.State.{Region, bit_at, blocks_clear}
use synos.Page.Bitmap.{bitmap_bytes}
use synos.Page.Map.Layout.{Fits, bitmap_start}
use synos.Page.Inv.{IsValid}
use synos.Page.Map.{blank_map, free_area_map, free_area_map_rounds, region_map}
use synos.Page.Map.Whole.{region_map-Mapped, Mapped, blank_map-Whole}
use synos.Page.Alloc.Spec.{AllocSpec, pages_alloc-AllocSpec}
use synos.Page.Free.{pages_free-deadlock}
use synos.Page.Reserve.Whole.{Settled, pages_reserve-Settled}
use synos.Page.Buddy.{pages_alloc, pages_reserve, pages_free, lock_region, free_block}
use synos.Page.Order.{max_order, free_area_length, order_max}
use synos.Page.Regions.{Regions, returns, alloc_page, alloc_pages, region_at}
use synos.Page.Regions.Blocks.{BlockOr0, alloc_pages-BlockOr0}
use synos.Page.Regions.Alloc.{PageFrom, alloc_page-PageFrom}

-- Memory that holds the same byte everywhere.
abbrev dirty : ℕ → ℕ
dirty a = 0x5A

-- 2048 pages from 2 MiB on, before it is mapped.
abbrev raw : Region
raw = record {
  start = 0x200000;
  size = 0x800000;
  attrib = 7;
  pages_total = 0;
  pages_free = 0;
  mem_full = false;
  page_alloc_si = blank_map 0 dirty;
  lock = 0;
}

abbrev fresh : Region
fresh = record raw {
  page_alloc_si = free_area_map (blank_map 2048 dirty);
  pages_total = 2048;
  pages_free = 2048;
}

fresh-Fits : Fits 2048
unfolding bitmap_start bitmap_bytes
fresh-Fits = omega arith

fresh-IsValid : IsValid fresh.page_alloc_si
fresh-IsValid = (blank_map-Whole 2048 dirty fresh-Fits (omega arith)).valid

region_map-Mapped_example :
    (after : Region) × (region_map raw 2048 dirty ≡ some after) × Mapped raw 2048 after
region_map-Mapped_example = region_map-Mapped raw 2048 dirty fresh-Fits (omega arith) refl

pages_alloc-AllocSpec_example : AllocSpec fresh 3 (pages_alloc fresh 3)
pages_alloc-AllocSpec_example = pages_alloc-AllocSpec fresh 3 fresh-IsValid (omega arith) refl

-- An address below the region.
pages_free-deadlock_example :
    (pages_free fresh 0x1000 0 ≡ some (lock_region fresh 1))
    × ((k : ℕ) → k < max_order → pages_alloc (lock_region fresh 1) k ≡ none)
    × ((a k : ℕ) → pages_free (lock_region fresh 1) a k ≡ none)
pages_free-deadlock_example = pages_free-deadlock fresh 0x1000 0 refl refl

-- Sixteen pages, all of them allocated.
abbrev spent : Region
spent = record raw {
  page_alloc_si = record {
    pages = 16;
    free_area_size = 32;
    free_area = λ o. o * 2;
    pages_free = λ _. 0;
    next_free_page = λ _. 0;
    table = λ _. 0xFF;
  };
  pages_total = 16;
  mem_full = true;
}

abbrev spent_less_one : Region
spent_less_one = record spent { page_alloc_si = free_block spent.page_alloc_si 0 5; pages_free = 1 }

pages_free-spent : pages_free spent 0x205000 0 ≡ some spent_less_one
unfolding pages_free bit_at test_bit
pages_free-spent = refl

-- Memory that pages are taken from, twice; the first region is marked full.
abbrev two_regions : Regions
two_regions = record {
  regions = record fresh { attrib = 0x4B; mem_full = true } ∷ record fresh { attrib = 0x4B } ∷ [];
  next_region = some 0;
  out_of_mem = false;
}

alloc_page-PageFrom_example :
    (addr : ℕ) × (after : Regions) × (alloc_page two_regions ≡ returns (addr, after))
    × PageFrom two_regions 0 addr after
unfolding region_at
alloc_page-PageFrom_example =
    alloc_page-PageFrom two_regions (fresh-IsValid, refl, (fresh-IsValid, refl, tt)) refl 0 refl
      (record fresh { attrib = 0x4B; mem_full = true }) refl

fresh-pages : fresh.page_alloc_si.pages ≡ 2048
unfolding free_area_map free_area_map_rounds order_max blank_map blocks_clear free_area_length
fresh-pages = refl

-- The block of 512 pages from 6 MiB on is set aside.
pages_reserve-Settled_example :
    (addr : ℕ) × (after : Region) × (pages_reserve fresh 9 2 ≡ some (addr, after))
    × Settled fresh 9 2 addr after
unfolding free_area_length
pages_reserve-Settled_example =
    pages_reserve-Settled fresh 9 2 fresh-IsValid refl (omega arith) (omega (arith, fresh-pages))
      (λ d lt. absurd (omega arith))

alloc_pages-BlockOr0_example :
    (addr : ℕ) × (after : Regions) × (alloc_pages two_regions 3 ≡ returns (addr, after))
    × BlockOr0 two_regions.regions 3 0 addr after
unfolding region_at
alloc_pages-BlockOr0_example =
    alloc_pages-BlockOr0 two_regions 0 3 (record fresh { attrib = 0x4B; mem_full = true })
      (omega arith) (fresh-IsValid, refl, (fresh-IsValid, refl, tt)) refl refl refl
