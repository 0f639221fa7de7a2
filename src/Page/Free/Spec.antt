-- ===== src/Page/Free/Spec.antt =====
-- kernel/page.c: what `page_free` promises for a page that is in use, and when it breaks the next
-- allocation.
use synos.Prelude.{
  ℕ, ◌+◌, ◌-◌, ◌/◌, ◌^◌, ◌≤◌, ◌<◌, ◌≡◌, refl, true, false, ◌||◌, some, arith, ltb, leb, ◌==◌, add64,
}
use synos.Page.Order.{page_size, free_area_length}
use synos.Page.State.{Region, block_check}
use synos.Page.Inv.{IsValid, IsFree}
use synos.Page.Free.Clear.{GivesBack, free_block-GivesBack, full}
use synos.Page.Buddy.{free_block, pages_free, page_free}

-- The page of the region that an address lies in.
abbrev pub page_of : Region → ℕ → ℕ
page_of region phaddr = (phaddr - region.start) / page_size

-- The address lies in the region, at one of the pages of its map.
pub record InRegion (region : Region) (phaddr : ℕ) : Type 0 where
  pub above : region.start ≤ phaddr
  pub below : phaddr < region.start + region.size
  pub small : region.start + region.size < 2 ^ 64
  pub page : page_of region phaddr < region.page_alloc_si.pages

-- `page_free` freed page `f`.
pub record Freed (region : Region) (f : ℕ) (after : Region) : Type 0 where
  pub back : GivesBack region.page_alloc_si f after.page_alloc_si
  pub counted : after.pages_free ≡ add64 region.pages_free 1
  pub lock : after.lock ≡ 0
  pub start : after.start ≡ region.start
  pub size : after.size ≡ region.size

-- `page_free` past its guards.
abbrev pub freed_region : Region → ℕ → Region
freed_region region f = record region {
  page_alloc_si = free_block region.page_alloc_si 0 f;
  mem_full = region.pages_free == 0 || region.mem_full;
  pages_free = add64 region.pages_free 1;
  lock = 0;
}

module _ (region : Region) (phaddr : ℕ) (v : IsValid region.page_alloc_si) (free : region.lock ≡ 0)
    (w : InRegion region phaddr)
    (taken : ¬ IsFree region.page_alloc_si (page_of region phaddr)) where
  pub page_free-eq : page_free region phaddr ≡ some (freed_region region (page_of region phaddr))
  unfolding page_free pages_free
  page_free-eq =
      let in_use : block_check region.page_alloc_si 0 (page_of region phaddr) ≡ true =
        unfold free_area_length in
        full region.page_alloc_si v (page_of region phaddr) w.page taken 0 (omega arith) in
      let out : (ltb phaddr region.start || leb (add64 region.start region.size) phaddr) ≡ false =
        ground (arith, w.above, w.below, w.small) in
      rw (free, out, in_use) refl

  -- `page_free` of a page that is in use returns and releases the lock; exactly that page becomes
  -- free, the invariant holds again, and the region counts one page more, provided that the next
  -- free page of order 0 does not lie below the page when no page counts as free in order 0.
  pub page_free-Freed :
      (region.page_alloc_si.pages_free 0 ≡ 0
        → page_of region phaddr ≤ region.page_alloc_si.next_free_page 0)
      → (after : Region) × (page_free region phaddr ≡ some after)
        × Freed region (page_of region phaddr) after
  page_free-Freed near = (
    freed_region region (page_of region phaddr),
    page_free-eq,
    record {
      back = free_block-GivesBack region.page_alloc_si v (page_of region phaddr) w.page taken near;
      counted = refl;
      lock = refl;
      start = refl;
      size = refl;
    },
  )
