-- ===== src/Page/Free/Reuse.antt =====
-- kernel/page.c: a page that is given back while order 0 has no free page.
use synos.Prelude.{
  ℕ, ◌*◌, ◌<◌, ◌≡◌, ◌≢◌, refl, sym, ap, ◌∙◌, true, false, ◌⊎◌, inl, inr, Bool-cases, ltb→lt, lt→ltb,
  ltb→le, some, arith, ltb, add64,
}
use synos.Page.Order.{block_order_size}
use synos.Page.State.{BpaMap, Region, block_check, block_clear, blocks, set_pages_free}
use synos.Page.Inv.{IsValid, IsFree}
use synos.Page.Row.{clear_count_pos}
use synos.Page.Bitmap.{bitmap_bytes}
use synos.Page.Alloc.Spec.{pages_alloc_lem}
use synos.Page.Free.Clear.{cleared-GivesBack, clear_bits}
use synos.Page.Free.Spec.{page_of, InRegion, freed_region, page_free-eq}
use synos.Page.Buddy.{
  buddy_of, free_block, lock_region, page_free, page_alloc, alloc_locked, take_first,
}

module _ (map : BpaMap) (v : IsValid map) (f : ℕ) (inside : f < map.pages) (taken : ¬ IsFree map f)
    (empty : map.pages_free 0 ≡ 0) (first : map.next_free_page 0 ≡ 0) where
  -- The map after the bit is cleared and the page counted; the next free page stays 0.
  abbrev marked : BpaMap
  marked = set_pages_free (block_clear map 0 f) 0 1

  old_full : (j : ℕ) → j < 8 * bitmap_bytes map.pages 0 → block_check map 0 j ≡ true
  old_full j lt = elim (Bool-cases (ltb j (blocks map 0))) [
    | inl block ↦ elim (Bool-cases (block_check map 0 j)) [
      | inl e ↦ e
      | inr clear ↦ absurd (
          omega (
            arith,
            empty,
            (v.rows 0 (omega arith)).counted,
            clear_count_pos (block_check map 0) j (blocks map 0) (ltb→lt _ _ block) clear,
          ))
    ]
    | inr behind ↦ v.padded 0 j (omega arith) (ltb→le _ _ behind) lt
  ]

  buddy_inside : buddy_of f < 8 * bitmap_bytes map.pages 0
  unfolding bitmap_bytes
  buddy_inside = ground (arith, inside)

  held : block_check marked 0 (buddy_of f) ≡ true
  held = ground (
    arith,
    clear_bits map v f inside taken 0 (buddy_of f) (omega arith, buddy_inside),
    old_full (buddy_of f) buddy_inside,
  )

  free_block-marked : free_block map 0 f ≡ marked
  unfolding free_block
  free_block-marked =
      let one : add64 (map.pages_free 0) 1 ≡ 1 = omega (arith, empty) in
      let low : ltb f (map.next_free_page 0) ≡ false = ground (arith, first) in
      rw (one, low, held) refl

  marked-IsFree : (q : ℕ) → IsFree marked q → IsFree map q ⊎ (q ≡ f)
  marked-IsFree q (b, w) =
      (cleared-GivesBack map v f inside taken).added q
        (b, record { order = w.order; block = w.block; clear = w.clear })

-- With a free page in order 0 `page_alloc` returns the address of the next free one.
page_alloc-here :
    (region : Region)
    → region.lock ≡ 0
    → 0 < region.page_alloc_si.pages_free 0
    → (after : Region) × (page_alloc region
        ≡ some (
          add64 (block_order_size 0 * region.page_alloc_si.next_free_page 0) region.start,
          after,
        ))
unfolding page_alloc alloc_locked take_first
page_alloc-here region free pos =
    let here : ltb 0 (region.page_alloc_si.pages_free 0) ≡ true = lt→ltb _ _ pos in
    (
      lock_region (take_first (lock_region region 1) 0).1 0,
      pages_alloc_lem region 0 (omega arith) free ∙ rw here refl,
    )

-- When order 0 has no free page and its next free page is 0, `page_free` of a page other than page 0
-- leaves page 0 in use, and yet the next `page_alloc` returns the address of page 0.
pub page_alloc-page_free :
    (region : Region) (phaddr : ℕ)
    → IsValid region.page_alloc_si
    → region.lock ≡ 0
    → InRegion region phaddr
    → ¬ IsFree region.page_alloc_si (page_of region phaddr)
    → ¬ IsFree region.page_alloc_si 0
    → page_of region phaddr ≢ 0
    → region.page_alloc_si.pages_free 0 ≡ 0
    → region.page_alloc_si.next_free_page 0 ≡ 0
    → (after : Region) × (page_free region phaddr ≡ some after)
      × (¬ IsFree after.page_alloc_si 0)
      × ((after' : Region) × (page_alloc after ≡ some (region.start, after')))
page_alloc-page_free region phaddr v free w taken taken_0 other empty first = (
  freed_region region (page_of region phaddr),
  page_free-eq region phaddr v free w taken,
  λ again.
      elim (marked-IsFree region.page_alloc_si v (page_of region phaddr) w.page taken empty first 0
        (rw
          (free_block-marked region.page_alloc_si v (page_of region phaddr) w.page taken empty
            first)
          at again)) [ inl old ↦ taken_0 old | inr same ↦ other (sym same) ],
  again,
)
  where
    f : ℕ
    f = page_of region phaddr

    same_map :
        free_block region.page_alloc_si 0 f
        ≡ marked region.page_alloc_si v f w.page taken empty first
    same_map = free_block-marked region.page_alloc_si v f w.page taken empty first

    counted : (free_block region.page_alloc_si 0 f).pages_free 0 ≡ 1
    counted = ap (λ m. m.pages_free 0) same_map

    next : (free_block region.page_alloc_si 0 f).next_free_page 0 ≡ 0
    next = ap (λ m. m.next_free_page 0) same_map ∙ first

    again : (after' : Region) × (page_alloc (freed_region region f) ≡ some (region.start, after'))
    again =
        let (after', e) = page_alloc-here (freed_region region f) refl (omega (arith, counted)) in
        let start : add64 (block_order_size 0 * 0) region.start ≡ region.start =
          omega (arith, w.small) in
        (after', rw (next, start) at e)
