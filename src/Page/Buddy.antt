-- ===== src/Page/Buddy.antt =====
-- kernel/page.c: the buddy allocator of one region. A function returns the new region.
use synos.Prelude.{
  ℕ, zero, suc, ◌+◌, ◌-◌, ◌*◌, ◌/◌, ◌%◌, ◌^◌, true, ◌||◌, not, Option, none, some, ltb, leb, ◌==◌,
  if◌then◌else◌, add64, sub64,
}
use synos.Page.Order.{max_order, page_size, block_order_size}
use synos.Page.State.{
  BpaMap, Region, block_check, block_set, block_clear, set_pages_free, set_next_free,
  find_next_free_page,
}
use synos.Spinlock.{spinlock_lock, spinlock_unlock}

abbrev pub with_map : Region → BpaMap → Region
with_map region map = record region { page_alloc_si = map }

abbrev pub out_of_mem : Region → Region
out_of_mem region = record region { mem_full = true }

abbrev pub lock_region : Region → ℕ → Region
lock_region region l = record region { lock = l }

-- `--map->pages_free[order]`
abbrev pub dec_pages_free : BpaMap → ℕ → BpaMap
dec_pages_free map order = set_pages_free map order (sub64 (map.pages_free order) 1)

-- The end of the first branch of `block_split` and of `pages_alloc`, which read alike: find the
-- next free block unless the one just taken was the last, and count it.
unfoldable pub advance : BpaMap → ℕ → BpaMap
advance map order =
    if map.pages_free order == 1
    then dec_pages_free (set_next_free map order 0) order
    else let (next, map') = find_next_free_page map order (add64 (map.next_free_page order) 1) in
      dec_pages_free (set_next_free map' order next) order

-- `if (next[order-1] > next[order]*2 || pages_free[order-1] == 0) next[order-1] = next[order]*2;`
-- and the count of the two halves.
abbrev pub add_halves : BpaMap → ℕ → BpaMap
add_halves map order =
    let first = map.next_free_page order * 2 in
    let map' =
      if ltb first (map.next_free_page (order - 1)) || map.pages_free (order - 1) == 0
      then set_next_free map (order - 1) first
      else map in
    set_pages_free map' (order - 1) (add64 (map.pages_free (order - 1)) 2)

-- The branch of `block_split` that finds a free block.
unfoldable pub split_first : BpaMap → ℕ → BpaMap
split_first map order =
    let n = map.next_free_page order in
    advance
      (add_halves
        (block_clear (block_clear (block_set map order n) (order - 1) (n * 2)) (order - 1)
          (n * 2 + 1))
        order)
      order

-- `goto ord_check` is reached with a nonzero count, so that the first branch follows.
-- The recursion climbs one order at a time: MAX_ORDER rounds are enough.
unfoldable pub block_split_rounds : ℕ → Region → ℕ → Region
block_split_rounds zero region order = region
block_split_rounds (suc rounds) region order =
    let map = region.page_alloc_si in
    let above = block_split_rounds rounds region (order + 1) in
    let retry =
      if above.page_alloc_si.pages_free order == 0
      then out_of_mem above
      else with_map above (split_first above.page_alloc_si order) in
    if order == 0 || leb max_order order
    then region
    else if ltb 0 (map.pages_free order)
    then with_map region (split_first map order)
    else if order == max_order - 1
    then out_of_mem region
    else retry

unfoldable pub block_split : Region → ℕ → Region
unfolding block_split_rounds split_first advance
block_split region order = block_split_rounds max_order region order

-- The statements of `zblock_split` behind the label `pos`.
unfoldable pub zsplit_at : BpaMap → ℕ → ℕ → BpaMap
unfolding find_next_free_page
zsplit_at map order offset =
    let map1 =
      block_clear (block_clear (block_set map order offset) (order - 1) (offset * 2)) (order - 1)
        (offset * 2 + 1) in
    let first = map1.next_free_page order * 2 in
    let map2 =
      if ltb first (map1.next_free_page (order - 1))
      then set_next_free map1 (order - 1) first
      else map1 in
    let map3 = set_pages_free map2 (order - 1) (add64 (map2.pages_free (order - 1)) 2) in
    let (next, map4) = find_next_free_page map3 order (offset + 1) in
    dec_pages_free
      (if map3.pages_free order == 1
        then set_next_free map3 order 0
        else if offset == map3.next_free_page order
        then set_next_free map4 order next
        else map3)
      order

unfoldable pub zblock_split_rounds : ℕ → BpaMap → ℕ → ℕ → BpaMap
unfolding zsplit_at
zblock_split_rounds zero map order offset = map
zblock_split_rounds (suc rounds) map order offset =
    let above = zblock_split_rounds rounds map (order + 1) (offset / 2) in
    let retry = if block_check above order offset then above else zsplit_at above order offset in
    if order == 0 || leb max_order order
    then map
    else if not (block_check map order offset)
    then zsplit_at map order offset
    else if order == max_order - 1
    then map
    else retry

unfoldable pub zblock_split : BpaMap → ℕ → ℕ → BpaMap
unfolding zblock_split_rounds
zblock_split map order offset = zblock_split_rounds max_order map order offset

-- What `block_merge` does at one order: `offset` is even here.
unfoldable pub merge_at : BpaMap → ℕ → ℕ → BpaMap
merge_at map order offset =
    let map1 =
      block_clear (block_set (block_set map order offset) order (offset + 1)) (order + 1)
        (offset / 2) in
    let map2 = set_pages_free map1 order (sub64 (map1.pages_free order) 2) in
    let map3 = set_pages_free map2 (order + 1) (add64 (map2.pages_free (order + 1)) 1) in
    let (next, found) = find_next_free_page map3 order (offset + 2) in
    let map4 =
      if map3.next_free_page order == offset || map3.next_free_page order == offset + 1
      then set_next_free found order next
      else map3 in
    if ltb (offset / 2) (map4.next_free_page (order + 1)) || map4.pages_free (order + 1) == 1
    then set_next_free map4 (order + 1) (offset / 2)
    else map4

-- The block beside `offset`.
abbrev pub buddy_of : ℕ → ℕ
buddy_of offset = if offset % 2 == 0 then offset + 1 else offset - 1

-- `offset &= ~(1UL)` clears the lowest bit.
unfoldable pub block_merge_rounds : ℕ → BpaMap → ℕ → ℕ → BpaMap
block_merge_rounds zero map order offset = map
block_merge_rounds (suc rounds) map order offset =
    let even = offset / 2 * 2 in
    let merged = merge_at map order even in
    let above = block_merge_rounds rounds merged (order + 1) (even / 2) in
    if leb (max_order - 1) order
    then map
    else if block_check merged (order + 1) (buddy_of (even / 2))
    then merged
    else above

unfoldable pub block_merge : BpaMap → ℕ → ℕ → BpaMap
block_merge map order offset = block_merge_rounds max_order map order offset

-- `if (region->pages_free <= (1UL << order)) out_of_mem(region); region->pages_free -= 1 << order;`
abbrev pub charge : Region → ℕ → Region
charge region order =
    let region' = if leb region.pages_free (2 ^ order) then out_of_mem region else region in
    record region' { pages_free = sub64 region.pages_free (2 ^ order) }

-- The branch of `pages_alloc` that finds a free block, less the locking.
unfoldable pub take_first : Region → ℕ → ℕ × Region
take_first region order =
    let map = region.page_alloc_si in
    let n = map.next_free_page order in
    let phys_addr = add64 (block_order_size order * n) region.start in
    (phys_addr, charge (with_map region (advance (block_set map order n) order)) order)

-- `goto check_ord` is reached with a nonzero count, so that the first branch follows.
unfoldable pub alloc_locked : Region → ℕ → ℕ × Region
alloc_locked region order =
    if ltb 0 (region.page_alloc_si.pages_free order)
    then take_first region order
    else if order == max_order - 1
    then (0, out_of_mem region)
    else let split = block_split region (order + 1) in
      if split.page_alloc_si.pages_free order == 0
      then (0, out_of_mem split)
      else take_first split order

-- `none`: the lock is held, and `spinlock_lock` spins for ever.
unfoldable pub pages_alloc : Region → ℕ → Option (ℕ × Region)
unfolding alloc_locked take_first advance block_split find_next_free_page spinlock_lock
    spinlock_unlock
pages_alloc region order =
    if leb max_order order then some (0, region) else elim (spinlock_lock region.lock) [
      | none ↦ none
      | some l ↦
          let (addr, region') = alloc_locked (lock_region region l) order in
          some (addr, lock_region region' (spinlock_unlock region'.lock))
    ]

unfoldable pub page_alloc : Region → Option (ℕ × Region)
unfolding pages_alloc
page_alloc region = pages_alloc region 0

-- The bit set, the count and the next free block of `pages_reserve`.
unfoldable pub reserve_at : BpaMap → ℕ → ℕ → BpaMap
unfolding find_next_free_page
reserve_at map order offset =
    let map' = dec_pages_free (block_set map order offset) order in
    let (next, found) = find_next_free_page map' order (offset + 1) in
    if map'.next_free_page order == offset then set_next_free found order next else map'

-- The first loop of `pages_reserve`: `i` and `p_offset` where it stops. Both `rounds` count the
-- orders from `i` up to MAX_ORDER.
unfoldable pub find_split_order : ℕ → BpaMap → ℕ → ℕ → ℕ → ℕ × ℕ
find_split_order zero map order i p_offset = (order, p_offset)
find_split_order (suc rounds) map order i p_offset =
    let rest = find_split_order rounds map order (i + 1) (p_offset / 2) in
    if block_check map i (p_offset / 2) then rest else (i, p_offset / 2)

-- The second loop, `levels` = i - order.
unfoldable pub split_down : ℕ → BpaMap → ℕ → ℕ → BpaMap
unfolding zblock_split
split_down zero map order p_offset = map
split_down (suc levels) map order p_offset =
    split_down levels (zblock_split map (order + suc levels) p_offset) order (p_offset * 2)

unfoldable pub pages_reserve : Region → ℕ → ℕ → Option (ℕ × Region)
unfolding reserve_at find_split_order split_down spinlock_lock spinlock_unlock
pages_reserve region order offset = elim (spinlock_lock region.lock) [
  | none ↦ none
  | some l ↦
      let map = region.page_alloc_si in
      let addr = add64 (block_order_size order * offset) region.start in
      let done =
        λ (m : BpaMap). lock_region (charge (with_map region m) order) (spinlock_unlock l) in
      let (split_order, p_offset) =
        find_split_order (max_order - (order + 1)) map order (order + 1) (offset / 2 * 2) in
      let split = split_down (split_order - order) map order p_offset in
      if not (block_check map order offset)
      then some (addr, done (reserve_at map order offset))
      else if not (block_check split order offset)
      then some (addr, done (reserve_at split order offset))
      else some (addr, done split)
]

-- What `pages_free` does behind its guards, at a block whose bit is set.
unfoldable pub free_block : BpaMap → ℕ → ℕ → BpaMap
free_block map order offset =
    let map1 = block_clear map order offset in
    let map2 = set_pages_free map1 order (add64 (map1.pages_free order) 1) in
    let map3 =
      if ltb offset (map2.next_free_page order) then set_next_free map2 order offset else map2 in
    if block_check map3 order (buddy_of offset) then map3 else block_merge map3 order offset

-- Both early returns leave the lock held.
unfoldable pub pages_free : Region → ℕ → ℕ → Option Region
unfolding spinlock_lock spinlock_unlock
pages_free region phaddr order = elim (spinlock_lock region.lock) [
  | none ↦ none
  | some l ↦
      let locked = lock_region region l in
      let map = region.page_alloc_si in
      let offset = (phaddr - region.start) / page_size in
      let full = region.pages_free == 0 || region.mem_full in
      if ltb phaddr region.start || leb (add64 region.start region.size) phaddr
      then some locked
      else if not (block_check map order offset)
      then some locked
      else some (record region {
        page_alloc_si = free_block map order offset;
        mem_full = full;
        pages_free = add64 region.pages_free (2 ^ order);
        lock = spinlock_unlock l;
      })
]

unfoldable pub page_free : Region → ℕ → Option Region
unfolding pages_free
page_free region phaddr = pages_free region phaddr 0
