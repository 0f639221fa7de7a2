-- ===== src/Page/Regions.antt =====
-- kernel/page.c: the list of regions, and the allocation and release of pages over all of them. A
-- pointer into the list is the position of the region, and a position behind the last one, or `none`,
-- is the null pointer.
mod Tests
pub mod Search
pub mod Places
pub mod Failure
pub mod Alloc
pub mod RoundTrip
pub mod Blocks
use Prim.Native.Nat.{bit_and}
use synos.Prelude.{
  ℕ, zero, suc, ◌+◌, Bool, true, false, ◌&&◌, ◌||◌, Option, none, some, List, [], ◌∷◌, ltb, leb,
  ◌==◌, if◌then◌else◌, add64,
}
use synos.Page.Order.{page_size}
use synos.Page.State.{
  Region, mem_region_available, mem_region_read, mem_region_write, mem_region_bad,
  mem_region_preserve, mem_region_protected,
}
use synos.Page.Buddy.{pages_alloc, page_alloc, pages_free, page_free}

-- The regions, and the variables `next_region` and `outOfMem`.
pub record Regions : Type 0 where
  pub regions : List Region
  pub next_region : Option ℕ
  pub out_of_mem : Bool

-- How a call ends: it returns, it waits for a lock without end, or it reads through the null pointer.
pub data Ending {ℓ} (A : Type ℓ) : Type ℓ where
  returns : A → Ending A
  hangs : Ending A
  faults : Ending A

unfoldable pub region_at : List Region → ℕ → Option Region
region_at [] i = none
region_at (r ∷ rs) zero = some r
region_at (r ∷ rs) (suc i) = region_at rs i

unfoldable pub put_region : List Region → ℕ → Region → List Region
put_region [] i region = []
put_region (r ∷ rs) zero region = region ∷ rs
put_region (r ∷ rs) (suc i) region = r ∷ put_region rs i region

unfoldable pub count : List Region → ℕ
count [] = 0
count (r ∷ rs) = suc (count rs)

-- The condition of `findNextRegion`: available, readable and writable, neither bad nor preserved nor
-- protected, and at least a page long.
abbrev pub is_usable : Region → Bool
is_usable region =
    bit_and region.attrib (mem_region_available + mem_region_read + mem_region_write)
      == mem_region_available + mem_region_read + mem_region_write
    && bit_and region.attrib (mem_region_bad + mem_region_preserve + mem_region_protected) == 0
    && leb page_size region.size

-- The first region from position `start` on that passes a test; `i` is the position of the list's
-- head.
unfoldable pub find_from : (Region → Bool) → List Region → ℕ → ℕ → Option ℕ
find_from test [] start i = none
find_from test (r ∷ rs) start i =
    let rest = find_from test rs start (i + 1) in if leb start i && test r then some i else rest

unfoldable pub find_next_region : List Region → ℕ → Option ℕ
unfolding find_from
find_next_region regions start = find_from is_usable regions start 0

-- The result, and whether `outOfMem` was set. Each turn moves `start` on by one.
unfoldable pub find_free_rounds : ℕ → List Region → ℕ → Option ℕ × Bool
find_free_rounds zero regions start = (none, true)
find_free_rounds (suc rounds) regions start =
    let again = find_free_rounds rounds regions (start + 1) in
    elim (find_next_region regions start) [
      | none ↦ (none, true)
      | some i ↦ elim (region_at regions i) [
        | none ↦ (none, true)
        | some r ↦ if r.mem_full then again else (some i, false)
      ]
    ]

unfoldable pub find_free_region : List Region → ℕ → Option ℕ × Bool
unfolding find_free_rounds
find_free_region regions start = find_free_rounds (suc (count regions)) regions start

-- `region->start <= paddress && (region->start + region->size) > paddress`
abbrev pub contains : ℕ → Region → Bool
contains paddress region =
    leb region.start paddress && ltb paddress (add64 region.start region.size)

unfoldable pub find_region : ℕ → List Region → ℕ → Option ℕ
unfolding find_from
find_region paddress regions start = find_from (contains paddress) regions start 0

abbrev pub with_next : Regions → Option ℕ × Bool → Regions
with_next m (next, full) = record m { next_region = next; out_of_mem = full || m.out_of_mem }

abbrev pub with_region : Regions → ℕ → Region → Regions
with_region m i region = record m { regions = put_region m.regions i region }

-- `findFreeRegion` never returns a region that is full, so that two turns are enough.
unfoldable pub alloc_page_rounds : ℕ → Regions → Ending (ℕ × Regions)
alloc_page_rounds zero m = hangs
alloc_page_rounds (suc rounds) m = if m.out_of_mem then returns (0, m) else elim m.next_region [
  | none ↦ faults
  | some i ↦ elim (region_at m.regions i) [
    | none ↦ faults
    | some r ↦
        let again = alloc_page_rounds rounds (with_next m (find_free_region m.regions (i + 1))) in
        if r.mem_full then again else elim (page_alloc r) [
          | none ↦ hangs
          | some (addr, r') ↦ returns (addr, with_region m i r')
        ]
  ]
]

unfoldable pub alloc_page : Regions → Ending (ℕ × Regions)
unfolding alloc_page_rounds
alloc_page m = alloc_page_rounds 2 m

-- The loop of `alloc_pages`, in which `areg` moves on by at least one position each turn.
unfoldable pub alloc_pages_rounds : ℕ → Regions → Option ℕ → ℕ → Ending (ℕ × Regions)
alloc_pages_rounds zero m areg order = hangs
alloc_pages_rounds (suc rounds) m areg order =
    if m.out_of_mem then returns (0, record m { out_of_mem = false }) else elim areg [
      | none ↦ faults
      | some i ↦ elim (region_at m.regions i) [
        | none ↦ faults
        | some r ↦ elim (pages_alloc r order) [
          | none ↦ hangs
          | some (paddr, r') ↦
              let m' = with_region m i r' in
              let (next, full) = find_free_region m'.regions (i + 1) in
              let again =
                alloc_pages_rounds rounds (record m' { out_of_mem = full || m'.out_of_mem }) next
                  order in
              if paddr == 0 then again else returns (paddr, m')
        ]
      ]
    ]

unfoldable pub alloc_pages : Regions → ℕ → Ending (ℕ × Regions)
unfolding alloc_pages_rounds
alloc_pages m order =
    if m.out_of_mem
    then returns (0, m)
    else alloc_pages_rounds (count m.regions + 2) m m.next_region order

-- What `free_page` and `free_pages` do once the region is found; `freed` is the region after its
-- pages have been released.
unfoldable pub after_free : Regions → ℕ → Region → Ending Regions
after_free m i freed =
    let m' = with_region m i freed in
    elim m.next_region [
      | none ↦ faults
      | some n ↦ elim (region_at m'.regions n) [
        | none ↦ faults
        | some next ↦ returns (record m' {
          next_region = if ltb freed.start next.start then some i else m.next_region;
          out_of_mem = false;
        })
      ]
    ]

unfoldable pub free_pages : Regions → ℕ → ℕ → Ending Regions
free_pages m order pages = elim (find_region pages m.regions 0) [
  | none ↦ returns m
  | some i ↦ elim (region_at m.regions i) [
    | none ↦ faults
    | some r ↦ elim (pages_free r pages order) [ none ↦ hangs | some r' ↦ after_free m i r' ]
  ]
]

unfoldable pub free_page : Regions → ℕ → Ending Regions
free_page m page = elim (find_region page m.regions 0) [
  | none ↦ returns m
  | some i ↦ elim (region_at m.regions i) [
    | none ↦ faults
    | some r ↦ elim (page_free r page) [ none ↦ hangs | some r' ↦ after_free m i r' ]
  ]
]
