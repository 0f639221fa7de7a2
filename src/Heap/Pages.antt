-- ===== src/Heap/Pages.antt =====
-- kernel/mm.c: pages of virtual memory for the kernel, and the first header of the heap.
use synos.Prelude.{
  ℕ, ◌+◌, ◌-◌, ◌<◌, ◌≡◌, refl, true, ◌&&◌, leb, ltb, ◌==◌, if◌then◌else◌, Option, none, some, [],
  ◌∷◌, arith,
}
use synos.Page.Order.{page_size}
use synos.Page.Regions.{
  Regions, Ending, returns, hangs, faults, alloc_page, alloc_pages, free_page, free_pages,
  alloc_page_rounds,
}
use synos.Paging.{pga_getphysaddr}
use synos.Paging.{Write}
use synos.Paging.Virtual.{Virtual, vpage_map, vpages_map, vpage_unmap, vpages_unmap}
use synos.Heap.{Header, header_size, pointer_size, MemStack, memstck_disable}

abbrev pub with_regions : Virtual → Regions → Virtual
with_regions v regions = record v { memory = record v.memory { regions = regions } }

-- `__get_free_page`; `turns` and `write` are those of the virtual pages.
unfoldable pub get_page : ℕ → Write → Virtual → Ending (ℕ × Virtual)
get_page turns write v = elim (alloc_page v.memory.regions) [
  | returns (page_address, regions) ↦
      if page_address == 0
      then returns (0, with_regions v regions)
      else vpage_map turns write page_address 0 (with_regions v regions)
  | hangs ↦ hangs
  | faults ↦ faults
]

-- `__get_free_pages`
unfoldable pub get_pages : ℕ → Write → ℕ → Virtual → Ending (ℕ × Virtual)
get_pages turns write order v = elim (alloc_pages v.memory.regions order) [
  | returns (pages_address, regions) ↦
      if pages_address == 0
      then returns (0, with_regions v regions)
      else vpages_map turns write pages_address order 0 (with_regions v regions)
  | hangs ↦ hangs
  | faults ↦ faults
]

-- `memset(mem, 0, virt_page_size)`
abbrev pub clear_page : (ℕ → ℕ) → ℕ → ℕ → ℕ
clear_page words mem a = if leb mem a && ltb a (mem + page_size) then 0 else words a

-- `get_free_page`, which clears the page at whatever address it gets.
unfoldable pub get_free_page : ℕ → Write → Virtual → Ending (ℕ × Virtual)
unfolding get_page
get_free_page turns write v = elim (get_page turns write v) [
  | returns (mem, v') ↦
      returns
        (mem, record v' { memory = record v'.memory { words = clear_page v'.memory.words mem } })
  | hangs ↦ hangs
  | faults ↦ faults
]

unfoldable pub return_free_page : Write → ℕ → Virtual → Ending Virtual
return_free_page write address v =
    elim (free_page v.memory.regions (pga_getphysaddr v.memory.words address)) [
      | returns regions ↦ returns (vpage_unmap write address (with_regions v regions))
      | hangs ↦ hangs
      | faults ↦ faults
    ]

unfoldable pub return_free_pages : Write → ℕ → ℕ → Virtual → Ending Virtual
return_free_pages write address order v =
    elim (free_pages v.memory.regions order (pga_getphysaddr v.memory.words address)) [
      | returns regions ↦ returns (vpages_unmap write address order (with_regions v regions))
      | hangs ↦ hangs
      | faults ↦ faults
    ]

-- The first header, with a pointer to all that is left of its page.
unfoldable pub first_header : ℕ → Header
first_header heap_start =
    let size_max = page_size - header_size - pointer_size in
    record {
      address = heap_start;
      size = page_size;
      size_max = size_max;
      pointers = record { address = heap_start + header_size; size = size_max } ∷ [];
    }

-- `mm_init` behind the set-up of the virtual and physical pages. `none`: the panic "No more memory to
-- allocate the kernel heap to!".
unfoldable pub heap_init :
    ℕ → Write → Virtual → MemStack → Ending (Option (Header × Virtual × MemStack))
unfolding get_page first_header
heap_init turns write v s = elim (get_page turns write v) [
  | returns (heap_start, v') ↦
      if heap_start == 0
      then returns none
      else returns (some (first_header heap_start, v', memstck_disable s))
  | hangs ↦ hangs
  | faults ↦ faults
]

-- When the regions are marked as out of memory, `get_free_page` returns null and has cleared the words
-- of page 0, where nothing was allocated.
pub get_free_page-null :
    (turns : ℕ) (write : Write) (v : Virtual)
    → v.memory.regions.out_of_mem ≡ true
    → (after : Virtual) × (get_free_page turns write v ≡ returns (0, after))
      × ((a : ℕ) → a < 4096 → after.memory.words a ≡ 0)
unfolding get_free_page get_page alloc_page alloc_page_rounds
get_free_page-null turns write v full = (
  record v { memory = record v.memory { words = clear_page v.memory.words 0 } },
  rw (alloc_page, full) refl,
  λ a lt. ground (arith, lt),
)
