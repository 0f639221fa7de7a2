-- ===== src/Paging/Table.antt =====
-- arch/X86_64/memory.c: new page tables and mappings.
use Prim.Native.Nat.{bit_and, bit_or}
use synos.Prelude.{ℕ, zero, suc, ◌+◌, ◌-◌, ◌*◌, ◌^◌, ◌==◌, if◌then◌else◌, add64}
use synos.Page.Order.{page_size}
use synos.Page.Regions.{Regions, Ending, returns, hangs, faults, alloc_page}
use synos.Paging.{Write, get_table_address, page_ispresent}

-- The words at virtual addresses, and the regions that pages come from.
pub record Memory : Type 0 where
  pub words : ℕ → ℕ
  pub regions : Regions

-- The end of `page_table_alloc`: a page for the table of a level, and its entry. The page is not
-- cleared.
unfoldable pub new_table : Write → ℕ → ℕ → Memory → Ending Memory
new_table write level offset m = elim (alloc_page m.regions) [
  | returns (addr, regions) ↦ returns (record {
    words = write m.words (get_table_address offset level) (bit_or addr 3);
    regions = regions;
  })
  | hangs ↦ hangs
  | faults ↦ faults
]

-- `page_table_alloc` for the level `4 - up`, with the levels above it that are missing.
unfoldable pub page_table_alloc : ℕ → Write → ℕ → Memory → Ending Memory
unfolding new_table
page_table_alloc zero write offset m = new_table write 4 offset m
page_table_alloc (suc up) write offset m =
    let above : Ending Memory = elim (page_table_alloc up write offset m) [
      | returns m' ↦ new_table write (4 - suc up) offset m'
      | hangs ↦ hangs
      | faults ↦ faults
    ] in
    if page_ispresent m.words offset (4 - suc up + 1)
    then new_table write (4 - suc up) offset m
    else above

-- VPAGE_NOT_PRESENT, VPAGE_NOT_WRITABLE, VPAGE_USER_ACCESS, VPAGE_NO_CACHE and VPAGE_NO_EXECUTE
abbrev pub vpage_not_present : ℕ
vpage_not_present = 1

abbrev pub vpage_not_writable : ℕ
vpage_not_writable = 2

abbrev pub vpage_user_access : ℕ
vpage_user_access = 4

abbrev pub vpage_no_cache : ℕ
vpage_no_cache = 8

abbrev pub vpage_no_execute : ℕ
vpage_no_execute = 16

-- PAGE_PRESENT, PAGE_WRITABLE, PAGE_USER, PAGE_CACHE_WRITE and PAGE_NO_EXECUTE
abbrev pub page_present : ℕ
page_present = 1

abbrev pub page_writable : ℕ
page_writable = 2

abbrev pub page_user : ℕ
page_user = 4

abbrev pub page_cache_write : ℕ
page_cache_write = 8

abbrev pub page_no_execute : ℕ
page_no_execute = 2 ^ 63

-- A flag of the call, and the bit of the entry that it sets.
abbrev pub flag_bit : ℕ → ℕ → ℕ → ℕ
flag_bit flags flag bit = if bit_and flags flag == 0 then 0 else bit

abbrev pub unless_bit : ℕ → ℕ → ℕ → ℕ
unless_bit flags flag bit = if bit_and flags flag == 0 then bit else 0

-- The bits of the entry. For VPAGE_NO_CACHE it is the bit PAGE_CACHE_WRITE.
unfoldable pub entry_flags : ℕ → ℕ
entry_flags flags =
    unless_bit flags vpage_not_present page_present
    + unless_bit flags vpage_not_writable page_writable
    + flag_bit flags vpage_user_access page_user
    + flag_bit flags vpage_no_cache page_cache_write
    + flag_bit flags vpage_no_execute page_no_execute

-- `(0xFFFUL << 52) | 0xFFFUL`
abbrev pub flag_mask : ℕ
flag_mask = 0xFFF * 2 ^ 52 + 0xFFF

-- The entry for page `i`, from that of the page before it.
unfoldable pub next_entry : ℕ → ℕ → ℕ → ℕ
next_entry paddress i entry =
    bit_and (add64 paddress (page_size * i)) (2 ^ 64 - 1 - flag_mask) + bit_and entry flag_mask

-- The loop of `pga_map` from page `i` on.
unfoldable pub map_pages : ℕ → Write → ℕ → ℕ → ℕ → ℕ → Memory → Ending Memory
unfolding page_table_alloc next_entry
map_pages zero write vaddress paddress i entry m = returns m
map_pages (suc n) write vaddress paddress i entry m =
    let page = add64 vaddress (page_size * i) in
    let entry' = next_entry paddress i entry in
    let ready : Ending Memory =
      if page_ispresent m.words page 2 then returns m else page_table_alloc 2 write page m in
    elim ready [
      | returns m' ↦
          map_pages n write vaddress paddress (i + 1) entry'
            (record m' { words = write m'.words (get_table_address page 1) entry' })
      | hangs ↦ hangs
      | faults ↦ faults
    ]

unfoldable pub pga_map : Write → ℕ → ℕ → ℕ → ℕ → Memory → Ending Memory
unfolding map_pages entry_flags
pga_map write vaddress paddress order flags m =
    map_pages (2 ^ order) write vaddress paddress 0 (entry_flags flags) m
