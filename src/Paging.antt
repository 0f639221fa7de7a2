-- ===== src/Paging.antt =====
-- arch/X86_64/memory.c: the page tables as they are read and cleared through the entry that maps the
-- top table to itself, and the pages that are set aside in a region. `memory` holds the words at
-- virtual addresses. `write` is what they become when one of them is written: the write of an entry of a
-- table can change what stands at other addresses, which is a matter of the processor. The flush of
-- the address cache is not part of the model.
pub mod Table
pub mod Virtual
pub mod Places
pub mod Setup
pub mod Unmap
pub mod Overwrite
mod Tests
use Prim.Native.Nat.{bit_and, bit_or}
use synos.Prelude.{
  ℕ, zero, suc, ◌+◌, ◌-◌, ◌*◌, ◌/◌, ◌%◌, ◌^◌, Bool, true, false, ◌&&◌, ◌||◌, Option, none, some,
  ltb, ◌==◌, if◌then◌else◌, add64, sub64, min, max,
}
use synos.Page.Order.{page_size, log_order}
use synos.Page.State.{Region}
use synos.Page.Buddy.{pages_reserve}

abbrev pub Write : Type 0
Write = (ℕ → ℕ) → ℕ → ℕ → ℕ → ℕ

-- `table_address |= (511UL << (39-(9*i)))` for `i` from 0 on.
unfoldable pub add_indices : ℕ → ℕ → ℕ
add_indices zero table_address = table_address
add_indices (suc level) table_address =
    bit_or (add_indices level table_address) (511 * 2 ^ (39 - 9 * level))

-- Bits 48 to 63 are copies of bit 47.
unfoldable pub sign_extend : ℕ → ℕ
sign_extend table_address =
    let high = 0xFFFF * 2 ^ 48 in
    if table_address / 2 ^ 47 % 2 == 1
    then bit_or table_address high
    else bit_and table_address (2 ^ 64 - 1 - high)

unfoldable pub get_table_address : ℕ → ℕ → ℕ
unfolding add_indices sign_extend
get_table_address address level =
    sign_extend (add_indices level (bit_and (address / 2 ^ (9 * level)) (2 ^ 64 - 1 - 7)))

-- The lowest bit of the entry of an address at a level.
abbrev pub entry_present : (ℕ → ℕ) → ℕ → ℕ → Bool
entry_present memory vaddress level = memory (get_table_address vaddress level) % 2 == 1

-- The levels from 4 down to 4 - rounds: a lower level is read only if the one above is present.
unfoldable pub present_down : ℕ → (ℕ → ℕ) → ℕ → Bool
present_down zero memory vaddress = entry_present memory vaddress 4
present_down (suc rounds) memory vaddress =
    present_down rounds memory vaddress && entry_present memory vaddress (4 - suc rounds)

unfoldable pub page_ispresent : (ℕ → ℕ) → ℕ → ℕ → Bool
unfolding present_down
page_ispresent memory vaddress level =
    if level == 0 || ltb 4 level then false else present_down (4 - level) memory vaddress

unfoldable pub page_info : (ℕ → ℕ) → ℕ → ℕ
unfolding page_ispresent
page_info memory vaddress =
    let pt_address = bit_or (bit_and (vaddress / 2 ^ 9) (2 ^ 64 - 1 - 3)) (511 * 2 ^ 39) in
    if page_ispresent memory vaddress 1 then memory pt_address else 0

unfoldable pub pga_getphysaddr : (ℕ → ℕ) → ℕ → ℕ
unfolding page_info
pga_getphysaddr memory vaddress =
    bit_and (bit_and (page_info memory vaddress) (2 ^ 64 - 1 - 0xFFF)) (2 ^ 64 - 1 - 0xFFF * 2 ^ 52)

unfoldable pub pga_ispresent : (ℕ → ℕ) → ℕ → Bool
unfolding page_ispresent
pga_ispresent memory vaddress = if page_ispresent memory vaddress 1 then true else false

-- The loop of `pga_unmap` over the pages from `vaddress` on.
unfoldable pub unmap_pages : ℕ → Write → (ℕ → ℕ) → ℕ → ℕ → ℕ
unfolding page_ispresent
unmap_pages zero write memory vaddress = memory
unmap_pages (suc n) write memory vaddress =
    unmap_pages n write
      (if page_ispresent memory vaddress 1
        then write memory (get_table_address vaddress 1) 0
        else memory)
      (add64 vaddress page_size)

unfoldable pub pga_unmap : Write → (ℕ → ℕ) → ℕ → ℕ → ℕ → ℕ
unfolding unmap_pages
pga_unmap write memory vaddress order = unmap_pages (2 ^ order) write memory vaddress

-- A call of `pages_reserve` for `res_size` bytes; `none`: the lock is held.
abbrev pub reserve_bytes : Region → ℕ → ℕ → Option Region
reserve_bytes region res_size offset =
    elim (pages_reserve region (log_order (add64 res_size (page_size - 1) / page_size)) offset) [
      | none ↦ none
      | some (addr, after) ↦ some after
    ]

-- The part of the region below 2 MiB.
unfoldable pub protect_low : Region → Option Region
protect_low region =
    let res_size = min (0x200000 - region.start) region.size in
    let reserved : Option Region = reserve_bytes region res_size (region.start / page_size) in
    if ltb region.start 0x200000 then reserved else some region

-- The boot information of 116 bytes at `mbp`.
unfoldable pub protect_mboot : Region → ℕ → Option Region
protect_mboot region mbp =
    let start = max mbp region.start in
    let left = sub64 region.size (start - region.start) in
    let res_size = min (116 - (start - mbp)) left in
    let reserved : Option Region =
      reserve_bytes region res_size ((start - region.start) / page_size) in
    if ltb region.start (mbp + 116) && ltb mbp (add64 region.start region.size)
    then reserved
    else some region

unfoldable pub mem_p_protect : Region → ℕ → Option Region
unfolding protect_low protect_mboot
mem_p_protect region mbp = elim (protect_low region) [
  | none ↦ none
  | some after ↦ protect_mboot after mbp
]
