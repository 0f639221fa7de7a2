-- ===== src/Paging/Virtual.antt =====
-- kernel/page.c: virtual pages. A search for a free page goes on until it finds one; it is given a
-- number of turns, and `none` means that they were not enough.
use Prim.Native.Nat.{bit_or}
use synos.Prelude.{
  ℕ, zero, suc, ◌+◌, ◌-◌, ◌*◌, ◌^◌, Bool, true, ◌&&◌, not, ltb, ◌==◌, if◌then◌else◌, add64, Option,
  none, some,
}
use synos.Page.Order.{page_size, block_order_size}
use synos.Page.Regions.{Ending, returns, hangs, faults}
use synos.Paging.{pga_ispresent, pga_unmap}
use synos.Paging.{Write}
use synos.Paging.Table.{Memory, pga_map, vpage_not_writable, vpage_no_execute}

unfoldable pub fnfp : ℕ → (ℕ → ℕ) → ℕ → Option ℕ
fnfp zero words addr = none
fnfp (suc turns) words addr =
    let rest = fnfp turns words (add64 addr page_size) in
    if pga_ispresent words addr then rest else some addr

-- The memory and `next_free_vpage`.
pub record Virtual : Type 0 where
  pub memory : Memory
  pub next_free_vpage : ℕ

-- `next_free_vpage = fnfp(from)`, and the address that is returned.
unfoldable pub move_next : ℕ → ℕ → ℕ → Memory → Ending (ℕ × Virtual)
unfolding fnfp
move_next turns from addr m = elim (fnfp turns m.words from) [
  | none ↦ hangs
  | some next ↦ returns (addr, record { memory = m; next_free_vpage = next })
]

unfoldable pub vpage_map : ℕ → Write → ℕ → ℕ → Virtual → Ending (ℕ × Virtual)
unfolding pga_map move_next
vpage_map turns write paddress flags v =
    elim (pga_map write v.next_free_vpage paddress 0 flags v.memory) [
      | returns m ↦ move_next turns v.next_free_vpage v.next_free_vpage m
      | hangs ↦ hangs
      | faults ↦ faults
    ]

-- Whether none of `n` pages from `pgs` on is present.
unfoldable pub all_absent : ℕ → (ℕ → ℕ) → ℕ → Bool
all_absent zero words pgs = true
all_absent (suc n) words pgs =
    not (pga_ispresent words pgs) && all_absent n words (add64 pgs page_size)

-- The first place from `start` on with enough absent pages; `some none`: the addresses have run out.
unfoldable pub find_place : ℕ → (ℕ → ℕ) → ℕ → ℕ → Option (Option ℕ)
unfolding all_absent
find_place zero words start order = none
find_place (suc turns) words start order =
    let rest = find_place turns words (add64 start page_size) order in
    if not (ltb start (2 ^ 64 - 1))
    then some none
    else if all_absent (2 ^ order) words start
    then some (some start)
    else rest

-- What follows the mapping at `start`.
unfoldable pub after_map : ℕ → ℕ → ℕ → Virtual → Memory → Ending (ℕ × Virtual)
unfolding move_next
after_map turns start order v m =
    let moved = move_next turns (add64 v.next_free_vpage (block_order_size order)) start m in
    if start == v.next_free_vpage then moved else returns (start, record v { memory = m })

unfoldable pub vpages_map : ℕ → Write → ℕ → ℕ → ℕ → Virtual → Ending (ℕ × Virtual)
unfolding find_place pga_map after_map
vpages_map turns write paddress order flags v =
    elim (find_place turns v.memory.words v.next_free_vpage order) [
      | none ↦ hangs
      | some none ↦ returns (0, v)
      | some (some start) ↦ elim (pga_map write start paddress order flags v.memory) [
        | returns m ↦ after_map turns start order v m
        | hangs ↦ hangs
        | faults ↦ faults
      ]
    ]

-- `vpages_smap`, and `vpage_smap` with order 0.
unfoldable pub vpages_smap : Write → ℕ → ℕ → ℕ → ℕ → Virtual → Ending (ℕ × Virtual)
unfolding pga_map
vpages_smap write paddress vaddress order flags v =
    elim (pga_map write vaddress paddress order flags v.memory) [
      | returns m ↦ returns (vaddress, record v { memory = m })
      | hangs ↦ hangs
      | faults ↦ faults
    ]

unfoldable pub vpage_smap : Write → ℕ → ℕ → ℕ → Virtual → Ending (ℕ × Virtual)
unfolding vpages_smap
vpage_smap write paddress vaddress flags v = vpages_smap write paddress vaddress 0 flags v

unfoldable pub vpages_reserve : Write → ℕ → ℕ → Virtual → Ending (ℕ × Virtual)
unfolding vpages_smap
vpages_reserve write vaddress order v = vpages_smap write 0 vaddress order vpage_not_writable v

unfoldable pub vpages_unmap : Write → ℕ → ℕ → Virtual → Virtual
vpages_unmap write vaddress order v = record v {
  memory = record v.memory { words = pga_unmap write v.memory.words vaddress order };
}

unfoldable pub vpage_unmap : Write → ℕ → Virtual → Virtual
unfolding vpages_unmap
vpage_unmap write vaddress v = vpages_unmap write vaddress 0 v

-- `pga_init` and `vpage_init`: the top table at `pml4` is mapped to itself, and page 0 for reading.
unfoldable pub vpage_init : ℕ → Write → ℕ → Memory → Ending Virtual
unfolding pga_map fnfp
vpage_init turns write pml4 m =
    let own : Memory = record m { words = write m.words (add64 pml4 (8 * 511)) (bit_or pml4 3) } in
    elim (pga_map write 0 0 0 (vpage_not_writable + vpage_no_execute) own) [
      | returns m' ↦ elim (fnfp turns m'.words 0x100000) [
        | none ↦ hangs
        | some next ↦ returns (record { memory = m'; next_free_vpage = next })
      ]
      | hangs ↦ hangs
      | faults ↦ faults
    ]
