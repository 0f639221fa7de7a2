-- ===== src/Paging/Setup.antt =====
-- kernel/page.c: `ppage_init`, which sets up the maps of all regions.
use synos.Prelude.{
  ℕ, zero, suc, ◌+◌, ◌-◌, ◌*◌, ◌/◌, ◌||◌, true, false, ltb, ◌==◌, if◌then◌else◌, Option, none, some,
  List,
}
use synos.Page.Order.{page_size, log_order}
use synos.Page.State.{Region}
use synos.Page.Buddy.{pages_alloc}
use synos.Page.Map.{region_map}
use synos.Page.Regions.{
  Regions, Ending, returns, hangs, faults, region_at, put_region, count, find_next_region,
  find_free_region, with_next,
}
use synos.Paging.{mem_p_protect}
use synos.Paging.{Write}
use synos.Paging.Virtual.{Virtual, vpages_map}

-- TOTAL_PAGE_TABLE_SIZE
abbrev pub total_page_table_size : ℕ → ℕ
total_page_table_size total = total / page_size * 2 / 8

-- The loop from `regup`: the first usable region from a position on that is large enough and not in
-- the low memory. Each turn moves on by a region. `none`: the panic "No available memory to allocate
-- initial memory tables!".
unfoldable pub choose_region : ℕ → List Region → ℕ → ℕ → Option ℕ
choose_region zero regions total start = none
choose_region (suc turns) regions total start = elim (find_next_region regions start) [
  | none ↦ none
  | some i ↦ elim (region_at regions i) [
    | none ↦ none
    | some r ↦
        let rest = choose_region turns regions total (i + 1) in
        if ltb r.size (total_page_table_size total) || ltb r.start 0x100000 then rest else some i
  ]
]

-- What goes on after a step that returns.
unfoldable pub and_then : Ending Virtual → (Virtual → Ending Virtual) → Ending Virtual
and_then (returns v) f = f v
and_then hangs f = hangs
and_then faults f = faults

abbrev pub put_at : Virtual → ℕ → Region → Virtual
put_at v i r =
    let old = v.memory.regions in
    record v {
      memory = record v.memory { regions = record old { regions = put_region old.regions i r } };
    }

-- `region_map` and `mem_p_protect` of region `i`; `mbp` is the address of the boot information, and
-- `table` what the memory for the bitmaps holds.
unfoldable pub set_up_region : ℕ → (ℕ → ℕ) → ℕ → Virtual → Ending Virtual
set_up_region mbp table i v = elim (region_at v.memory.regions.regions i) [
  | none ↦ faults
  | some r ↦ elim (region_map r (r.size / page_size) table) [
    | none ↦ hangs
    | some mapped ↦ elim (mem_p_protect mapped mbp) [
      | none ↦ hangs
      | some protected ↦ returns (put_at v i protected)
    ]
  ]
]

-- `pages_alloc(alloc_region, order)`
unfoldable pub alloc_from : ℕ → ℕ → Virtual → Ending (ℕ × Virtual)
alloc_from alloc_region order v = elim (region_at v.memory.regions.regions alloc_region) [
  | none ↦ faults
  | some r ↦ elim (pages_alloc r order) [
    | none ↦ hangs
    | some (addr, r') ↦ returns (addr, put_at v alloc_region r')
  ]
]

-- The pages for the bitmaps of a region of `pages` pages.
abbrev pub table_order : ℕ → ℕ
table_order pages = log_order (((pages * 2 + 7) / 8 + (page_size - 1)) / page_size)

-- The pages for a superblock of 256 bytes.
abbrev pub superblock_order : ℕ
superblock_order = log_order ((256 + (page_size - 1)) / page_size)

-- The pages of the superblock and of the bitmaps, and their mappings, whose addresses are not checked.
unfoldable pub alloc_tables : ℕ → Write → ℕ → ℕ → Virtual → Ending Virtual
unfolding alloc_from
alloc_tables turns write alloc_region pages v = elim (alloc_from alloc_region superblock_order v) [
  | returns (pa_sb, v1) ↦ elim (alloc_from alloc_region (table_order pages) v1) [
    | returns (pa_tbl, v2) ↦ elim (vpages_map turns write pa_tbl (table_order pages) 0 v2) [
      | returns (regst, v3) ↦ elim (vpages_map turns write pa_sb superblock_order 0 v3) [
        | returns (regsb, v4) ↦ returns v4
        | hangs ↦ hangs
        | faults ↦ faults
      ]
      | hangs ↦ hangs
      | faults ↦ faults
    ]
    | hangs ↦ hangs
    | faults ↦ faults
  ]
  | hangs ↦ hangs
  | faults ↦ faults
]

-- One turn of the loop over the regions.
unfoldable pub set_up_other : ℕ → Write → ℕ → (ℕ → ℕ) → ℕ → ℕ → Virtual → Ending Virtual
unfolding and_then set_up_region alloc_tables
set_up_other turns write mbp table alloc_region i v = elim (region_at v.memory.regions.regions i) [
  | none ↦ faults
  | some r ↦
      let pages = r.size / page_size in
      if i == alloc_region
      then returns v
      else if pages == 0
      then returns (put_at v i (record r { mem_full = true }))
      else and_then (alloc_tables turns write alloc_region pages v) (set_up_region mbp table i)
]

-- The regions from position `i` on, `n` of them; `tables` is what the memory for each holds.
unfoldable pub set_up_others : ℕ → ℕ → Write → ℕ → (ℕ → ℕ → ℕ) → ℕ → ℕ → Virtual → Ending Virtual
unfolding set_up_other and_then
set_up_others zero turns write mbp tables alloc_region i v = returns v
set_up_others (suc n) turns write mbp tables alloc_region i v =
    and_then (set_up_other turns write mbp (tables i) alloc_region i v)
      (λ v'. set_up_others n turns write mbp tables alloc_region (i + 1) v')

abbrev pub change_regions : (Regions → Regions) → Virtual → Virtual
change_regions f v = record v { memory = record v.memory { regions = f v.memory.regions } }

-- `ppage_init`; `total` is the size of all memory, and the two calls of `kmalloc` are taken to
-- succeed. `none`: no region can be chosen.
unfoldable pub ppage_init : ℕ → Write → ℕ → (ℕ → ℕ → ℕ) → ℕ → Virtual → Option (Ending Virtual)
unfolding choose_region set_up_region set_up_others and_then
ppage_init turns write mbp tables total v =
    let start = change_regions (λ m. record m { out_of_mem = false }) v in
    let regions = v.memory.regions.regions in
    elim (choose_region (suc (count regions)) regions total 0) [
      | none ↦ none
      | some chosen ↦
          let first = set_up_region mbp (tables chosen) chosen start in
          some (
            and_then first (λ v1.
              and_then
                (set_up_others (count regions) turns write mbp tables chosen 0
                  (change_regions (λ m. record m { next_region = some chosen }) v1))
                (λ v2.
                  returns (change_regions (λ m. with_next m (find_free_region m.regions 0)) v2))))
    ]
