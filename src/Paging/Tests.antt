-- ===== src/Paging/Tests.antt =====
-- The theorems on virtual pages, applied where the upper tables are there and no page is mapped yet.
use synos.Prelude.{
  zero, suc, ◌<◌, ℕ, ◌≡◌, ◌==◌, true, refl, false, ltb, if◌then◌else◌, update, none, some, [],
  arith,
}
use synos.Page.Regions.{Ending, returns}
use synos.Paging.{
  pga_ispresent, page_ispresent, present_down, get_table_address, add_indices, sign_extend,
  pga_unmap,
}
use synos.Paging.{Write}
use synos.Paging.Table.{pga_map, map_pages, next_entry, entry_flags}
use synos.Paging.Virtual.{
  Virtual, fnfp, move_next, vpage_map, vpages_map, vpages_smap, vpage_smap, find_place, all_absent,
  after_map,
}
use synos.Paging.Unmap.{Unmapped, pga_unmap-Unmapped}
use synos.Paging.Places.{page_at, fnfp-IsFirst, vpages_map-absent}
use synos.Paging.Overwrite.{ReadsBack, entry_of, vpage_map-vpage_smap}

-- The entries of the lowest tables are 0, those above them present.
abbrev tables : ℕ → ℕ
tables a = if ltb a 0xFFFFFFFFC0000000 then 0 else 3

abbrev plain : Write
plain = update

abbrev nothing_mapped : Virtual
nothing_mapped = record {
  memory = record {
    words = tables;
    regions = record { regions = []; next_region = none; out_of_mem = false };
  };
  next_free_vpage = 0x100000;
}

abbrev result : Ending (ℕ × Virtual) → Virtual
result (returns (addr, v)) = v
result _ = nothing_mapped

absent_here : pga_ispresent tables 0x100000 ≡ false
unfolding pga_ispresent page_ispresent present_down get_table_address add_indices sign_extend
absent_here = refl

two_mapped :
    vpages_map 4 plain 0x400000 1 0 nothing_mapped
    ≡ returns (0x100000, result (vpages_map 4 plain 0x400000 1 0 nothing_mapped))
unfolding vpages_map find_place all_absent pga_ispresent page_ispresent present_down
    get_table_address add_indices sign_extend pga_map map_pages entry_flags next_entry after_map
    move_next fnfp
two_mapped = refl

vpages_map-absent_example : pga_ispresent tables (page_at 0x100000 1) ≡ false
vpages_map-absent_example =
    vpages_map-absent 4 plain 0x400000 1 0 0x100000 nothing_mapped
      (result (vpages_map 4 plain 0x400000 1 0 nothing_mapped)) two_mapped (λ e. omega (arith, e)) 1
      (omega arith)

abbrev mapped : Virtual
mapped = result (vpage_smap plain 0x400000 0x100000 0 nothing_mapped)

mapped_eq : vpage_smap plain 0x400000 0x100000 0 nothing_mapped ≡ returns (0x100000, mapped)
unfolding vpage_smap vpages_smap page_ispresent present_down get_table_address add_indices
    sign_extend pga_map map_pages entry_flags next_entry
mapped_eq = refl

-- The page that was mapped, and the one behind it.
first_present : pga_ispresent mapped.memory.words (page_at 0x100000 0) ≡ true
unfolding pga_ispresent page_ispresent present_down get_table_address add_indices sign_extend
    vpage_smap vpages_smap pga_map map_pages entry_flags next_entry
first_present = refl

second_absent : pga_ispresent mapped.memory.words (page_at 0x100000 1) ≡ false
unfolding pga_ispresent page_ispresent present_down get_table_address add_indices sign_extend
    vpage_smap vpages_smap pga_map map_pages entry_flags next_entry
second_absent = refl

present_before : (j : ℕ) → j < 1 → pga_ispresent mapped.memory.words (page_at 0x100000 j) ≡ true
present_before zero lt = first_present
present_before (suc j) lt = absurd (omega arith)

fnfp-IsFirst_example : fnfp 3 mapped.memory.words 0x100000 ≡ some (page_at 0x100000 1)
fnfp-IsFirst_example =
    fnfp-IsFirst 3 mapped.memory.words 0x100000 1 (omega arith) (omega arith) present_before
      second_absent

again_eq :
    vpage_map 4 plain 0x800000 0 mapped
    ≡ returns (0x100000, result (vpage_map 4 plain 0x800000 0 mapped))
unfolding vpage_smap vpages_smap vpage_map pga_ispresent page_ispresent present_down
    get_table_address add_indices sign_extend pga_map map_pages entry_flags next_entry move_next
    fnfp
again_eq = refl

plain-ReadsBack : ReadsBack plain
plain-ReadsBack words v entry out =
    let self : (get_table_address v 1 == get_table_address v 1) ≡ true = ground arith in
    rw self refl

vpage_map-vpage_smap_example :
    (0x100000 ≡ nothing_mapped.next_free_vpage)
    × (entry_of mapped nothing_mapped.next_free_vpage ≡ next_entry 0x400000 0 (entry_flags 0))
    × (entry_of (result (vpage_map 4 plain 0x800000 0 mapped)) nothing_mapped.next_free_vpage
        ≡ next_entry 0x800000 0 (entry_flags 0))
vpage_map-vpage_smap_example =
    vpage_map-vpage_smap plain plain-ReadsBack 4 0x400000 0x800000 0 0 0x100000 0x100000
      nothing_mapped mapped (result (vpage_map 4 plain 0x800000 0 mapped)) (omega arith)
      (omega arith) mapped_eq again_eq

pga_unmap-Unmapped_example :
    Unmapped mapped.memory.words 0x100000 1 (pga_unmap plain mapped.memory.words 0x100000 1)
pga_unmap-Unmapped_example =
    pga_unmap-Unmapped plain (λ words v w level out out' low high. refl) mapped.memory.words
      0x100000 1 (omega arith) (omega arith) (λ k lt. omega arith)
