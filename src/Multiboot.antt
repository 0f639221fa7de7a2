-- ===== src/Multiboot.antt =====
-- arch/X86_64/multiboot.c: the list of regions that `mbootInit` makes from the memory map.
pub mod Init
pub mod Regions
mod Tests
use synos.Prelude.{ℕ, suc, ◌+◌, List, [], ◌∷◌, ◌==◌, if◌then◌else◌}
use synos.Page.State.{
  Region, mem_region_available, mem_region_read, mem_region_write, mem_region_bad,
  mem_region_preserve, mem_region_protected, mem_region_mapped,
}

-- An entry of the memory map.
pub record MmapEntry : Type 0 where
  pub addr : ℕ
  pub len : ℕ
  pub type : ℕ

-- The attributes for the type of an entry; another type leaves what the memory held.
unfoldable pub attrib_of : ℕ → ℕ → ℕ
attrib_of type held =
    if type == 1
    then mem_region_available + mem_region_mapped + mem_region_read + mem_region_write
    else if type == 2
    then mem_region_protected
    else if type == 3
    then mem_region_protected + mem_region_mapped + mem_region_read + mem_region_write
    else if type == 4
    then mem_region_preserve + mem_region_mapped + mem_region_read + mem_region_write
    else if type == 5
    then mem_region_bad + mem_region_mapped + mem_region_protected
    else held

-- A region in memory that holds `held` before it is set.
unfoldable pub region_of : Region → MmapEntry → Region
region_of held ent = record held {
  start = ent.addr;
  size = ent.len;
  attrib = attrib_of ent.type held.attrib;
  lock = 0;
}

-- The regions behind the first one, which is allocated even for a memory map without entries.
unfoldable pub regions_of : Region → List MmapEntry → List Region
unfolding region_of
regions_of held [] = []
regions_of held (ent ∷ ents) = region_of held ent ∷ regions_of held ents

unfoldable pub mmap_regions : Region → List MmapEntry → List Region
unfolding regions_of
mmap_regions held [] = record held { lock = 0 } ∷ []
mmap_regions held (ent ∷ ents) = regions_of held (ent ∷ ents)

-- `chain_length` of the first region.
unfoldable pub chain_length : List MmapEntry → ℕ
chain_length [] = 0
chain_length (ent ∷ ents) = suc (chain_length ents)
