-- ===== src/Page/Regions/Tests.antt =====
-- A list of regions for kernel/page.c.
use synos.Prelude.{◌*◌, true, false, ◌∷◌, [], some}
use synos.Page.State.{Region}
use synos.Page.Buddy.{free_block}
use synos.Page.Regions.{Regions, find_free_region}
use synos.Page.Regions.Search.{FreeFrom, find_free_region-FreeFrom}

-- A region with every page allocated that is marked full.
abbrev spent : Region
spent = record {
  start = 0x200000;
  size = 0x10000;
  attrib = 0x4B;
  pages_total = 16;
  pages_free = 0;
  mem_full = true;
  page_alloc_si = record {
    pages = 16;
    free_area_size = 32;
    free_area = λ o. o * 2;
    pages_free = λ _. 0;
    next_free_page = λ _. 0;
    table = λ _. 0xFF;
  };
  lock = 0;
}

-- Memory that firmware keeps.
abbrev reserved : Region
reserved = record spent { start = 0; attrib = 4; mem_full = false }

abbrev both : Regions
both = record { regions = reserved ∷ spent ∷ []; next_region = some 1; out_of_mem = false }

abbrev spent_less_one : Region
spent_less_one = record spent { page_alloc_si = free_block spent.page_alloc_si 0 5; pages_free = 1 }

find_free_region-FreeFrom_example : FreeFrom both.regions 0 (find_free_region both.regions 0)
find_free_region-FreeFrom_example = find_free_region-FreeFrom both.regions 0
