-- ===== src/Multiboot/Tests.antt =====
-- The theorem on `mbootInit` applied to a memory map of two entries.
use synos.Prelude.{◌%◌, ◌^◌, ◌≡◌, refl, false, List, [], ◌∷◌, none, some}
use synos.Page.State.{Region}
use synos.Symbols.{no_table}
use synos.Multiboot.{MmapEntry, chain_length}
use synos.Multiboot.Init.{
  MbootInfo, BootInfo, MemId, framebuffer_type_length, mboot_init, get_memid,
}
use synos.Multiboot.Regions.{sum_of, get_memid-mboot_init}

abbrev held : Region
held = record {
  start = 0;
  size = 0;
  attrib = 0;
  pages_total = 0;
  pages_free = 0;
  mem_full = false;
  page_alloc_si = record {
    pages = 0;
    free_area_size = 0;
    free_area = λ i. 0;
    pages_free = λ i. 0;
    next_free_page = λ i. 0;
    table = λ i. 0;
  };
  lock = 0;
}

abbrev two_entries : List MmapEntry
two_entries =
    record { addr = 0; len = 0x9FC00; type = 1 }
    ∷ record { addr = 0x100000; len = 0x7EE0000; type = 1 }
    ∷ []

abbrev info : MbootInfo
info = record {
  flags = 0x40;
  elf_sec = [];
  mmap = two_entries;
  framebuffer_type = 0;
  framebuffer_addr = 0;
  framebuffer_width = 0;
  framebuffer_height = 0;
}

abbrev blank : BootInfo
blank = record {
  symbols = record { elf_sym = no_table; elf_str = no_table };
  sections = [];
  framebuffer = record { type = framebuffer_type_length; address = 0; width = 0; height = 0 };
  mmap = none;
}

abbrev unset : MemId
unset = record { enabled = false; n_entries = 0; total_size = 0 }

get_memid-mboot_init_example :
    (after : BootInfo) × (mboot_init (λ turn size. 0x180000) held 0x2BADB002 info blank
      ≡ some after)
    × (get_memid after unset
        ≡ some (record unset {
          n_entries = chain_length two_entries;
          total_size = sum_of two_entries % 2 ^ 64;
        }))
get_memid-mboot_init_example =
    get_memid-mboot_init (λ turn size. 0x180000) held info blank unset refl
