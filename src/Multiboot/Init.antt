-- ===== src/Multiboot/Init.antt =====
-- arch/X86_64/multiboot.c: `mbootInit`, with `struct BootInfo` of arch/X86_64/x64.h and the part of the
-- boot information that is read.
use Prim.Native.Nat.{bit_and}
use synos.Prelude.{
  ℕ, zero, suc, add64, Bool, true, false, Option, none, some, List, [], ◌∷◌, ◌==◌, if◌then◌else◌,
}
use synos.Page.State.{Region}
use synos.Symbols.{Section, Symbols, no_table, tab_search}
use synos.Multiboot.{MmapEntry, mmap_regions, chain_length}

-- `enum FRAMEBUFFER_TYPE`
pub data FramebufferType : Type 0 where
  ega_text : FramebufferType
  indexed_color : FramebufferType
  direct_rgb : FramebufferType
  framebuffer_type_length : FramebufferType

-- The sections and the memory map are lists.
pub record MbootInfo : Type 0 where
  pub flags : ℕ
  pub elf_sec : List Section
  pub mmap : List MmapEntry
  pub framebuffer_type : ℕ
  pub framebuffer_addr : ℕ
  pub framebuffer_width : ℕ
  pub framebuffer_height : ℕ

pub record Framebuffer : Type 0 where
  pub type : FramebufferType
  pub address : ℕ
  pub width : ℕ
  pub height : ℕ

-- The regions and the `chain_length` of the first one.
pub record BootInfo : Type 0 where
  pub symbols : Symbols
  pub sections : List Section
  pub framebuffer : Framebuffer
  pub mmap : Option (List Region × ℕ)

unfoldable pub framebuffer_type_of : ℕ → FramebufferType
framebuffer_type_of type =
    if type == 2
    then ega_text
    else if type == 0
    then indexed_color
    else if type == 1
    then direct_rgb
    else framebuffer_type_length

-- Whether a flag of the boot information is set.
abbrev pub has_flag : MbootInfo → ℕ → Bool
has_flag info flag = if bit_and info.flags flag == 0 then false else true

unfoldable pub init_sections : (ℕ → ℕ → ℕ) → MbootInfo → BootInfo → BootInfo
init_sections alloc info b =
    if has_flag info 0x20
    then record b { sections = info.elf_sec; symbols = tab_search alloc b.symbols info.elf_sec }
    else record b { sections = []; symbols = record { elf_sym = no_table; elf_str = no_table } }

-- `held` is what the memory of a new region holds.
unfoldable pub init_mmap : Region → MbootInfo → BootInfo → BootInfo
init_mmap held info b =
    if has_flag info 0x40
    then record b { mmap = some (mmap_regions held info.mmap, chain_length info.mmap) }
    else record b { mmap = none }

unfoldable pub init_framebuffer : MbootInfo → BootInfo → BootInfo
unfolding framebuffer_type_of
init_framebuffer info b =
    if has_flag info 0x1000
    then record b {
      framebuffer = record {
        type = framebuffer_type_of info.framebuffer_type;
        address = info.framebuffer_addr;
        width = info.framebuffer_width;
        height = info.framebuffer_height;
      };
    }
    else record b { framebuffer = record b.framebuffer { type = framebuffer_type_length } }

-- `none`: the panic on another magic number. `load_sys` is set to the only value that it has.
unfoldable pub mboot_init : (ℕ → ℕ → ℕ) → Region → ℕ → MbootInfo → BootInfo → Option BootInfo
unfolding init_sections init_mmap init_framebuffer
mboot_init alloc held mbm info b =
    if mbm == 0x2BADB002
    then some (init_framebuffer info (init_mmap held info (init_sections alloc info b)))
    else none

-- `struct MEMID`
pub record MemId : Type 0 where
  pub enabled : Bool
  pub n_entries : ℕ
  pub total_size : ℕ

-- The sizes of `n` regions, added up in 64 bits; `none`: the list ends before.
unfoldable pub sizes : ℕ → List Region → ℕ → Option ℕ
sizes zero rs total = some total
sizes (suc n) [] total = none
sizes (suc n) (r ∷ rs) total = sizes n rs (add64 total r.size)

-- `getMEMID`, which does not set `enabled`; `none`: it reads through the null pointer.
unfoldable pub get_memid : BootInfo → MemId → Option MemId
unfolding sizes
get_memid b mem = elim b.mmap [
  | none ↦ some (record mem { enabled = false })
  | some (regions, length) ↦ elim (sizes length regions 0) [
    | none ↦ none
    | some total ↦ some (record mem { n_entries = length; total_size = total })
  ]
]
