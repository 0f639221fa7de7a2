-- ===== src/Symbols.antt =====
-- arch/X86_64/arch.c and stack.c: the tables of symbols that the boot loader left, and the name of the
-- function at an address, with the records of mutils/include/elf/elf.h.
pub mod Nearest
pub mod Tables
mod Tests
use Prim.Native.Nat.{bit_and}
use synos.Prelude.{
  ℕ, zero, suc, ◌+◌, ◌/◌, ◌%◌, ◌^◌, Option, none, some, Bool, true, false, ◌&&◌, ◌||◌, not, List,
  [], ◌∷◌, ltb, ◌==◌, if◌then◌else◌, sub64,
}

-- `struct ELF64_Shdr`, as far as it is read.
pub record Section : Type 0 where
  pub sh_type : ℕ
  pub sh_addr : ℕ
  pub sh_size : ℕ

-- A copied table: where it stands, its size, and where it was copied from.
pub record Table : Type 0 where
  pub address : ℕ
  pub size : ℕ
  pub copy_of : ℕ

-- `X64.symbols`
pub record Symbols : Type 0 where
  pub elf_sym : Table
  pub elf_str : Table

-- A null pointer.
abbrev pub no_table : Table
no_table = record { address = 0; size = 0; copy_of = 0 }

-- `kmalloc` and `memcpy`; `alloc` is what `kmalloc` returns at a turn of the loop for a size,
-- 0 for the null pointer. The size is kept in 32 bits.
unfoldable pub copy_table : (ℕ → ℕ → ℕ) → ℕ → Section → Table
copy_table alloc turn s =
    let size = s.sh_size % 2 ^ 32 in
    record { address = alloc turn size; size = size; copy_of = s.sh_addr }

-- One turn of the loop.
unfoldable pub take_section : (ℕ → ℕ → ℕ) → ℕ → Symbols → Section → Symbols
unfolding copy_table
take_section alloc turn t s =
    if t.elf_sym.address == 0 && s.sh_type == 2
    then record t { elf_sym = copy_table alloc turn s }
    else if t.elf_str.address == 0 && s.sh_type == 3
    then record t { elf_str = copy_table alloc turn s }
    else t

-- The sections from one on, which is met at turn `turn`.
unfoldable pub search_sections : (ℕ → ℕ → ℕ) → ℕ → Symbols → List Section → Symbols
unfolding take_section
search_sections alloc turn t [] = t
search_sections alloc turn t (s ∷ ss) =
    let rest = search_sections alloc (turn + 1) (take_section alloc turn t s) ss in
    if t.elf_sym.address == 0 || t.elf_str.address == 0 then rest else t

-- `held` is what was there before; without sections it stays.
unfoldable pub tab_search : (ℕ → ℕ → ℕ) → Symbols → List Section → Symbols
unfolding search_sections
tab_search alloc held [] = held
tab_search alloc held (null ∷ ss) =
    search_sections alloc 1 (record { elf_sym = no_table; elf_str = no_table }) ss

-- `struct ELF64_Sym`, as far as it is read.
pub record Symbol : Type 0 where
  pub st_name : ℕ
  pub st_info : ℕ
  pub st_value : ℕ

-- ELF64_ST_TYPE
abbrev pub st_type : Symbol → ℕ
st_type s = bit_and s.st_info 0xF

-- Neither STT_FUNC nor STT_NOTYPE.
abbrev pub other_type : Symbol → Bool
other_type s = not (st_type s == 2) && not (st_type s == 0)

-- The loop over the symbols behind the first one, with the symbol found so far and `currentSymDiff`.
-- The second test for the type, whose condition the first one has already met, is never reached.
unfoldable pub nearest : ℕ → Symbol → ℕ → List Symbol → Symbol
nearest address current diff [] = current
nearest address current diff (s ∷ ss) =
    let on = nearest address current diff ss in
    let closer = sub64 address s.st_value in
    let moved = if closer == 0 then s else nearest address s closer ss in
    if ltb address s.st_value || other_type s then on else if ltb closer diff then moved else on

-- The place of the name in the table of strings; `none` is the empty name.
unfoldable pub trace_name : ℕ → List Symbol → Option ℕ
unfolding nearest
trace_name address [] = none
trace_name address (s ∷ ss) = some (nearest address s (sub64 address s.st_value) ss).st_name
