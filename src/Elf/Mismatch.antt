-- ===== src/Elf/Mismatch.antt =====
-- mutils/elf/header.c: what `ParseELF_HEADER` makes of a file in the other byte order.
use synos.Prelude.{ℕ, ◌+◌, ◌^◌, ◌<◌, ◌≡◌, refl, arith, true, some}
use synos.Memory.{load, load16, load64}
use synos.Elf.{
  ElfHeader, file_is_elf, endian_mismatch, is_class64, read_header, swap_header, parse_elf_header,
}
use synos.Elf.Swap.{
  load_big, swap_uintptr-load_big, swap_uint16-load_big, swap_uint16-swap_uint16,
  swap_uintptr-swap_uintptr,
}

-- The header of a 64-bit file in the other byte order.
pub record Mismatched (memory : ℕ → ℕ) (file : ℕ) (hdr : ElfHeader) : Type 0 where
  -- The fields that come out right.
  pub e_type : hdr.e_type ≡ load_big 2 memory (file + 0x10)
  pub e_entry : hdr.e_entry ≡ load_big 8 memory (file + 0x18)
  pub e_phoff : hdr.e_phoff ≡ load_big 8 memory (file + 0x20)
  pub e_phnum : hdr.e_phnum ≡ load_big 2 memory (file + 0x38)
  pub e_shnum : hdr.e_shnum ≡ load_big 2 memory (file + 0x3C)
  -- The machine as a little-endian word, and the place of the section headers as the little-endian
  -- word of the place of the program headers.
  pub e_machine : hdr.e_machine ≡ load16 memory (file + 0x12)
  pub e_shoff : hdr.e_shoff ≡ load64 memory (file + 0x20)

load64-lt : (memory : ℕ → ℕ) (p : ℕ) → load64 memory p < 2 ^ 64
unfolding load
load64-lt memory p = omega arith

swap_header-Mismatched :
    (memory : ℕ → ℕ) (file : ℕ)
    → is_class64 memory file ≡ true
    → Mismatched memory file (swap_header (read_header memory file))
unfolding swap_header read_header
swap_header-Mismatched memory file wide = record {
  e_type = swap_uint16-load_big memory (file + 0x10);
  e_entry = swap_uintptr-load_big memory (file + 0x18);
  e_phoff = rw wide (swap_uintptr-load_big memory (file + 0x20));
  e_phnum = rw wide (swap_uint16-load_big memory (file + 0x38));
  e_shnum = rw wide (swap_uint16-load_big memory (file + 0x3C));
  e_machine = swap_uint16-swap_uint16 memory (file + 0x12);
  e_shoff =
      rw wide
        (swap_uintptr-swap_uintptr (load64 memory (file + 0x20)) (load64-lt memory (file + 0x20)));
}

-- A 64-bit ELF file in the other byte order than the processor's is parsed. Its type, entry, place of
-- the program headers and numbers of headers come out as the big-endian words of the file, but
-- `e_machine` is the little-endian word, and `e_shoff` is the little-endian word at the place of
-- `e_phoff` and does not depend on the `e_shoff` of the file.
pub parse_elf_header-Mismatched :
    (memory : ℕ → ℕ) (file : ℕ)
    → file_is_elf memory file ≡ true
    → is_class64 memory file ≡ true
    → endian_mismatch memory file ≡ true
    → (hdr : ElfHeader) × (parse_elf_header memory file ≡ some hdr) × Mismatched memory file hdr
unfolding parse_elf_header
parse_elf_header-Mismatched memory file elf wide other = (
  swap_header (read_header memory file),
  rw (elf, other) refl,
  swap_header-Mismatched memory file wide,
)
