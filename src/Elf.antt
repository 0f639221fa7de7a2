-- ===== src/Elf.antt =====
-- mutils/elf/header.c and mutils/elf/elf.c, with the structs of mutils/include/elf/elf.h.
mod Tests
pub mod Swap
pub mod Mismatch
use Prim.Native.Nat.{bit_and, bit_or}
use synos.Prelude.{
  ℕ, zero, suc, ◌+◌, ◌-◌, ◌*◌, ◌/◌, ◌%◌, ◌^◌, Bool, ◌&&◌, ◌||◌, not, Option, none, some, List, [],
  ◌∷◌, ◌==◌, if◌then◌else◌, update, add64,
}
use synos.Memory.{load8, load16, load32, load64}

-- `struct ELF_HEADER`. `header_length` is never set.
pub record ElfHeader : Type 0 where
  pub header : ℕ
  pub e_ident : ℕ
  pub e_type : ℕ
  pub e_machine : ℕ
  pub e_version : ℕ
  pub e_entry : ℕ
  pub e_phoff : ℕ
  pub e_shoff : ℕ
  pub e_flags : ℕ
  pub e_ehsize : ℕ
  pub e_phentsize : ℕ
  pub e_phnum : ℕ
  pub e_shentsize : ℕ
  pub e_shnum : ℕ
  pub e_shstrndx : ℕ

-- `struct ELF_PROGRAM_HEADER`
pub record ElfProgramHeader : Type 0 where
  pub header : ℕ
  pub header_length : ℕ
  pub p_type : ℕ
  pub p_flags : ℕ
  pub p_offset : ℕ
  pub p_vaddr : ℕ
  pub p_paddr : ℕ
  pub p_filesz : ℕ
  pub p_memsz : ℕ
  pub p_align : ℕ

-- `struct ELF_SECTION_HEADER`
pub record ElfSectionHeader : Type 0 where
  pub sh_name : ℕ
  pub sh_type : ℕ
  pub sh_flags : ℕ
  pub sh_addr : ℕ
  pub sh_offset : ℕ
  pub sh_size : ℕ
  pub sh_link : ℕ
  pub sh_info : ℕ
  pub sh_addralign : ℕ
  pub sh_entsize : ℕ

unfoldable pub file_is_elf : (ℕ → ℕ) → ℕ → Bool
file_is_elf memory file =
    load8 memory file == 0x7F
    && load8 memory (file + 1) == 0x45
    && load8 memory (file + 2) == 0x4C
    && load8 memory (file + 3) == 0x46

unfoldable pub swap_uint16 : ℕ → ℕ
swap_uint16 val = bit_or (val * 2 ^ 8) (val / 2 ^ 8) % 2 ^ 16

unfoldable pub swap_uint32 : ℕ → ℕ
swap_uint32 val =
    let val' = bit_or (bit_and (val * 2 ^ 8) 0xFF00FF00) (bit_and (val / 2 ^ 8) 0xFF00FF) in
    bit_or (val' * 2 ^ 16 % 2 ^ 32) (val' / 2 ^ 16)

-- Byte `i` of a word.
abbrev pub byte_of : ℕ → ℕ → ℕ
byte_of val i = val / 256 ^ i % 256

-- The loop, whose `i` goes down to 0, on the bytes of `retVal`.
unfoldable pub swap_loop : ℕ → ℕ → (ℕ → ℕ) → ℕ → ℕ
swap_loop zero val bytes = bytes
swap_loop (suc i) val bytes = swap_loop i val (update bytes (7 - i) (byte_of val i))

-- All eight bytes of `retVal` are written, so that its first value does not matter.
unfoldable pub swap_uintptr : ℕ → ℕ
unfolding swap_loop
swap_uintptr val = load64 (swap_loop 8 val (λ _. 0)) 0

-- The processor is little-endian: the file is in the other byte order if EI_DATA is 2.
abbrev pub endian_mismatch : (ℕ → ℕ) → ℕ → Bool
endian_mismatch memory e_ident = load8 memory (e_ident + 5) == 2

-- EI_CLASS is 2.
abbrev pub is_class64 : (ℕ → ℕ) → ℕ → Bool
is_class64 memory e_ident = load8 memory (e_ident + 4) == 2

-- The fields as they stand in the file.
unfoldable pub read_header : (ℕ → ℕ) → ℕ → ElfHeader
read_header memory header =
    let e_flags_start = if is_class64 memory header then 0x30 else 0x24 in
    record {
      header = header;
      e_ident = header;
      e_type = load16 memory (header + 0x10);
      e_machine = load16 memory (header + 0x12);
      e_version = load32 memory (header + 0x14);
      e_entry = load64 memory (header + 0x18);
      e_phoff = load64 memory (if is_class64 memory header then header + 0x20 else header + 0x1C);
      e_shoff = load64 memory (if is_class64 memory header then header + 0x28 else header + 0x20);
      e_flags = load32 memory (header + e_flags_start);
      e_ehsize = load16 memory (header + (e_flags_start + 4));
      e_phentsize = load16 memory (header + (e_flags_start + 6));
      e_phnum = load16 memory (header + (e_flags_start + 8));
      e_shentsize = load16 memory (header + (e_flags_start + 10));
      e_shnum = load16 memory (header + (e_flags_start + 12));
      e_shstrndx = load16 memory (header + (e_flags_start + 14));
    }

-- The assignments for a file in the other byte order: `e_machine` is swapped twice, and `e_shoff` is
-- computed from the `e_phoff` that has been swapped just before.
unfoldable pub swap_header : ElfHeader → ElfHeader
swap_header hdr = record hdr {
  e_type = swap_uint16 hdr.e_type;
  e_machine = swap_uint16 (swap_uint16 hdr.e_machine);
  e_version = swap_uint32 hdr.e_version;
  e_entry = swap_uintptr hdr.e_entry;
  e_phoff = swap_uintptr hdr.e_phoff;
  e_shoff = swap_uintptr (swap_uintptr hdr.e_phoff);
  e_flags = swap_uint32 hdr.e_flags;
  e_ehsize = swap_uint16 hdr.e_ehsize;
  e_phentsize = swap_uint16 hdr.e_phentsize;
  e_phnum = swap_uint16 hdr.e_phnum;
  e_shentsize = swap_uint16 hdr.e_shentsize;
  e_shnum = swap_uint16 hdr.e_shnum;
  e_shstrndx = swap_uint16 hdr.e_shstrndx;
}

-- The allocation of the result is taken to succeed: its pointer is not checked.
unfoldable pub parse_elf_header : (ℕ → ℕ) → ℕ → Option ElfHeader
parse_elf_header memory header =
    let hdr = read_header memory header in
    if not (file_is_elf memory header)
    then none
    else some (if endian_mismatch memory header then swap_header hdr else hdr)

unfoldable pub read_program_header : (ℕ → ℕ) → Bool → ℕ → ElfProgramHeader
read_program_header memory wide ent = record {
  header = ent;
  header_length = if wide then 0x38 else 0x20;
  p_type = load32 memory ent;
  p_flags = load32 memory (if wide then ent + 0x04 else ent + 0x18);
  p_offset = load64 memory (if wide then ent + 0x08 else ent + 0x04);
  p_vaddr = load64 memory (if wide then ent + 0x10 else ent + 0x08);
  p_paddr = load64 memory (if wide then ent + 0x18 else ent + 0x0C);
  p_filesz = load64 memory (if wide then ent + 0x20 else ent + 0x10);
  p_memsz = load64 memory (if wide then ent + 0x28 else ent + 0x14);
  p_align = load64 memory (if wide then ent + 0x30 else ent + 0x1C);
}

unfoldable pub swap_program_header : ElfProgramHeader → ElfProgramHeader
swap_program_header hdr = record hdr {
  p_type = swap_uint32 hdr.p_type;
  p_flags = swap_uint32 hdr.p_flags;
  p_offset = swap_uintptr hdr.p_offset;
  p_vaddr = swap_uintptr hdr.p_vaddr;
  p_paddr = swap_uintptr hdr.p_paddr;
  p_filesz = swap_uintptr hdr.p_filesz;
  p_memsz = swap_uintptr hdr.p_memsz;
  p_align = swap_uintptr hdr.p_align;
}

-- The loop over the entries; `n` entries are left, and `ent` points to the first of them.
unfoldable pub parse_program_headers : (ℕ → ℕ) → ElfHeader → ℕ → ℕ → List ElfProgramHeader
parse_program_headers memory hdr zero ent = []
parse_program_headers memory hdr (suc n) ent =
    let wide = is_class64 memory hdr.e_ident in
    let prg = read_program_header memory wide ent in
    (if endian_mismatch memory hdr.e_ident then swap_program_header prg else prg)
    ∷ parse_program_headers memory hdr n (ent + (if wide then 0x38 else 0x20))

unfoldable pub parse_elf_prg_header : (ℕ → ℕ) → ElfHeader → ℕ → List ElfProgramHeader
unfolding parse_program_headers
parse_elf_prg_header memory hdr prg_hdr_start =
    parse_program_headers memory hdr hdr.e_phnum prg_hdr_start

-- `sizeof(uintptr_t)` is 8.
unfoldable pub read_section_header : (ℕ → ℕ) → ℕ → ElfSectionHeader
read_section_header memory ent = record {
  sh_name = load32 memory ent;
  sh_type = load32 memory (ent + 0x04);
  sh_flags = load64 memory (ent + 0x08);
  sh_addr = load64 memory (ent + 0x10);
  sh_offset = load64 memory (ent + 0x18);
  sh_size = load64 memory (ent + 0x20);
  sh_link = load32 memory (ent + 0x28);
  sh_info = load32 memory (ent + 0x2C);
  sh_addralign = load64 memory (ent + 0x30);
  sh_entsize = load64 memory (ent + 0x38);
}

-- `sh_offset` is computed from the `sh_flags` that has been swapped before.
unfoldable pub swap_section_header : ElfSectionHeader → ElfSectionHeader
swap_section_header hdr = record hdr {
  sh_name = swap_uint32 hdr.sh_name;
  sh_type = swap_uint32 hdr.sh_type;
  sh_flags = swap_uintptr hdr.sh_flags;
  sh_addr = swap_uintptr hdr.sh_addr;
  sh_offset = swap_uintptr (swap_uintptr hdr.sh_flags);
  sh_size = swap_uintptr hdr.sh_size;
  sh_link = swap_uint32 hdr.sh_link;
  sh_info = swap_uint32 hdr.sh_info;
  sh_addralign = swap_uintptr hdr.sh_addralign;
  sh_entsize = swap_uintptr hdr.sh_entsize;
}

unfoldable pub parse_section_headers : (ℕ → ℕ) → ElfHeader → ℕ → ℕ → List ElfSectionHeader
parse_section_headers memory hdr zero ent = []
parse_section_headers memory hdr (suc n) ent =
    let sct = read_section_header memory ent in
    (if endian_mismatch memory hdr.e_ident then swap_section_header sct else sct)
    ∷ parse_section_headers memory hdr n
        (ent + (if is_class64 memory hdr.e_ident then 0x40 else 0x28))

unfoldable pub parse_elf_sct_header : (ℕ → ℕ) → ElfHeader → ℕ → List ElfSectionHeader
unfolding parse_section_headers
parse_elf_sct_header memory hdr sct_hdr_start =
    parse_section_headers memory hdr hdr.e_shnum sct_hdr_start

-- `struct ELF_OBJ`; the two arrays as lists.
pub record ElfObj : Type 0 where
  pub file_length : ℕ
  pub header : ElfHeader
  pub program_headers : List ElfProgramHeader
  pub section_headers : List ElfSectionHeader

-- `memory` after the file has been copied to `file`.
unfoldable pub parse_elf : (ℕ → ℕ) → ℕ → ℕ → Option ElfObj
unfolding parse_elf_prg_header parse_elf_sct_header
parse_elf memory file len = elim (parse_elf_header memory file) [
  | none ↦ none
  | some hdr ↦ some (record {
    file_length = len;
    header = hdr;
    program_headers = parse_elf_prg_header memory hdr (add64 file hdr.e_phoff);
    section_headers = parse_elf_sct_header memory hdr (add64 file hdr.e_shoff);
  })
]
