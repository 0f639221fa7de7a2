-- ===== src/Elf/Tests.antt =====
-- A big-endian file for mutils/elf/header.c.
use synos.Prelude.{ℕ, ◌≡◌, refl, some, ltb, if◌then◌else◌, ◌==◌}
use synos.Elf.{ElfHeader, parse_elf_header, file_is_elf}
use synos.Elf.Mismatch.{Mismatched, parse_elf_header-Mismatched}

-- The magic number, class 2, data 2, and bytes that count on from there.
abbrev big_file : ℕ → ℕ
big_file a =
    if a == 0
    then 0x7F
    else if a == 1
    then 0x45
    else if a == 2
    then 0x4C
    else if a == 3
    then 0x46
    else if ltb a 6
    then 2
    else a

parse_elf_header-Mismatched_example :
    (hdr : ElfHeader) × (parse_elf_header big_file 0 ≡ some hdr) × Mismatched big_file 0 hdr
unfolding file_is_elf
parse_elf_header-Mismatched_example = parse_elf_header-Mismatched big_file 0 refl refl refl
