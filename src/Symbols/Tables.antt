-- ===== src/Symbols/Tables.antt =====
-- arch/X86_64/arch.c: which tables `tab_search` copies.
use synos.Prelude.{
  ℕ, ◌+◌, ◌%◌, ◌||◌, true, ◌^◌, ◌≡◌, ◌≢◌, refl, false, List, [], ◌∷◌, ◌==◌, if◌then◌else◌,
  Bool-cases, inl, inr, ne→==, ==→eq, arith,
}
use synos.Symbols.{
  Section, Table, Symbols, no_table, copy_table, take_section, search_sections, tab_search,
}

-- The copy of the first section of a type; the first of the sections is met at turn `turn`.
unfoldable pub first_of : (ℕ → ℕ → ℕ) → ℕ → ℕ → List Section → Table
first_of alloc turn type [] = no_table
first_of alloc turn type (s ∷ ss) =
    if s.sh_type == type then copy_table alloc turn s else first_of alloc (turn + 1) type ss

-- `kmalloc` finds memory for the copy of each symbol table and each string table.
unfoldable pub Held : (ℕ → ℕ → ℕ) → ℕ → List Section → Type 0
Held alloc turn [] = Unit
Held alloc turn (s ∷ ss) =
    ((s.sh_type == 2 || s.sh_type == 3) ≡ true → alloc turn (s.sh_size % 2 ^ 32) ≢ 0)
    × Held alloc (turn + 1) ss

module _ (alloc : ℕ → ℕ → ℕ) where
  copied :
      (turn : ℕ) (s : Section) (ss : List Section)
      → Held alloc turn (s ∷ ss)
      → (s.sh_type == 2 || s.sh_type == 3) ≡ true
      → ((copy_table alloc turn s).address == 0) ≡ false
  unfolding copy_table Held
  copied turn s ss held is = ne→== _ 0 (held.0 is)

  later :
      (turn : ℕ) (s : Section) (ss : List Section)
      → Held alloc turn (s ∷ ss)
      → Held alloc (turn + 1) ss
  unfolding Held
  later turn s ss held = held.1

  -- Both tables, one of them, or none has been found.
  found_both :
      (turn : ℕ) (a b : Table) (ss : List Section)
      → (a.address == 0) ≡ false
      → (b.address == 0) ≡ false
      → search_sections alloc turn (record { elf_sym = a; elf_str = b }) ss
        ≡ record { elf_sym = a; elf_str = b }
  unfolding search_sections
  found_both turn a b [] e e' = refl
  found_both turn a b (s ∷ ss) e e' = rw (e, e') refl

  found_sym :
      (turn : ℕ) (a : Table) (ss : List Section)
      → Held alloc turn ss
      → (a.address == 0) ≡ false
      → search_sections alloc turn (record { elf_sym = a; elf_str = no_table }) ss
        ≡ record { elf_sym = a; elf_str = first_of alloc turn 3 ss }
  unfolding search_sections first_of take_section
  found_sym turn a [] held e = refl
  found_sym turn a (s ∷ ss) held e = elim (Bool-cases (s.sh_type == 3)) [
    | inl is ↦
        rw (e, is)
          (found_both (turn + 1) a (copy_table alloc turn s) ss e
            (copied turn s ss held (ground (arith, is))))
    | inr other ↦ rw (e, other) (found_sym (turn + 1) a ss (later turn s ss held) e)
  ]

  found_str :
      (turn : ℕ) (b : Table) (ss : List Section)
      → Held alloc turn ss
      → (b.address == 0) ≡ false
      → search_sections alloc turn (record { elf_sym = no_table; elf_str = b }) ss
        ≡ record { elf_sym = first_of alloc turn 2 ss; elf_str = b }
  unfolding search_sections first_of take_section
  found_str turn b [] held e = refl
  found_str turn b (s ∷ ss) held e = elim (Bool-cases (s.sh_type == 2)) [
    | inl is ↦
        rw (e, is)
          (found_both (turn + 1) (copy_table alloc turn s) b ss
            (copied turn s ss held (ground (arith, is))) e)
    | inr other ↦ rw (e, other) (found_str (turn + 1) b ss (later turn s ss held) e)
  ]

  found_none :
      (turn : ℕ) (ss : List Section)
      → Held alloc turn ss
      → search_sections alloc turn (record { elf_sym = no_table; elf_str = no_table }) ss
        ≡ record { elf_sym = first_of alloc turn 2 ss; elf_str = first_of alloc turn 3 ss }
  unfolding search_sections first_of take_section
  found_none turn [] held = refl
  found_none turn (s ∷ ss) held =
      let held' = later turn s ss held in
      elim (Bool-cases (s.sh_type == 2)) [
        | inl is ↦
            let no_str : (s.sh_type == 3) ≡ false = ground (arith, ==→eq _ _ is) in
            let ok = copied turn s ss held (ground (arith, is)) in
            rw (is, no_str) (found_sym (turn + 1) (copy_table alloc turn s) ss held' ok)
        | inr no_sym ↦ elim (Bool-cases (s.sh_type == 3)) [
          | inl is ↦
              let ok = copied turn s ss held (ground (arith, is)) in
              rw (no_sym, is) (found_str (turn + 1) (copy_table alloc turn s) ss held' ok)
          | inr other ↦ rw (no_sym, other) (found_none (turn + 1) ss held')
        ]
      ]

  -- When `kmalloc` finds memory for each symbol table and each string table behind section 0,
  -- `tab_search` copies the first symbol table and the first string table, and leaves a table that
  -- there is none of null.
  pub tab_search-first_of :
      (before : Symbols) (null : Section) (ss : List Section)
      → Held alloc 1 ss
      → tab_search alloc before (null ∷ ss)
        ≡ record { elf_sym = first_of alloc 1 2 ss; elf_str = first_of alloc 1 3 ss }
  unfolding tab_search
  tab_search-first_of before null ss held = found_none 1 ss held
