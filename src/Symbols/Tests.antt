-- ===== src/Symbols/Tests.antt =====
-- The theorems on symbols applied to four sections and three symbols.
use synos.Prelude.{ℕ, ◌+◌, ◌*◌, ◌==◌, if◌then◌else◌, ◌≡◌, some, List, [], ◌∷◌, arith}
use synos.Symbols.{Section, Symbols, Symbol, no_table, tab_search, trace_name}
use synos.Symbols.Tables.{first_of, Held, tab_search-first_of}
use synos.Symbols.Nearest.{IsNearest, trace_name-IsNearest}

abbrev section : ℕ → ℕ → Section
section type addr = record { sh_type = type; sh_addr = addr; sh_size = 0x60 }

abbrev behind : List Section
behind = section 1 0x1000 ∷ section 3 0x2000 ∷ section 2 0x3000 ∷ section 3 0x4000 ∷ []

-- Where a copy is put: memory for each turn is at hand, none for 0 bytes.
abbrev place : ℕ → ℕ → ℕ
place turn size = if size == 0 then 0 else 0x180000 + 0x1000 * turn

abbrev nothing : Symbols
nothing = record { elf_sym = no_table; elf_str = no_table }

place-Held : Held place 1 behind
unfolding Held
place-Held = (
  λ is e. omega (arith, e),
  (λ is e. omega (arith, e), (λ is e. omega (arith, e), (λ is e. omega (arith, e), tt))),
)

tab_search-first_of_example :
    tab_search place nothing (section 0 0 ∷ behind)
    ≡ record { elf_sym = first_of place 1 2 behind; elf_str = first_of place 1 3 behind }
tab_search-first_of_example = tab_search-first_of place nothing (section 0 0) behind place-Held

abbrev function : ℕ → ℕ → Symbol
function name value = record { st_name = name; st_info = 0x12; st_value = value }

abbrev functions : List Symbol
functions = function 1 0x100000 ∷ function 9 0x100400 ∷ function 17 0x100800 ∷ []

trace_name-IsNearest_example :
    (r : Symbol) × (trace_name 0x100420 (function 0 0 ∷ functions) ≡ some r.st_name)
    × IsNearest 0x100420 (function 0 0) functions r
trace_name-IsNearest_example = trace_name-IsNearest 0x100420 (function 0 0) functions
