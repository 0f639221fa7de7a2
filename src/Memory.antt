-- ===== src/Memory.antt =====
-- Reads of little-endian words through a pointer, as the code does them on X86_64: `*(uint32_t*)p`.
-- Memory is a function from addresses to bytes.
use synos.Prelude.{ℕ, zero, suc, ◌+◌, ◌*◌, ◌%◌}

-- The word of the first `n` bytes from `p` on.
unfoldable pub load : ℕ → (ℕ → ℕ) → ℕ → ℕ
load zero memory p = 0
load (suc n) memory p = memory p % 256 + 256 * load n memory (p + 1)

abbrev pub load8 : (ℕ → ℕ) → ℕ → ℕ
load8 memory p = memory p % 256

abbrev pub load16 : (ℕ → ℕ) → ℕ → ℕ
load16 = load 2

abbrev pub load32 : (ℕ → ℕ) → ℕ → ℕ
load32 = load 4

abbrev pub load64 : (ℕ → ℕ) → ℕ → ℕ
load64 = load 8
