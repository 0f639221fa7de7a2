-- ===== src/Elf/Swap.antt =====
-- mutils/elf/header.c: the byte swaps, against the word that the same bytes make in the other order.
use synos.Prelude.{
  ℕ, zero, suc, ◌+◌, ◌*◌, ◌%◌, ◌^◌, ◌<◌, ◌≡◌, refl, sym, ap, ◌∙◌, arith, ◌==◌, ==→eq, passes,
  passes-at, true,
}
use synos.Memory.{load, load16, load64}
use synos.Elf.{byte_of, swap_loop, swap_uint16, swap_uintptr}

-- The word of the first `n` bytes from `p` on, the most significant byte first.
unfoldable pub load_big : ℕ → (ℕ → ℕ) → ℕ → ℕ
load_big zero memory p = 0
load_big (suc n) memory p = memory p % 256 * 256 ^ n + load_big n memory (p + 1)

swap_uintptr-digits :
    (v : ℕ)
    → swap_uintptr v
      ≡ byte_of v 7
        + 256
          * (byte_of v 6
              + 256
                * (byte_of v 5
                    + 256
                      * (byte_of v 4
                          + 256
                            * (byte_of v 3
                                + 256 * (byte_of v 2 + 256 * (byte_of v 1 + 256 * byte_of v 0))))))
unfolding swap_uintptr swap_loop load
swap_uintptr-digits v = omega arith

pub swap_uintptr-load_big :
    (memory : ℕ → ℕ) (p : ℕ) → swap_uintptr (load64 memory p) ≡ load_big 8 memory p
unfolding load load_big
swap_uintptr-load_big memory p = omega (arith, swap_uintptr-digits (load64 memory p))

pub swap_uintptr-swap_uintptr : (v : ℕ) → v < 2 ^ 64 → swap_uintptr (swap_uintptr v) ≡ v
swap_uintptr-swap_uintptr v h =
    omega (arith, swap_uintptr-digits v, swap_uintptr-digits (swap_uintptr v))

swap16_table :
    passes (λ hi. passes (λ lo. swap_uint16 (lo + 256 * hi) == hi + 256 * lo) 256) 256 ≡ true
unfolding passes swap_uint16
swap16_table = refl

pub swap_uint16-bytes :
    (lo hi : ℕ) → lo < 256 → hi < 256 → swap_uint16 (lo + 256 * hi) ≡ hi + 256 * lo
swap_uint16-bytes lo hi hl hh = ==→eq _ _ (
    passes-at (λ lo. swap_uint16 (lo + 256 * hi) == hi + 256 * lo) 256 lo hl
      (passes-at (λ hi. passes (λ lo. swap_uint16 (lo + 256 * hi) == hi + 256 * lo) 256) 256 hi hh
        swap16_table))

load16-bytes :
    (memory : ℕ → ℕ) (p : ℕ) → load16 memory p ≡ memory p % 256 + 256 * (memory (p + 1) % 256)
unfolding load
load16-bytes memory p = omega arith

pub swap_uint16-load_big :
    (memory : ℕ → ℕ) (p : ℕ) → swap_uint16 (load16 memory p) ≡ load_big 2 memory p
unfolding load_big
swap_uint16-load_big memory p =
    ap swap_uint16 (load16-bytes memory p)
    ∙ swap_uint16-bytes (memory p % 256) (memory (p + 1) % 256) (omega arith) (omega arith)
    ∙ omega arith

pub swap_uint16-swap_uint16 :
    (memory : ℕ → ℕ) (p : ℕ) → swap_uint16 (swap_uint16 (load16 memory p)) ≡ load16 memory p
swap_uint16-swap_uint16 memory p =
    ap (λ v. swap_uint16 (swap_uint16 v)) (load16-bytes memory p)
    ∙ ap swap_uint16
        (swap_uint16-bytes (memory p % 256) (memory (p + 1) % 256) (omega arith) (omega arith))
    ∙ swap_uint16-bytes (memory (p + 1) % 256) (memory p % 256) (omega arith) (omega arith)
    ∙ sym (load16-bytes memory p)
