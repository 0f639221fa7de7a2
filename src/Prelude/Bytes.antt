-- ===== src/Prelude/Bytes.antt =====
-- Bits of a byte: `|= 1 << k`, `&= ~(1 << k)` and `(b >> k) & 1`, and the fact that one bit is
-- changed and the others are kept, checked over every byte and every pair of positions.
use Prim.Native.Nat.{ℕ, zero, suc, ◌-◌, ◌/◌, ◌%◌, ◌^◌, ◌<◌, bit_and, bit_or}
use mathlib.Core.Path.{◌≡◌, refl}
use mathlib.Core.Bool.{Bool, true, false, ◌&&◌}
use native.Mathlib.Omega.{arith}
use mathlib.Core.Logic.{inl, inr}
use synos.Prelude.Tests.{◌==◌, if◌then◌else◌, Bool-cases}

-- `(b >> k) & 1U`
unfoldable pub test_bit : ℕ → ℕ → Bool
test_bit b k = bit_and (b / 2 ^ k) 1 == 1

-- `b | (1 << k)`, kept as a `char`
unfoldable pub set_bit : ℕ → ℕ → ℕ
set_bit b k = bit_or b (2 ^ k) % 256

-- `b & ~(1 << k)`: the complement of one bit of a byte is 255 - 2 ^ k.
unfoldable pub clear_bit : ℕ → ℕ → ℕ
clear_bit b k = bit_and b (255 - 2 ^ k) % 256

bool_eq : Bool → Bool → Bool
bool_eq true true = true
bool_eq false false = true
bool_eq _ _ = false

bool_eq→eq : (a b : Bool) → bool_eq a b ≡ true → a ≡ b
unfolding bool_eq
bool_eq→eq true true h = refl
bool_eq→eq false false h = refl
bool_eq→eq true false h = ground arith
bool_eq→eq false true h = ground arith

-- Whether a test passes on each of the first numbers.
unfoldable pub passes : (ℕ → Bool) → ℕ → Bool
passes test zero = true
passes test (suc last) = if test last then passes test last else false

pub passes-at :
    (test : ℕ → Bool) (bound k : ℕ) → k < bound → passes test bound ≡ true → test k ≡ true
unfolding passes
passes-at test zero k lt h = absurd (omega arith)
passes-at test (suc last) k lt h = elim (Bool-cases (test last)) [
  | inl e ↦ ground (arith, passes-at test last k)
  | inr e ↦ ground arith
]

set_law : ℕ → ℕ → ℕ → Bool
set_law b k j = bool_eq (test_bit (set_bit b k) j) (if k == j then true else test_bit b j)

clear_law : ℕ → ℕ → ℕ → Bool
clear_law b k j = bool_eq (test_bit (clear_bit b k) j) (if k == j then false else test_bit b j)

both : ℕ → ℕ → ℕ → Bool
both b k j = set_law b k j && clear_law b k j

table : passes (λ b. passes (λ k. passes (λ j. both b k j) 8) 8) 256 ≡ true
unfolding passes both set_law clear_law bool_eq test_bit set_bit clear_bit
table = refl

and-true : (a b : Bool) → (a && b) ≡ true → (a ≡ true) × (b ≡ true)
and-true true b h = (refl, h)
and-true false b h = ground arith

both-true : (b k j : ℕ) → b < 256 → k < 8 → j < 8 → both b k j ≡ true
both-true b k j hb hk hj =
    passes-at (λ j. both b k j) 8 j hj
      (passes-at (λ k. passes (λ j. both b k j) 8) 8 k hk
        (passes-at (λ b. passes (λ k. passes (λ j. both b k j) 8) 8) 256 b hb table))

pub test_bit-set_bit :
    (b k j : ℕ)
    → b < 256
    → k < 8
    → j < 8
    → test_bit (set_bit b k) j ≡ (if k == j then true else test_bit b j)
unfolding both set_law
test_bit-set_bit b k j hb hk hj = bool_eq→eq _ _ (and-true _ _ (both-true b k j hb hk hj)).0

pub test_bit-clear_bit :
    (b k j : ℕ)
    → b < 256
    → k < 8
    → j < 8
    → test_bit (clear_bit b k) j ≡ (if k == j then false else test_bit b j)
unfolding both clear_law
test_bit-clear_bit b k j hb hk hj =
    bool_eq→eq _ _ (and-true (set_law b k j) _ (both-true b k j hb hk hj)).1

pub set_bit-lt : (b k : ℕ) → set_bit b k < 256
unfolding set_bit
set_bit-lt b k = omega arith

pub clear_bit-lt : (b k : ℕ) → clear_bit b k < 256
unfolding clear_bit
clear_bit-lt b k = omega arith
