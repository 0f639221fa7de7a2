-- ===== src/Prelude/Masks.antt =====
-- `x & mask` for a mask of `k` ones followed by `m` zeros, whatever `x` is: the digits that the mask
-- covers stay in place. At a numeral `k` and `m` the result gives `omega` the quotient and the rest.
use Prim.Native.Nat.{
  ℕ, zero, suc, ◌+◌, ◌-◌, ◌*◌, ◌/◌, ◌%◌, ◌^◌, ◌≤◌, ◌<◌, min, bit_and, bit_and-bitwise, digits,
}
use mathlib.Core.Path.{◌≡◌, refl, sym, subst}
use native.Mathlib.Omega.{arith}

-- `x` has the digits `above`, then the `k` digits of `kept`, then the `m` digits of `below`.
pub record Masked (k m x value : ℕ) : Type 0 where
  pub above : ℕ
  pub kept : ℕ
  pub below : ℕ
  pub parts : x ≡ above * (2 ^ k * 2 ^ m) + (kept * 2 ^ m + below)
  pub below_lt : below < 2 ^ m
  pub kept_lt : kept < 2 ^ k
  pub value_eq : value ≡ kept * 2 ^ m

-- The mask.
unfoldable pub mask : ℕ → ℕ → ℕ
mask k zero = 2 ^ k - 1
mask k (suc m) = 2 * mask k m

abbrev and_digits : ℕ → ℕ → ℕ → ℕ
and_digits n a b = digits (λ b. zero) min n a b

pow_pos : (k : ℕ) → 0 < 2 ^ k
pow_pos zero = omega arith
pow_pos (suc k) = omega (arith, pow_pos k)

nothing : (k m : ℕ) → Masked k m 0 0
nothing k m = record {
  above = 0;
  kept = 0;
  below = 0;
  parts = omega arith;
  below_lt = pow_pos m;
  kept_lt = pow_pos k;
  value_eq = omega arith;
}

and_digits-zero : (n a : ℕ) → and_digits n a 0 ≡ 0
and_digits-zero zero a = refl
and_digits-zero (suc n) zero = refl
and_digits-zero (suc n) (suc a) = omega (arith, and_digits-zero n (suc a / 2))

pow-suc : (k : ℕ) → 2 ^ suc k ≡ 2 * 2 ^ k
pow-suc k = omega arith

-- One digit more below the mask, of which a one is dropped, and one more within it.
below_step : (k m x value : ℕ) → Masked k m (x / 2) value → Masked k (suc m) x (2 * value)
below_step k m x value s = record {
  above = s.above;
  kept = s.kept;
  below = 2 * s.below + x % 2;
  parts = rw (pow-suc m) (omega (arith, s.parts));
  below_lt = omega (arith, s.below_lt);
  kept_lt = s.kept_lt;
  value_eq = rw (pow-suc m) (omega (arith, s.value_eq));
}

kept_step : (k x value : ℕ) → Masked k 0 (x / 2) value → Masked (suc k) 0 x (2 * value + x % 2)
kept_step k x value s = record {
  above = s.above;
  kept = 2 * s.kept + x % 2;
  below = 0;
  parts = rw (pow-suc k) (omega (arith, s.parts, s.below_lt));
  below_lt = omega arith;
  kept_lt = omega (arith, s.kept_lt);
  value_eq = omega (arith, s.value_eq);
}

digits-Masked : (m k n x : ℕ) → x ≤ n → Masked k m x (and_digits n x (mask k m))
unfolding mask
digits-Masked m k zero zero lt = nothing k m
digits-Masked m k zero (suc x) lt = absurd (omega arith)
digits-Masked m k (suc n) zero lt = nothing k m
digits-Masked zero zero (suc n) (suc x) lt = record {
  above = suc x;
  kept = 0;
  below = 0;
  parts = omega arith;
  below_lt = omega arith;
  kept_lt = omega arith;
  value_eq = and_digits-zero (suc n) (suc x);
}
digits-Masked zero (suc k) (suc n) (suc x) lt =
    let half : mask (suc k) 0 / 2 ≡ mask k 0 = omega (arith, pow_pos k) in
    let odd : mask (suc k) 0 % 2 ≡ 1 = omega (arith, pow_pos k) in
    subst (Masked (suc k) 0 (suc x)) (rw half (rw odd (omega arith)))
      (kept_step k (suc x) _ (digits-Masked 0 k n (suc x / 2) (omega arith)))
digits-Masked (suc m) k (suc n) (suc x) lt =
    let half : 2 * mask k m / 2 ≡ mask k m = omega arith in
    let even : 2 * mask k m % 2 ≡ 0 = omega arith in
    subst (Masked k (suc m) (suc x)) (rw half (rw even (omega arith)))
      (below_step k m (suc x) _ (digits-Masked m k n (suc x / 2) (omega arith)))

-- `x & mask`
pub bit_and-Masked : (m k x : ℕ) → Masked k m x (bit_and x (mask k m))
bit_and-Masked m k x =
    subst (Masked k m x) (sym (bit_and-bitwise x (mask k m))) (digits-Masked m k x x (omega arith))
