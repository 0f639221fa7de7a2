-- ===== src/Str/Numerals.antt =====
-- mutils/string: what a text says that writes a number with digits.
use synos.Prelude.{
  ℕ, zero, suc, ◌+◌, ◌-◌, ◌*◌, ◌%◌, ◌≤◌, ◌<◌, ◌≡◌, ◌≢◌, refl, ap, ◌∙◌, Bool, true, ◌&&◌, ◌||◌,
  Option, none, some, leb, if◌then◌else◌, arith,
}
use synos.Str.{hex_digit}

-- A way to write numbers: the base, the byte for a last digit, the bytes that are digits and their
-- values.
pub record Numerals : Type 0 where
  pub base : ℕ
  pub digit : ℕ → ℕ
  pub is_digit : ℕ → Bool
  pub digit_value : ℕ → ℕ

-- The bytes for the digits are digits, with the right value, and none is 0 or more than a byte.
pub record IsLawful (k : Numerals) : Type 0 where
  pub two_le : 2 ≤ k.base
  pub digit-is_digit : (n : ℕ) → k.is_digit (k.digit n) ≡ true
  pub digit_value-digit : (n : ℕ) → k.digit_value (k.digit n) ≡ n % k.base
  pub positive : (c : ℕ) → k.is_digit c ≡ true → 0 < c
  pub byte : (c : ℕ) → k.is_digit c ≡ true → c < 256

abbrev pub decimal : Numerals
decimal = record {
  base = 10;
  digit = λ n. n % 10 + 48;
  is_digit = λ c. leb 48 c && leb c 57;
  digit_value = λ c. c - 48;
}

-- With capital letters.
abbrev pub hexadecimal : Numerals
hexadecimal = record {
  base = 16;
  digit = λ n. hex_digit n;
  is_digit = λ c. (leb 48 c && leb c 57) || (leb 65 c && leb c 70);
  digit_value = λ c. if leb 65 c then c - 55 else c - 48;
}

-- The number that the first bytes of a text stand for, the most significant digit first.
unfoldable pub value : Numerals → (ℕ → ℕ) → ℕ → ℕ
value k text zero = 0
value k text (suc n) = value k text n * k.base + k.digit_value (text n)

-- The first `len` bytes of the text are digits and stand for `n`, the first of them is not the digit
-- 0, and a zero byte follows.
pub record IsNumeral (k : Numerals) (n : ℕ) (text : ℕ → ℕ) (len : ℕ) : Type 0 where
  pub digits : (i : ℕ) → i < len → k.is_digit (text i) ≡ true
  pub value_eq : value k text len ≡ n
  pub leading : k.digit_value (text 0) ≢ 0
  pub ended : text len ≡ 0

-- There is a text, and it writes the number.
abbrev pub Writes : Numerals → ℕ → Option (ℕ → ℕ) → Type 0
Writes k n none = ⊥
Writes k n (some text) = (len : ℕ) × IsNumeral k n text len

pub decimal-IsLawful : IsLawful decimal
decimal-IsLawful = record {
  two_le = omega arith;
  digit-is_digit = λ n. ground arith;
  digit_value-digit = λ n. omega arith;
  positive = λ c h. ground arith;
  byte = λ c h. ground arith;
}

-- The digits with the least significant one first.
unfoldable pub low_value : Numerals → (ℕ → ℕ) → ℕ → ℕ
low_value k f zero = 0
low_value k f (suc n) = k.digit_value (f 0) + low_value k (λ i. f (suc i)) n * k.base

pub value-ext :
    (k : Numerals) (f g : ℕ → ℕ) (n : ℕ) → ((i : ℕ) → i < n → f i ≡ g i) → value k f n ≡ value k g n
unfolding value
value-ext k f g zero h = refl
value-ext k f g (suc n) h =
    rw (value-ext k f g n (λ i lt. h i (omega arith)), h n (omega arith)) refl

pub low_value-ext :
    (k : Numerals) (f g : ℕ → ℕ) (n : ℕ)
    → ((i : ℕ) → i < n → f i ≡ g i)
    → low_value k f n ≡ low_value k g n
unfolding low_value
low_value-ext k f g zero h = refl
low_value-ext k f g (suc n) h =
    rw
      (
        h 0 (omega arith),
        low_value-ext k (λ i. f (suc i)) (λ i. g (suc i)) n (λ i lt. h (suc i) (omega arith)),
      )
      refl

-- Read in the opposite order, the digits stand for the same number.
pub value-mirror :
    (k : Numerals) (f : ℕ → ℕ) (n : ℕ) → value k (λ i. f (n - 1 - i)) n ≡ low_value k f n
unfolding value low_value
value-mirror k f zero = refl
value-mirror k f (suc n) =
    let shift : value k (λ i. f (suc n - 1 - i)) n ≡ low_value k (λ i. f (suc i)) n =
      value-ext k _ _ n (λ i lt. ap f (omega arith)) ∙ value-mirror k (λ i. f (suc i)) n in
    let first : suc n - 1 - n ≡ 0 = omega arith in rw (shift, first) (omega arith)
