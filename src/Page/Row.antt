-- ===== src/Page/Row.antt =====
-- One bitmap as a row of bits: how many are clear, and which is the first. The rows are those of
-- `block_check` in kernel/page.c.
use synos.Prelude.{
  ℕ, zero, suc, ◌+◌, ◌≤◌, ◌<◌, ◌≡◌, refl, Bool, true, false, Option, none, some, inl, inr, arith,
  ◌==◌, if◌then◌else◌, Bool-cases,
}
use synos.Page.State.{first_clear}

-- The number of clear bits below `n`.
abbrev pub clear_count : (ℕ → Bool) → ℕ → ℕ
clear_count row zero = 0
clear_count row (suc n) = clear_count row n + (if row n then 0 else 1)

pub clear_count-le : (row : ℕ → Bool) (n : ℕ) → clear_count row n ≤ n
clear_count-le row zero = omega arith
clear_count-le row (suc n) = ground (arith, clear_count-le row n)

pub clear_count-congr :
    (f g : ℕ → Bool) (n : ℕ) → ((j : ℕ) → j < n → g j ≡ f j) → clear_count g n ≡ clear_count f n
clear_count-congr f g zero same = refl
clear_count-congr f g (suc n) same =
    ground (arith, same n, clear_count-congr f g n (λ j h. same j (omega arith)))

-- Setting a clear bit takes one off the count.
pub clear_count-set :
    (f g : ℕ → Bool) (k n : ℕ)
    → k < n
    → f k ≡ false
    → ((j : ℕ) → j < n → g j ≡ (if k == j then true else f j))
    → suc (clear_count g n) ≡ clear_count f n
clear_count-set f g k zero lt clear same = absurd (omega arith)
clear_count-set f g k (suc n) lt clear same = elim (Bool-cases (k == n)) [
  | inl e ↦ ground (arith, same n, clear_count-congr f g n (λ j h. ground (arith, same j)))
  | inr e ↦
      ground
        (arith, same n, clear_count-set f g k n (ground arith) clear (λ j h. same j (omega arith)))
]

-- Clearing a set bit adds one.
pub clear_count-clear :
    (f g : ℕ → Bool) (k n : ℕ)
    → k < n
    → f k ≡ true
    → ((j : ℕ) → j < n → g j ≡ (if k == j then false else f j))
    → clear_count g n ≡ suc (clear_count f n)
clear_count-clear f g k zero lt full same = absurd (omega arith)
clear_count-clear f g k (suc n) lt full same = elim (Bool-cases (k == n)) [
  | inl e ↦ ground (arith, same n, clear_count-congr f g n (λ j h. ground (arith, same j)))
  | inr e ↦
      ground
        (arith, same n, clear_count-clear f g k n (ground arith) full (λ j h. same j (omega arith)))
]

pub clear_count_zero : (f : ℕ → Bool) (n : ℕ) → ((j : ℕ) → j < n → f j ≡ true) → clear_count f n ≡ 0
clear_count_zero f zero full = refl
clear_count_zero f (suc n) full =
    ground (arith, full n, clear_count_zero f n (λ j h. full j (omega arith)))

-- A row with a clear bit has a positive count.
pub clear_count_pos : (f : ℕ → Bool) (k n : ℕ) → k < n → f k ≡ false → 0 < clear_count f n
clear_count_pos f k zero lt clear = absurd (omega arith)
clear_count_pos f k (suc n) lt clear = elim (Bool-cases (k == n)) [
  | inl e ↦ ground arith
  | inr e ↦ ground (arith, clear_count_pos f k n (ground arith) clear)
]

-- `j` is the first clear bit at or above `i`.
pub record IsFirst (row : ℕ → Bool) (i n j : ℕ) : Type 0 where
  pub above : i ≤ j
  pub below : j < n
  pub clear : row j ≡ false
  pub before : (x : ℕ) → i ≤ x → x < j → row x ≡ true

-- What a search of `rounds` bits from `i` finds.
abbrev pub Found : (ℕ → Bool) → ℕ → ℕ → Option ℕ → Type 0
Found row rounds i none = (x : ℕ) → i ≤ x → x < i + rounds → row x ≡ true
Found row rounds i (some j) = IsFirst row i (i + rounds) j

Found-later :
    (row : ℕ → Bool) (rounds i : ℕ) (o : Option ℕ)
    → row i ≡ true
    → Found row rounds (i + 1) o
    → Found row (suc rounds) i o
Found-later row rounds i none full h = λ x a b. elim (Bool-cases (i == x)) [
  | inl e ↦ ground arith
  | inr e ↦ h x (ground arith) (omega arith)
]
Found-later row rounds i (some j) full h = record {
  above = omega (arith, h.above);
  below = omega (arith, h.below);
  clear = h.clear;
  before = λ x a b. elim (Bool-cases (i == x)) [
    | inl e ↦ ground arith
    | inr e ↦ h.before x (ground arith) b
  ];
}

pub first_clear-Found :
    (row : ℕ → Bool) (rounds i : ℕ) → Found row rounds i (first_clear row rounds i)
unfolding first_clear
first_clear-Found row zero i = λ x a b. absurd (omega arith)
first_clear-Found row (suc rounds) i = elim (Bool-cases (row i)) [
  | inl full ↦ rw full (Found-later row rounds i _ full (first_clear-Found row rounds (i + 1)))
  | inr clear ↦ rw clear (record {
    above = omega arith;
    below = omega arith;
    clear = clear;
    before = λ x a b. absurd (omega arith);
  })
]
