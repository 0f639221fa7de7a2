-- ===== src/Str/Reverse.antt =====
-- mutils/impl/string.c: `reverse` exchanges the bytes of a string pairwise.
use Prim.Native.Nat.{bit_xor}
use synos.Prelude.{
  ℕ, zero, suc, ◌+◌, ◌-◌, ◌*◌, ◌/◌, ◌≤◌, ◌<◌, ◌≡◌, ◌≢◌, refl, ap, subst, ◌∙◌, Bool, true, ◌&&◌, ltb,
  ◌==◌, if◌then◌else◌, passes, passes-at, ◌⊎◌, Bool-cases, inl, inr, arith,
}
use synos.Str.{xor_swap, reverse_loop, reverse}

-- Over two bytes, exclusive-or with one of them gives back the other.
xor_law : ℕ → ℕ → Bool
xor_law a b = (bit_xor (bit_xor a b) b == a) && (bit_xor (bit_xor a b) a == b)

table : passes (λ a. passes (λ b. xor_law a b) 256) 256 ≡ true
unfolding passes xor_law
table = refl

xor_law-true : (a b : ℕ) → a < 256 → b < 256 → xor_law a b ≡ true
xor_law-true a b ha hb =
    passes-at (λ b. xor_law a b) 256 b hb
      (passes-at (λ a. passes (λ b. xor_law a b) 256) 256 a ha table)

xor_first : (a b : ℕ) → a < 256 → b < 256 → bit_xor (bit_xor a b) b ≡ a
unfolding xor_law
xor_first a b ha hb = ground (arith, xor_law-true a b ha hb)

xor_second : (a b : ℕ) → a < 256 → b < 256 → bit_xor (bit_xor a b) a ≡ b
unfolding xor_law
xor_second a b ha hb = ground (arith, xor_law-true a b ha hb)

xor_swap_lem :
    (f : ℕ → ℕ) (i j k : ℕ)
    → i < j
    → f i < 256
    → f j < 256
    → xor_swap f i j k ≡ (if i == k then f j else if j == k then f i else f k)
unfolding xor_swap
xor_swap_lem f i j k lt hi hj =
    ground (arith, xor_first (f i) (f j) hi hj, xor_second (f i) (f j) hi hj)

abbrev Bytes : (ℕ → ℕ) → ℕ → Type 0
Bytes f len = (k : ℕ) → k < len → f k < 256

module _ (f : ℕ → ℕ) (len i : ℕ) (room : 2 * i + 2 ≤ len) (bytes : Bytes f len) where
  swapped :
      (k : ℕ)
      → xor_swap f i (len - 1 - i) k
        ≡ (if i == k then f (len - 1 - i) else if len - 1 - i == k then f i else f k)
  swapped k =
      xor_swap_lem f i (len - 1 - i) k (omega arith) (bytes i (omega arith))
        (bytes (len - 1 - i) (omega arith))

  swapped-other : (k : ℕ) → i ≢ k → len - 1 - i ≢ k → xor_swap f i (len - 1 - i) k ≡ f k
  swapped-other k low high = ground (arith, swapped k)

  swapped-low : xor_swap f i (len - 1 - i) i ≡ f (len - 1 - i)
  swapped-low = ground (arith, swapped i)

  swapped-high : xor_swap f i (len - 1 - i) (len - 1 - i) ≡ f i
  swapped-high = ground (arith, swapped (len - 1 - i))

  swapped-Bytes : Bytes (xor_swap f i (len - 1 - i)) len
  swapped-Bytes k lt =
      ground
        (arith, swapped k, bytes k lt, bytes i (omega arith), bytes (len - 1 - i) (omega arith))

-- The places that the rounds from `i` on leave alone.
abbrev Unmoved : (rounds len i k : ℕ) → Type 0
Unmoved rounds len i k = (k < i) ⊎ ((len ≤ k + i) ⊎ ((i + rounds ≤ k) × (k + (i + rounds) < len)))

Unmoved-next : (rounds len i k : ℕ) → Unmoved (suc rounds) len i k → Unmoved rounds len (i + 1) k
Unmoved-next rounds len i k (inl a) = inl (omega arith)
Unmoved-next rounds len i k (inr (inl a)) = inr (inl (omega arith))
Unmoved-next rounds len i k (inr (inr a)) = inr (inr (omega arith, omega arith))

Unmoved-low : (rounds len i k : ℕ) → 2 * i + 2 ≤ len → Unmoved (suc rounds) len i k → i ≢ k
Unmoved-low rounds len i k room a = ground arith

Unmoved-high :
    (rounds len i k : ℕ) → 2 * i + 2 ≤ len → Unmoved (suc rounds) len i k → len - 1 - i ≢ k
Unmoved-high rounds len i k room a = ground arith

reverse_loop-Unmoved :
    (rounds : ℕ) (f : ℕ → ℕ) (len i k : ℕ)
    → 2 * (i + rounds) ≤ len
    → Bytes f len
    → Unmoved rounds len i k
    → reverse_loop rounds f len i k ≡ f k
unfolding reverse_loop
reverse_loop-Unmoved zero f len i k le bytes a = refl
reverse_loop-Unmoved (suc rounds) f len i k le bytes a =
    let room : 2 * i + 2 ≤ len = omega arith in
    reverse_loop-Unmoved rounds (xor_swap f i (len - 1 - i)) len (i + 1) k (omega arith)
      (swapped-Bytes f len i room bytes) (Unmoved-next rounds len i k a)
    ∙ swapped-other f len i room bytes k (Unmoved-low rounds len i k room a)
        (Unmoved-high rounds len i k room a)

-- A byte of the first half, and its partner.
reverse_loop-pair :
    (rounds : ℕ) (f : ℕ → ℕ) (len i k : ℕ)
    → 2 * (i + rounds) ≤ len
    → Bytes f len
    → i ≤ k
    → k < i + rounds
    → (reverse_loop rounds f len i k ≡ f (len - 1 - k))
      × (reverse_loop rounds f len i (len - 1 - k) ≡ f k)
unfolding reverse_loop
reverse_loop-pair zero f len i k le bytes low lt = absurd (omega arith)
reverse_loop-pair (suc rounds) f len i k le bytes low lt =
    let room : 2 * i + 2 ≤ len = omega arith in
    let g = xor_swap f i (len - 1 - i) in
    let g_bytes : Bytes g len = swapped-Bytes f len i room bytes in
    elim (Bool-cases (i == k)) [
      | inl e ↦
          let same : i ≡ k = ground arith in
          rw (← same) (
            reverse_loop-Unmoved rounds g len (i + 1) i (omega arith) g_bytes (inl (omega arith))
                ∙ swapped-low f len i room bytes,
            reverse_loop-Unmoved rounds g len (i + 1) (len - 1 - i) (omega arith) g_bytes
                  (inr (inl (omega arith)))
                ∙ swapped-high f len i room bytes,
          )
      | inr e ↦
          let other : i ≢ k = ground arith in
          let next : (reverse_loop rounds g len (i + 1) k ≡ g (len - 1 - k))
              × (reverse_loop rounds g len (i + 1) (len - 1 - k) ≡ g k) =
            reverse_loop-pair rounds g len (i + 1) k (omega arith) g_bytes (omega arith)
              (omega arith) in
          (
            next.0
                ∙ swapped-other f len i room bytes (len - 1 - k) (λ h. omega arith)
                    (λ h. omega arith),
            next.1 ∙ swapped-other f len i room bytes k other (λ h. omega arith),
          )
    ]

-- `reverse` puts the bytes of a string in the opposite order, and leaves the memory behind them.
pub reverse_lem :
    (f : ℕ → ℕ) (len k : ℕ) → Bytes f len → k < len → reverse f len k ≡ f (len - 1 - k)
unfolding reverse
reverse_lem f len k bytes lt = elim (Bool-cases (ltb len 2)) [
  | inl short ↦ rw short (ap f (ground arith))
  | inr long ↦ rw long (elim (Bool-cases (ltb k (len / 2))) [
    | inl low ↦
        (reverse_loop-pair (len / 2) f len 0 k (omega arith) bytes (omega arith) (ground arith)).0
    | inr high ↦ elim (Bool-cases (ltb (len - 1 - k) (len / 2))) [
      | inl near ↦
          let back : len - 1 - (len - 1 - k) ≡ k = omega arith in
          subst (λ t. reverse_loop (len / 2) f len 0 t ≡ f (len - 1 - k)) back
            (reverse_loop-pair (len / 2) f len 0 (len - 1 - k) (omega arith) bytes (omega arith)
              (ground arith)).1
      | inr far ↦
          reverse_loop-Unmoved (len / 2) f len 0 k (omega arith) bytes
            (inr (inr (ground arith, ground arith)))
          ∙ ap f (ground arith)
    ]
  ])
]

pub reverse-behind : (f : ℕ → ℕ) (len k : ℕ) → Bytes f len → len ≤ k → reverse f len k ≡ f k
unfolding reverse
reverse-behind f len k bytes le = elim (Bool-cases (ltb len 2)) [
  | inl short ↦ rw short refl
  | inr long ↦
      rw long
        (reverse_loop-Unmoved (len / 2) f len 0 k (omega arith) bytes (inr (inl (omega arith))))
]
