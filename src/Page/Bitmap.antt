-- ===== src/Page/Bitmap.antt =====
-- kernel/page.c: the layout of the bitmaps that `region_map` cuts out of one table, and what
-- `block_set` and `block_clear` do to every bit of every order.
use synos.Prelude.{
  ℕ, zero, suc, ◌+◌, ◌*◌, ◌/◌, ◌%◌, ◌≤◌, ◌<◌, ◌≡◌, ap, ◌∙◌, ◌≢◌, true, false, inl, inr, arith, ◌==◌,
  if◌then◌else◌, Bool-cases, ==→eq, ==→ne, ne→==, update, test_bit, set_bit, clear_bit,
  test_bit-set_bit, test_bit-clear_bit, set_bit-lt, clear_bit-lt,
}
use synos.Page.Order.{max_order, free_area_length}
use synos.Page.State.{bit_at, put_bit, drop_bit}

-- `last_size` when the loop of `region_map` reaches an order: the bytes of that order's bitmap.
unfoldable pub bitmap_bytes : ℕ → ℕ → ℕ
bitmap_bytes pages zero = (pages + 7) / 8
bitmap_bytes pages (suc order) = (bitmap_bytes pages order + 1) / 2

-- Each bitmap has a bit for every block of its order.
pub free_area_length-le-bits :
    (pages order : ℕ) → free_area_length pages order ≤ 8 * bitmap_bytes pages order
unfolding free_area_length bitmap_bytes
free_area_length-le-bits pages zero = omega arith
free_area_length-le-bits pages (suc order) = omega (arith, free_area_length-le-bits pages order)

pub free_area_length-le : (pages order : ℕ) → free_area_length pages order ≤ pages
unfolding free_area_length
free_area_length-le pages zero = omega arith
free_area_length-le pages (suc order) = omega (arith, free_area_length-le pages order)

-- The bitmaps of the orders follow one another and do not overlap.
abbrev pub Apart : (ℕ → ℕ) → ℕ → Type 0
Apart area pages = (o o' : ℕ) → o < o' → o' < max_order → area o + bitmap_bytes pages o ≤ area o'

-- The bits of one order's bitmap, those behind the last block included.
abbrev pub Inside : ℕ → ℕ → ℕ → Type 0
Inside pages order i = (order < max_order) × (i < 8 * bitmap_bytes pages order)

-- One write of a byte, seen from any bit of any byte.
written-set :
    (table : ℕ → ℕ) (a a' k k' : ℕ)
    → k < 8
    → k' < 8
    → test_bit (update table a (set_bit (table a % 256) k) a' % 256) k' ≡ (
        if a == a'
        then if k == k' then true else test_bit (table a' % 256) k'
        else test_bit (table a' % 256) k')
written-set table a a' k k' hk hk' = elim (Bool-cases (a == a')) [
  | inl e ↦
      rw (e, ← ==→eq a a' e)
        (ap (λ b. test_bit b k') (byte_small _ (set_bit-lt (table a % 256) k))
          ∙ test_bit-set_bit (table a % 256) k k' (omega arith) hk hk')
  | inr e ↦ rw e
]
  where
    byte_small : (b : ℕ) → b < 256 → b % 256 ≡ b
    byte_small b h = omega arith

written-clear :
    (table : ℕ → ℕ) (a a' k k' : ℕ)
    → k < 8
    → k' < 8
    → test_bit (update table a (clear_bit (table a % 256) k) a' % 256) k' ≡ (
        if a == a'
        then if k == k' then false else test_bit (table a' % 256) k'
        else test_bit (table a' % 256) k')
written-clear table a a' k k' hk hk' = elim (Bool-cases (a == a')) [
  | inl e ↦
      rw (e, ← ==→eq a a' e)
        (ap (λ b. test_bit b k') (byte_small _ (clear_bit-lt (table a % 256) k))
          ∙ test_bit-clear_bit (table a % 256) k k' (omega arith) hk hk')
  | inr e ↦ rw e
]
  where
    byte_small : (b : ℕ) → b < 256 → b % 256 ≡ b
    byte_small b h = omega arith

module _ (area : ℕ → ℕ) (pages : ℕ) (apart : Apart area pages) where
  -- Bits of two orders never share a byte.
  byte-ne :
      (o o' i j : ℕ)
      → Inside pages o i
      → Inside pages o' j
      → o ≢ o'
      → area o + i / 8 ≢ area o' + j / 8
  byte-ne o o' i j hi hj ne = elim (Bool-cases (o == o')) [
    | inl e ↦ absurd (ne (==→eq o o' e))
    | inr e ↦ λ same. order-cases same
  ]
    where
      order-cases : area o + i / 8 ≡ area o' + j / 8 → ⊥
      order-cases same = grind (arith, apart o o', apart o' o)

  pub bit_at-put_bit :
      (table : ℕ → ℕ) (o i o' j : ℕ)
      → Inside pages o i
      → Inside pages o' j
      → bit_at (put_bit table area o i) area o' j ≡ (
          if o == o'
          then (if i == j then true else bit_at table area o' j)
          else bit_at table area o' j)
  unfolding bit_at put_bit
  bit_at-put_bit table o i o' j hi hj =
      written-set table (area o + i / 8) (area o' + j / 8) (i % 8) (j % 8) (omega arith)
        (omega arith)
      ∙ elim (Bool-cases (o == o')) [
        | inl e ↦ rw (e, ← ==→eq o o' e) (ground arith)
        | inr e ↦ rw (e, ne→== _ _ (byte-ne o o' i j hi hj (==→ne o o' e)))
      ]

  pub bit_at-drop_bit :
      (table : ℕ → ℕ) (o i o' j : ℕ)
      → Inside pages o i
      → Inside pages o' j
      → bit_at (drop_bit table area o i) area o' j ≡ (
          if o == o'
          then (if i == j then false else bit_at table area o' j)
          else bit_at table area o' j)
  unfolding bit_at drop_bit
  bit_at-drop_bit table o i o' j hi hj =
      written-clear table (area o + i / 8) (area o' + j / 8) (i % 8) (j % 8) (omega arith)
        (omega arith)
      ∙ elim (Bool-cases (o == o')) [
        | inl e ↦ rw (e, ← ==→eq o o' e) (ground arith)
        | inr e ↦ rw (e, ne→== _ _ (byte-ne o o' i j hi hj (==→ne o o' e)))
      ]
