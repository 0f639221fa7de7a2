-- ===== src/Page/Inv.antt =====
-- The invariant of one region's buddy allocator (`bpa_map_t` of kernel/include/synos/mm.h), and the
-- set of free pages that it stands for.
use synos.Prelude.{
  ℕ, suc, ◌+◌, ◌-◌, ◌*◌, ◌^◌, ◌≤◌, ◌<◌, ◌≡◌, refl, ◌∙◌, true, false, arith, ◌==◌, update,
  Bool-cases, inl, inr, sub64, add64,
}
use synos.Page.Order.{max_order, free_area_length}
use synos.Page.State.{BpaMap, block_check, blocks, find_next_free_page}
use synos.Page.Row.{clear_count, clear_count-le, IsFirst}
use synos.Page.RowOk.{RowOk, first_clear-IsFirst}
use synos.Page.Bitmap.{bitmap_bytes, Apart, free_area_length-le}
use synos.Page.Buddy.{advance}

-- A clear bit stands for a free block.
pub record IsValid (map : BpaMap) : Type 0 where
  -- The bitmaps do not overlap, and the numbers of pages fit a `size_t`.
  pub apart : Apart map.free_area map.pages
  pub small : map.pages < 2 ^ 63
  -- Count and next free block of each order agree with its bitmap.
  pub rows :
      (o : ℕ)
      → o < max_order
      → RowOk (block_check map o) (blocks map o) (map.pages_free o) (map.next_free_page o)
  -- A block that lies in a free block is not free by itself.
  pub alone :
      (o d i : ℕ)
      → o + suc d < max_order
      → i < blocks map o
      → block_check map o i ≡ false
      → block_check map (o + suc d) (free_area_length i (suc d)) ≡ true
  -- Bits behind the last block are set.
  pub padded :
      (o i : ℕ)
      → o < max_order
      → blocks map o ≤ i
      → i < 8 * bitmap_bytes map.pages o
      → block_check map o i ≡ true

-- No count of an order comes near the end of a `size_t`.
pub pages_free-lt :
    (map : BpaMap) → IsValid map → (o : ℕ) → o < max_order → map.pages_free o < 2 ^ 63
pages_free-lt map v o h = omega (
  arith,
  (v.rows o h).counted,
  clear_count-le (block_check map o) (blocks map o),
  free_area_length-le map.pages o,
  v.small,
)

-- Page `p` lies in a free block of order `o`.
pub record FreeIn (map : BpaMap) (p o : ℕ) : Type 0 where
  pub order : o < max_order
  pub block : free_area_length p o < blocks map o
  pub clear : block_check map o (free_area_length p o) ≡ false

-- Page `p` is free.
abbrev pub IsFree : BpaMap → ℕ → Type 0
IsFree map p = (o : ℕ) × FreeIn map p o

-- `n` and `k` are the index of the block that was taken and of the next one.
pub record Advanced (map : BpaMap) (order k : ℕ) : Type 0 where
  pub result : advance map order ≡ record map {
    pages_free = update map.pages_free order (map.pages_free order - 1);
    next_free_page = update map.next_free_page order k;
  }
  pub first : 0 < map.pages_free order - 1 → IsFirst (block_check map order) 0 (blocks map order) k

-- The state between taking the first free block and moving on: its bit is set, and it still counts.
pub record IsTaken (map : BpaMap) (order : ℕ) : Type 0 where
  pub small : map.pages_free order < 2 ^ 63
  pub counted : map.pages_free order ≡ suc (clear_count (block_check map order) (blocks map order))
  pub below : map.next_free_page order < blocks map order
  pub short : blocks map order < 2 ^ 63
  pub full : (x : ℕ) → x < map.next_free_page order + 1 → block_check map order x ≡ true

-- The search finds the first free block when all before `start` are taken and one is left.
pub find_next_free_page_lem :
    (map : BpaMap) (order start : ℕ)
    → start ≤ blocks map order
    → ((x : ℕ) → x < start → block_check map order x ≡ true)
    → 0 < clear_count (block_check map order) (blocks map order)
    → (i : ℕ) × (find_next_free_page map order start ≡ (i, map))
      × IsFirst (block_check map order) 0 (blocks map order) i
unfolding find_next_free_page
find_next_free_page_lem map order start le full pos =
    let (i, found, w) =
      first_clear-IsFirst (block_check map order) (blocks map order) start le full pos in
    (i, rw (found, find_next_free_page) refl, w)

module _ (map : BpaMap) (order : ℕ) (t : IsTaken map order) where
  one_less : sub64 (map.pages_free order) 1 ≡ map.pages_free order - 1
  one_less = omega (arith, t.small, t.counted)

  next_lem : add64 (map.next_free_page order) 1 ≡ map.next_free_page order + 1
  next_lem = omega (arith, t.below, t.short)

  advance_more :
      (i : ℕ)
      → (map.pages_free order == 1) ≡ false
      → find_next_free_page map order (map.next_free_page order + 1) ≡ (i, map)
      → IsFirst (block_check map order) 0 (blocks map order) i
      → Advanced map order i
  unfolding advance
  advance_more i more found w = record {
    result = rw (more, next_lem, found, one_less) refl;
    first = λ h. w;
  }

  advance_last : (map.pages_free order == 1) ≡ true → Advanced map order 0
  unfolding advance
  advance_last last = record {
    result = rw (last, one_less) refl;
    first = λ h. absurd (ground arith);
  }

  -- `advance` counts the block and finds the next free one.
  pub advance_lem : (k : ℕ) × Advanced map order k
  advance_lem = elim (Bool-cases (map.pages_free order == 1)) [
    | inl last ↦ (0, advance_last last)
    | inr more ↦
        let (i, found, w) =
          find_next_free_page_lem map order (map.next_free_page order + 1) (omega (arith, t.below))
            t.full (ground (arith, t.counted)) in
        (i, advance_more i more found w)
  ]

-- `after` is valid and has the same pages free as `map`.
pub record Refines (map after : BpaMap) : Type 0 where
  pub valid : IsValid after
  pub pages : after.pages ≡ map.pages
  pub kept : (p : ℕ) → IsFree map p → IsFree after p
  pub added : (p : ℕ) → IsFree after p → IsFree map p

pub Refines-trans : {a b c : BpaMap} → Refines a b → Refines b c → Refines a c
Refines-trans r s = record {
  valid = s.valid;
  pages = s.pages ∙ r.pages;
  kept = λ p f. s.kept p (r.kept p f);
  added = λ p f. r.added p (s.added p f);
}
