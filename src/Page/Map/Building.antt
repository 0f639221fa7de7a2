-- ===== src/Page/Map/Building.antt =====
-- kernel/page.c: the loop invariant of `_free_area_map`.
use synos.Prelude.{
  ℕ, zero, suc, ◌+◌, ◌-◌, ◌*◌, ◌%◌, ◌^◌, ◌≤◌, ◌<◌, ◌≡◌, Bool, true, false, ◌⊎◌, arith,
}
use synos.Page.Order.{max_order, free_area_length}
use synos.Page.State.{BpaMap, block_check, blocks}
use synos.Page.Row.{clear_count_zero}
use synos.Page.RowOk.{RowOk}
use synos.Page.Bitmap.{bitmap_bytes, Apart}
use synos.Page.Inv.{IsValid, IsFree}
use synos.Page.Map.Lowest.{EvenBelow}

-- `p` is `map.pages` without its bits below `c`; the orders below `c` are done, the others blank.
pub record Building (map : BpaMap) (p c : ℕ) : Type 0 where
  pub apart : Apart map.free_area map.pages
  pub small : map.pages < 2 ^ 63
  pub even : EvenBelow p c
  pub same : (d : ℕ) → free_area_length p (c + d) ≡ blocks map (c + d)
  pub rows :
      (o : ℕ)
      → o < c
      → RowOk (block_check map o) (blocks map o) (map.pages_free o) (map.next_free_page o)
  -- A done order has at most its last block free, and that only if it has no buddy.
  pub single :
      (o j : ℕ)
      → o < c
      → j < blocks map o
      → block_check map o j ≡ false
      → (suc j ≡ blocks map o) × (blocks map o % 2 ≡ 1)
  pub blank :
      (o : ℕ)
      → o < max_order
      → c ≤ o
      → ((j : ℕ) → j < 8 * bitmap_bytes map.pages o → block_check map o j ≡ true)
        × (map.pages_free o ≡ 0)
        × (map.next_free_page o ≡ 0)
  pub padded :
      (o j : ℕ)
      → o < max_order
      → blocks map o ≤ j
      → j < 8 * bitmap_bytes map.pages o
      → block_check map o j ≡ true
  -- A page is in a free block already, or in a whole block of order `c`.
  pub cover : (q : ℕ) → q < map.pages → IsFree map q ⊎ (free_area_length q c < blocks map c)

-- The result: a valid map of which every page is free.
pub record Whole (map after : BpaMap) : Type 0 where
  pub valid : IsValid after
  pub pages : after.pages ≡ map.pages
  pub free : (q : ℕ) → q < map.pages → IsFree after q

pub blank_row :
    (f : ℕ → Bool) (len count next : ℕ)
    → ((j : ℕ) → j < len → f j ≡ true)
    → count ≡ 0
    → RowOk f len count next
blank_row f len count next full e = record {
  counted = omega (arith, e, clear_count_zero f len full);
  first = λ pos. absurd (omega arith);
}

-- Whole blocks stay whole up to the next odd order.
climb_even :
    (pages q c d : ℕ)
    → ((j : ℕ) → c ≤ j → j < c + d → free_area_length pages j % 2 ≡ 0)
    → free_area_length q c < free_area_length pages c
    → free_area_length q (c + d) < free_area_length pages (c + d)
unfolding free_area_length
climb_even pages q c zero even lt = let e : c + 0 ≡ c = omega arith in rw e lt
climb_even pages q c (suc d) even lt =
    let e : c + suc d ≡ suc (c + d) = omega arith in
    rw e (
      omega (
        arith,
        even (c + d) (omega arith) (omega arith),
        climb_even pages q c d (λ j a b. even j a (omega arith)) lt,
      ))

pub blocks_zero :
    (pages o d : ℕ) → free_area_length pages (suc o) ≡ 0 → free_area_length pages (suc o + d) ≡ 0
unfolding free_area_length
blocks_zero pages o zero e = let s : suc o + 0 ≡ suc o = omega arith in rw s e
blocks_zero pages o (suc d) e =
    let s : suc o + suc d ≡ suc (suc o + d) = omega arith in
    rw s (omega (arith, blocks_zero pages o d e))

module _ (map : BpaMap) (p c o : ℕ) (b : Building map p c) (le : c ≤ o) (even : EvenBelow p o) where
  pub same_at : (a : ℕ) → c ≤ a → free_area_length p a ≡ blocks map a
  same_at a h = let e : c + (a - c) ≡ a = omega arith in rw e at (b.same (a - c))

  even_between : (j : ℕ) → c ≤ j → j < o → blocks map j % 2 ≡ 0
  even_between j h lt = rw (← same_at j h) (even j lt)

  pub whole_at : (q : ℕ) → free_area_length q c < blocks map c → free_area_length q o < blocks map o
  whole_at q lt =
      let e : c + (o - c) ≡ o = omega arith in
      rw e at (climb_even map.pages q c (o - c) (λ j h k. even_between j h (omega arith)) lt)
