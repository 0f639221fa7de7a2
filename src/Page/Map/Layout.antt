-- ===== src/Page/Map/Layout.antt =====
-- kernel/page.c: `region_map` lays the bitmaps of the orders one behind the other.
use synos.Prelude.{
  ℕ, zero, suc, ◌+◌, ◌-◌, ◌*◌, ◌/◌, ◌%◌, ◌≤◌, ◌<◌, ◌≡◌, refl, true, inl, inr, arith, ◌==◌, update,
  Bool-cases, ==→eq, ==_refl, lt→ltb, test_bit,
}
use native.Mathlib.Numerals.{add-one}
use synos.Page.Order.{max_order}
use synos.Page.State.{bit_at}
use synos.Page.Bitmap.{bitmap_bytes, Apart}
use synos.Page.Map.{fill, map_free_areas, blank_map}

-- Where the bitmap of an order starts.
unfoldable pub bitmap_start : ℕ → ℕ → ℕ
bitmap_start pages zero = 0
bitmap_start pages (suc order) = bitmap_start pages order + bitmap_bytes pages order

-- The loop with the areas below `suc i` laid out.
map_free_areas-start :
    (pages rounds i : ℕ) (area : ℕ → ℕ)
    → ((o : ℕ) → o < suc i → area o ≡ bitmap_start pages o)
    → (o : ℕ) → o < suc i + rounds
    → map_free_areas rounds (suc i) (bitmap_start pages i) (bitmap_bytes pages i) area o
      ≡ bitmap_start pages o
unfolding map_free_areas bitmap_start bitmap_bytes
map_free_areas-start pages zero i area done o h = done o (omega arith)
map_free_areas-start pages (suc rounds) i area done o h = rw (add-one (suc i)) (
    map_free_areas-start pages rounds (suc i)
      (update area (suc i) (bitmap_start pages i + bitmap_bytes pages i)) next o (omega arith))
  where
    next :
        (o : ℕ)
        → o < suc (suc i)
        → update area (suc i) (bitmap_start pages i + bitmap_bytes pages i) o ≡ bitmap_start pages o
    next o h = elim (Bool-cases (suc i == o)) [
      | inl e ↦ rw (← ==→eq _ _ e, ==_refl (suc i))
      | inr e ↦ rw e (done o (ground arith))
    ]

-- Each order's pointer is where the bitmaps of the orders below end.
pub blank_map-free_area :
    (pages : ℕ) (table : ℕ → ℕ) (o : ℕ)
    → o < max_order
    → (blank_map pages table).free_area o ≡ bitmap_start pages o
unfolding blank_map bitmap_start bitmap_bytes
blank_map-free_area pages table o h =
    map_free_areas-start pages (max_order - 1) 0 (λ _. 0) base o (omega (arith, h))
  where
    base : (a : ℕ) → a < 1 → ◌≡◌ {A = ℕ} 0 (bitmap_start pages a)
    base zero h = refl
    base (suc a) h = absurd (omega arith)

bitmap_start-le :
    (pages o d : ℕ) → bitmap_start pages o + bitmap_bytes pages o ≤ bitmap_start pages (suc o + d)
unfolding bitmap_start
bitmap_start-le pages o zero = let e : suc o + 0 ≡ suc o = omega arith in rw e (omega arith)
bitmap_start-le pages o (suc d) =
    let e : suc o + suc d ≡ suc (suc o + d) = omega arith in
    rw e (omega (arith, bitmap_start-le pages o d))

pub blank_map-Apart : (pages : ℕ) (table : ℕ → ℕ) → Apart (blank_map pages table).free_area pages
blank_map-Apart pages table o o' lt h =
    let e : suc o + (o' - suc o) ≡ o' = omega arith in
    rw (blank_map-free_area pages table o (omega arith), blank_map-free_area pages table o' h)
      (rw e at (bitmap_start-le pages o (o' - suc o)))

-- The table that is filled holds all ten bitmaps.
abbrev pub Fits : ℕ → Type 0
Fits pages = bitmap_start pages max_order ≤ (pages * 2 + 7) / 8

full_byte : (k : ℕ) → k < 8 → test_bit 255 k ≡ true
unfolding test_bit
full_byte zero h = refl
full_byte (suc zero) h = refl
full_byte (suc (suc zero)) h = refl
full_byte (suc (suc (suc zero))) h = refl
full_byte (suc (suc (suc (suc zero)))) h = refl
full_byte (suc (suc (suc (suc (suc zero))))) h = refl
full_byte (suc (suc (suc (suc (suc (suc zero)))))) h = refl
full_byte (suc (suc (suc (suc (suc (suc (suc zero))))))) h = refl
full_byte (suc (suc (suc (suc (suc (suc (suc (suc k)))))))) h = absurd (omega arith)

-- Then every bit of every bitmap starts out set.
pub blank_map-bits :
    (pages : ℕ) (table : ℕ → ℕ)
    → Fits pages
    → (o i : ℕ) → o < max_order
    → i < 8 * bitmap_bytes pages o
    → bit_at (fill ((pages * 2 + 7) / 8) table) (blank_map pages table).free_area o i ≡ true
unfolding bit_at
blank_map-bits pages table fits o i h lt =
    rw (blank_map-free_area pages table o h, lt→ltb _ _ inside) (full_byte (i % 8) (omega arith))
  where
    inside : bitmap_start pages o + i / 8 < (pages * 2 + 7) / 8
    inside =
        let e : suc o + (9 - o) ≡ max_order = omega arith in
        let top : bitmap_start pages o + bitmap_bytes pages o ≤ bitmap_start pages max_order =
          rw e at (bitmap_start-le pages o (9 - o)) in
        omega arith
