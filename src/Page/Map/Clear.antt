-- ===== src/Page/Map/Clear.antt =====
-- kernel/page.c: `blocks_clear`, and an order whose blocks are all free.
use synos.Prelude.{
  ℕ, zero, suc, ◌+◌, ◌%◌, ◌<◌, ◌≡◌, refl, Bool, false, ◌&&◌, arith, leb, ltb, ◌==◌, if◌then◌else◌,
}
use synos.Page.Order.{free_area_length}
use synos.Page.State.{BpaMap, bit_at, block_clear, blocks_clear}
use synos.Page.Row.{clear_count}
use synos.Page.RowOk.{RowOk}
use synos.Page.Bitmap.{Inside, bit_at-drop_bit, Apart}

pub clear_count_all : (g : ℕ → Bool) (n : ℕ) → ((j : ℕ) → j < n → g j ≡ false) → clear_count g n ≡ n
clear_count_all g zero clear = refl
clear_count_all g (suc n) clear =
    ground (arith, clear n, clear_count_all g n (λ j h. clear j (omega arith)))

pub RowOk-all : (g : ℕ → Bool) (n : ℕ) → ((j : ℕ) → j < n → g j ≡ false) → RowOk g n n 0
RowOk-all g n clear = record {
  counted = omega (arith, clear_count_all g n clear);
  first = λ pos. record {
    above = omega arith;
    below = pos;
    clear = clear 0 pos;
    before = λ x a b. absurd (omega arith);
  };
}

-- `blocks_clear` changes the table alone.
pub record Cleared (map : BpaMap) (order start length : ℕ) (table : ℕ → ℕ) : Type 0 where
  pub result : blocks_clear map order start length ≡ record map { table = table }
  pub bits :
      (a j : ℕ)
      → Inside map.pages a j
      → bit_at table map.free_area a j ≡ (
          if (order == a) && (leb start j && ltb j (start + length))
          then false
          else bit_at map.table map.free_area a j)

pub blocks_clear-Cleared :
    (length : ℕ) (map : BpaMap) (order start : ℕ)
    → Apart map.free_area map.pages
    → ((j : ℕ) → j < start + length → Inside map.pages order j)
    → (table : ℕ → ℕ) × Cleared map order start length table
unfolding blocks_clear
blocks_clear-Cleared zero map order start apart inside =
    (map.table, record { result = refl; bits = λ a j h. ground arith })
blocks_clear-Cleared (suc length) map order start apart inside =
    let (t, c) =
      blocks_clear-Cleared length (block_clear map order start) order (start + 1) apart
        (λ j h. inside j (omega arith)) in
    (
      t,
      record {
        result = c.result;
        bits = λ a j h. ground (
          arith,
          c.bits a j h,
          bit_at-drop_bit map.free_area map.pages apart map.table order start a j
              (inside start (omega arith)) h,
        );
      },
    )

-- The last block of an odd row has no block above it.
pub above_last :
    (pages a d i : ℕ)
    → suc i ≡ free_area_length pages a
    → free_area_length pages a % 2 ≡ 1
    → free_area_length i (suc d) ≡ free_area_length pages (a + suc d)
unfolding free_area_length
above_last pages a zero i e odd = let s : a + 1 ≡ suc a = omega arith in rw s (omega arith)
above_last pages a (suc d) i e odd =
    let s : a + suc (suc d) ≡ suc (a + suc d) = omega arith in
    rw s (omega (arith, above_last pages a d i e odd))
