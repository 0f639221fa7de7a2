-- ===== src/Page/Map/Finish.antt =====
-- kernel/page.c: `_free_area_map` frees every block of the last order that it reaches, and returns.
use synos.Prelude.{
  ℕ, suc, ◌+◌, ◌*◌, ◌%◌, ◌≤◌, ◌<◌, ◌≡◌, refl, ap, subst, Bool, true, false, inl, inr, ◌⊎◌, ◌&&◌,
  arith, ◌==◌, ltb, if◌then◌else◌, Bool-cases, ltb→lt, ==→eq,
}
use synos.Page.Order.{max_order, free_area_length}
use synos.Page.State.{BpaMap, bit_at, block_check, blocks, set_pages_free}
use synos.Page.RowOk.{RowOk, RowOk-eq, RowOk-congr}
use synos.Page.Bitmap.{bitmap_bytes, Inside, free_area_length-le-bits}
use synos.Page.Inv.{IsValid, IsFree}
use synos.Page.Split.{Inside_up}
use synos.Page.Map.{free_all}
use synos.Page.Map.Lowest.{EvenBelow}
use synos.Page.Map.Clear.{RowOk-all, Cleared, blocks_clear-Cleared, above_last}
use synos.Page.Map.Building.{Building, Whole, blank_row, blocks_zero, same_at, whole_at}

module _ (map : BpaMap) (p c o : ℕ) (b : Building map p c) (le : c ≤ o) (bound : o < max_order)
    (even : EvenBelow p o) (top : suc o < max_order → blocks map (suc o) ≡ 0) where
  abbrev counted : BpaMap
  counted = set_pages_free map o (blocks map o)

  module _ (table : ℕ → ℕ) (done : Cleared counted o 0 (blocks map o) table) where
    abbrev after : BpaMap
    after = record counted { table = table }

    abbrev bit : ℕ → ℕ → Bool
    bit a j = bit_at table map.free_area a j

    finish_bits :
        (a j : ℕ)
        → Inside map.pages a j
        → bit a j ≡ (if (o == a) && ltb j (blocks map o) then false else block_check map a j)
    finish_bits a j h = ground (arith, done.bits a j h)

    Inside-of : (a j : ℕ) → a < max_order → j < blocks map a → Inside map.pages a j
    Inside-of a j h lt = (h, omega (arith, lt, free_area_length-le-bits map.pages a))

    finish_row_done :
        (a : ℕ)
        → a < max_order
        → (o == a) ≡ false
        → RowOk (block_check map a) (blocks map a) (map.pages_free a) (map.next_free_page a)
        → RowOk (bit a) (blocks map a) (after.pages_free a) (after.next_free_page a)
    finish_row_done a h ne v = RowOk-eq (ground arith) (ground arith) (
        RowOk-congr (block_check map a) (bit a) (blocks map a) (map.pages_free a)
          (map.next_free_page a) (λ j lt. ground (arith, finish_bits a j (Inside-of a j h lt))) v)

    old_row :
        (a : ℕ)
        → a < max_order
        → RowOk (block_check map a) (blocks map a) (map.pages_free a) (map.next_free_page a)
    old_row a h = elim (Bool-cases (ltb a c)) [
      | inl lt ↦ b.rows a (ltb→lt _ _ lt)
      | inr ge ↦
          let (full, none_free, first) = b.blank a h (ground arith) in
          blank_row (block_check map a) (blocks map a) (map.pages_free a) (map.next_free_page a)
            (λ j lt. full j (Inside-of a j h lt).1) none_free
    ]

    finish-rows :
        (a : ℕ)
        → a < max_order
        → RowOk (bit a) (blocks map a) (after.pages_free a) (after.next_free_page a)
    finish-rows a h = elim (Bool-cases (o == a)) [
      | inl e ↦
          subst (λ x. RowOk (bit x) (blocks map x) (after.pages_free x) (after.next_free_page x))
            (==→eq _ _ e)
            (RowOk-eq (ground arith) ((b.blank o bound le).2) (
              RowOk-all (bit o) (blocks map o)
                (λ j lt. ground (arith, finish_bits o j (Inside-of o j bound lt)))))
      | inr ne ↦ finish_row_done a h ne (old_row a h)
    ]

    -- A free block is of the last order, or the odd one at the end of a lower order.
    last_or_top :
        (a i : ℕ)
        → a < max_order
        → i < blocks map a
        → bit a i ≡ false
        → (a ≡ o) ⊎ ((suc i ≡ blocks map a) × (blocks map a % 2 ≡ 1))
    last_or_top a i h lt clear = elim (Bool-cases (o == a)) [
      | inl e ↦ inl (ground arith)
      | inr ne ↦ elim (Bool-cases (ltb a c)) [
        | inl below ↦ inr (
            b.single a i (ltb→lt _ _ below) lt
              (ground (arith, finish_bits a i (Inside-of a i h lt))))
        | inr ge ↦ ground (
          arith,
          finish_bits a i (Inside-of a i h lt),
          (b.blank a h (ground arith)).0 i (Inside-of a i h lt).1,
        )
      ]
    ]

    -- So nothing of a higher order lies above it.
    nothing_above :
        (a d i : ℕ)
        → a + suc d < max_order
        → (a ≡ o) ⊎ ((suc i ≡ blocks map a) × (blocks map a % 2 ≡ 1))
        → blocks map (a + suc d) ≤ free_area_length i (suc d)
    nothing_above a d i h (inl e) =
        let s : suc o + d ≡ a + suc d = omega arith in
        let z : blocks map (a + suc d) ≡ 0 =
          rw s at (blocks_zero map.pages o d (top (omega arith))) in
        omega arith
    nothing_above a d i h (inr (e, odd)) = omega (arith, above_last map.pages a d i e odd)

    finish-padded :
        (a i : ℕ)
        → a < max_order
        → blocks map a ≤ i
        → i < 8 * bitmap_bytes map.pages a
        → bit a i ≡ true
    finish-padded a i h lt inside = elim (Bool-cases (o == a)) [
      | inl e ↦
          let same : blocks map o ≡ blocks map a = ap (blocks map) (==→eq _ _ e) in
          ground (arith, finish_bits a i (h, inside), b.padded a i h lt inside)
      | inr ne ↦ ground (arith, finish_bits a i (h, inside), b.padded a i h lt inside)
    ]

    finish-IsValid : IsValid after
    finish-IsValid = record {
      apart = b.apart;
      small = b.small;
      rows = finish-rows;
      alone = λ a d i h lt clear.
          finish-padded (a + suc d) (free_area_length i (suc d)) h
            (nothing_above a d i h (last_or_top a i (omega (arith, h)) lt clear))
            (Inside_up map.pages a (suc d) i (Inside-of a i (omega (arith, h)) lt).1);
      padded = finish-padded;
    }

    finish-IsFree : (q : ℕ) → q < map.pages → IsFree after q
    finish-IsFree q h = elim (b.cover q h) [
      | inl (a, f) ↦ (
        a,
        record {
          order = f.order;
          block = f.block;
          clear = ground (
            arith,
            f.clear,
            finish_bits a (free_area_length q a)
                (Inside-of a (free_area_length q a) f.order f.block),
          );
        },
      )
      | inr whole ↦
          let lt : free_area_length q o < blocks map o = whole_at map p c o b le even q whole in
          (
            o,
            record {
              order = bound;
              block = lt;
              clear = ground (
                arith,
                finish_bits o (free_area_length q o) (Inside-of o (free_area_length q o) bound lt),
              );
            },
          )
    ]

  pub free_all-Whole : Whole map (free_all map o p)
  free_all-Whole =
      let (t, done) =
        blocks_clear-Cleared (blocks map o) counted o 0 b.apart
          (λ j h. (bound, omega (arith, h, free_area_length-le-bits map.pages o))) in
      rw (same_at map p c o b le even o le, done.result)
        (record { valid = finish-IsValid t done; pages = refl; free = finish-IsFree t done })
