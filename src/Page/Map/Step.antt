-- ===== src/Page/Map/Step.antt =====
-- kernel/page.c: one turn of `goto ord` in `_free_area_map` keeps the loop invariant.
use synos.Prelude.{
  ℕ, suc, ◌+◌, ◌-◌, ◌*◌, ◌%◌, ◌^◌, ◌≤◌, ◌<◌, ◌≡◌, ◌≢◌, refl, ap, ◌∙◌, subst, Bool, true, false, inl,
  inr, ◌⊎◌, arith, ◌==◌, ltb, if◌then◌else◌, update, Bool-cases, ltb→lt, ==→eq, ==_refl,
}
use synos.Page.Order.{max_order, free_area_length}
use synos.Page.State.{BpaMap, bit_at, drop_bit, block_check, blocks}
use synos.Page.RowOk.{RowOk, RowOk-eq, RowOk-congr, RowOk-add}
use synos.Page.Bitmap.{bitmap_bytes, Inside, bit_at-drop_bit, free_area_length-le-bits}
use synos.Page.Inv.{IsFree}
use synos.Page.Map.{free_last}
use synos.Page.Map.Lowest.{EvenBelow, lowest_off}
use synos.Page.Map.Building.{Building, blank_row, same_at, whole_at}

module _ (map : BpaMap) (p c o : ℕ) (b : Building map p c) (le : c ≤ o) (bound : suc o < max_order)
    (even : EvenBelow p o) (odd : free_area_length p o % 2 ≡ 1) where
  abbrev l : ℕ
  l = blocks map o - 1

  l_lem : suc l ≡ blocks map o
  l_lem = omega (arith, odd, same_at map p c o b le even o le)

  abbrev table : ℕ → ℕ
  table = drop_bit map.table map.free_area o l

  abbrev bit : ℕ → ℕ → Bool
  bit a j = bit_at table map.free_area a j

  abbrev after : BpaMap
  after = record map {
    table = table;
    pages_free = update map.pages_free o 1;
    next_free_page = update map.next_free_page o l;
  }

  step_bits :
      (a j : ℕ)
      → Inside map.pages a j
      → bit a j
        ≡ (if o == a then if l == j then false else block_check map a j else block_check map a j)
  step_bits a j h =
      bit_at-drop_bit map.free_area map.pages b.apart map.table o l a j
        (omega arith, omega (arith, l_lem, free_area_length-le-bits map.pages o)) h

  free_last_lem : free_last map o p ≡ after
  free_last_lem =
      rw (same_at map p c o b le even o le, ==_refl o, (b.blank o (omega arith) le).1) refl

  Inside-of : (a j : ℕ) → a < max_order → j < blocks map a → Inside map.pages a j
  Inside-of a j h lt = (h, omega (arith, lt, free_area_length-le-bits map.pages a))

  own_bits : (j : ℕ) → j < blocks map o → bit o j ≡ (if l == j then false else block_check map o j)
  own_bits j lt = ground (arith, step_bits o j (Inside-of o j (omega arith) lt))

  own_full : (j : ℕ) → j < blocks map o → block_check map o j ≡ true
  own_full j lt = (b.blank o (omega arith) le).0 j (Inside-of o j (omega arith) lt).1

  abbrev RowsOk : ℕ → Type 0
  RowsOk a = RowOk (bit a) (blocks map a) (after.pages_free a) (after.next_free_page a)

  step_row_own : RowsOk o
  step_row_own = RowOk-eq (ground arith) (ground arith) (
      RowOk-add (block_check map o) (bit o) (blocks map o) 0 (map.next_free_page o)
        (blank_row (block_check map o) (blocks map o) 0 (map.next_free_page o) own_full refl) l
        (omega (arith, l_lem)) (own_full l (omega (arith, l_lem))) own_bits)

  old_row :
      (a : ℕ)
      → a < o
      → RowOk (block_check map a) (blocks map a) (map.pages_free a) (map.next_free_page a)
  old_row a h = elim (Bool-cases (ltb a c)) [
    | inl lt ↦ b.rows a (ltb→lt _ _ lt)
    | inr ge ↦
        let (full, none_free, first) = b.blank a (omega arith) (ground arith) in
        blank_row (block_check map a) (blocks map a) (map.pages_free a) (map.next_free_page a)
          (λ j lt. full j (Inside-of a j (omega arith) lt).1) none_free
  ]

  step-rows : (a : ℕ) → a < suc o → RowsOk a
  step-rows a h = elim (Bool-cases (o == a)) [
    | inl e ↦ subst RowsOk (==→eq _ _ e) step_row_own
    | inr ne ↦ RowOk-eq (ground arith) (ground arith) (
        RowOk-congr (block_check map a) (bit a) (blocks map a) (map.pages_free a)
          (map.next_free_page a)
          (λ j lt. ground (arith, step_bits a j (Inside-of a j (omega arith) lt)))
          (old_row a (ground arith)))
  ]

  step_single_old :
      (a j : ℕ)
      → a < o
      → j < blocks map a
      → block_check map a j ≡ false
      → (suc j ≡ blocks map a) × (blocks map a % 2 ≡ 1)
  step_single_old a j h lt clear = elim (Bool-cases (ltb a c)) [
    | inl below ↦ b.single a j (ltb→lt _ _ below) lt clear
    | inr ge ↦
        let (full, none_free, first) = b.blank a (omega arith) (ground arith) in
        ground (arith, full j (Inside-of a j (omega arith) lt).1)
  ]

  step-single :
      (a j : ℕ)
      → a < suc o
      → j < blocks map a
      → bit a j ≡ false
      → (suc j ≡ blocks map a) × (blocks map a % 2 ≡ 1)
  step-single a j h lt clear = elim (Bool-cases (o == a)) [
    | inl e ↦
        let same : blocks map o ≡ blocks map a = ap (blocks map) (==→eq _ _ e) in
        let at_last : j ≡ l = ground (
          arith,
          step_bits a j (Inside-of a j (omega arith) lt),
          own_full j (omega (arith, same)),
        ) in
        omega (arith, l_lem, odd, same_at map p c o b le even o le)
    | inr ne ↦
        step_single_old a j (ground arith) lt
          (ground (arith, step_bits a j (Inside-of a j (omega arith) lt)))
  ]

  step-cover_whole :
      (q : ℕ)
      → free_area_length q o < blocks map o
      → IsFree after q ⊎ (free_area_length q (suc o) < blocks map (suc o))
  unfolding free_area_length
  step-cover_whole q lt = elim (Bool-cases (l == free_area_length q o)) [
    | inl e ↦ inl (
      o,
      record {
        order = omega arith;
        block = lt;
        clear = ground (arith, own_bits (free_area_length q o) lt);
      },
    )
    | inr ne ↦
        let other : free_area_length q o ≢ l = ground arith in
        inr (omega (arith, l_lem, odd, same_at map p c o b le even o le))
  ]

  step-cover :
      (q : ℕ) → q < map.pages → IsFree after q ⊎ (free_area_length q (suc o) < blocks map (suc o))
  step-cover q h = elim (b.cover q h) [
    | inl (a, f) ↦ inl (
      a,
      record {
        order = f.order;
        block = f.block;
        clear = ground (
          arith,
          f.clear,
          step_bits a (free_area_length q a) (Inside-of a (free_area_length q a) f.order f.block),
        );
      },
    )
    | inr whole ↦ step-cover_whole q (whole_at map p c o b le even q whole)
  ]

  step-blank :
      (a : ℕ)
      → a < max_order
      → suc o ≤ a
      → ((j : ℕ) → j < 8 * bitmap_bytes map.pages a → bit a j ≡ true)
        × (after.pages_free a ≡ 0)
        × (after.next_free_page a ≡ 0)
  step-blank a h ge =
      let (full, none_free, first) = b.blank a h (omega arith) in
      (
        λ j lt. ground (arith, full j lt, step_bits a j (h, lt)),
        ground (arith, none_free),
        ground (arith, first),
      )

  step-Building : Building after (p - 2 ^ o) (suc o)
  step-Building = record {
    apart = b.apart;
    small = b.small;
    even = (lowest_off p o even odd).0;
    same =
        λ d. (lowest_off p o even odd).1 d ∙ same_at map p c o b le even (suc o + d) (omega arith);
    rows = step-rows;
    single = step-single;
    blank = step-blank;
    padded = λ a j h lt inside.
        ground (arith, b.padded a j h lt inside, step_bits a j (h, inside), l_lem, own_pad a);
    cover = step-cover;
  }
    where
      own_pad : (a : ℕ) → o ≡ a → blocks map o ≡ blocks map a
      own_pad a e = ap (blocks map) e

  pub free_last-Building : Building (free_last map o p) (p - 2 ^ o) (suc o)
  free_last-Building = rw free_last_lem step-Building
