-- ===== src/Page/Merge.antt =====
-- kernel/page.c: one round of `block_merge`. `o` is the order of the two free buddies `a * 2` and
-- `a * 2 + 1`, `suc o` that of the block `a` that they make up.
pub mod Search
pub mod Valid
pub mod Rounds
use synos.Prelude.{
  ℕ, zero, suc, ◌+◌, ◌-◌, ◌*◌, ◌/◌, ◌%◌, ◌^◌, ◌≤◌, ◌<◌, ◌≡◌, ◌≢◌, refl, sym, ap, ◌∙◌, subst, Bool,
  true, false, ◌||◌, ◌&&◌, inl, inr, arith, ltb, ◌==◌, if◌then◌else◌, update, Bool-cases, ==→eq,
  add64, sub64, ◌⊎◌,
}
use native.Mathlib.Numerals.{add-one}
use synos.Page.Order.{max_order, free_area_length}
use synos.Page.State.{
  BpaMap, bit_at, put_bit, drop_bit, block_check, block_set, block_clear, blocks, set_next_free,
  find_next_free_page,
}
use synos.Page.Row.{clear_count, IsFirst}
use synos.Page.RowOk.{RowOk, RowOk-eq, RowOk-congr, RowOk-add}
use synos.Page.Bitmap.{
  bitmap_bytes, Inside, free_area_length-le-bits, free_area_length-le, bit_at-put_bit,
  bit_at-drop_bit,
}
use synos.Page.Inv.{IsValid, pages_free-lt, FreeIn, IsFree}
use synos.Page.Split.{Inside_up, free_area_length-half}
use synos.Page.Merge.Search.{find_next_free_page_total, clear_count-set_pair}
use synos.Page.Buddy.{merge_at}

module _ (map : BpaMap) (v : IsValid map) (o : ℕ) (bound : suc o < max_order) (a : ℕ)
    (below : a * 2 + 1 < blocks map o) (left : block_check map o (a * 2) ≡ false)
    (right : block_check map o (a * 2 + 1) ≡ false) where
  abbrev table : ℕ → ℕ
  table =
      drop_bit (put_bit (put_bit map.table map.free_area o (a * 2)) map.free_area o (a * 2 + 1))
        map.free_area (suc o) a

  abbrev bit : ℕ → ℕ → Bool
  bit b j = bit_at table map.free_area b j

  below_up : a < blocks map (suc o)
  unfolding free_area_length
  below_up = omega (arith, below)

  Inside-of : (b j : ℕ) → b < max_order → j < blocks map b → Inside map.pages b j
  Inside-of b j h lt = (h, omega (arith, lt, free_area_length-le-bits map.pages b))

  -- Every bit of every order after the merge.
  merge_bits :
      (b j : ℕ)
      → Inside map.pages b j
      → bit b j ≡ (
          if suc o == b
          then if a == j then false else block_check map b j
          else if o == b
          then if a * 2 + 1 == j then true else if a * 2 == j then true else block_check map b j
          else block_check map b j)
  merge_bits b j h = ground (
    arith,
    bit_at-drop_bit map.free_area map.pages v.apart
        (put_bit (put_bit map.table map.free_area o (a * 2)) map.free_area o (a * 2 + 1)) (suc o) a
        b j (Inside-of (suc o) a bound below_up) h,
    bit_at-put_bit map.free_area map.pages v.apart (put_bit map.table map.free_area o (a * 2)) o
        (a * 2 + 1) b j (Inside-of o (a * 2 + 1) (omega arith) below) h,
    bit_at-put_bit map.free_area map.pages v.apart map.table o (a * 2) b j
        (Inside-of o (a * 2) (omega arith) (omega arith)) h,
  )

  -- The block was not free: its halves were.
  parent_full : block_check map (suc o) a ≡ true
  unfolding free_area_length
  parent_full =
      let up : block_check map (o + 1) (a * 2 / 2) ≡ true =
        v.alone o 0 (a * 2) (omega arith) (omega arith) left in
      let half : a * 2 / 2 ≡ a = omega arith in rw (add-one o, half) at up

  low_bits :
      (j : ℕ)
      → j < blocks map o
      → bit o j
        ≡ (if a * 2 + 1 == j then true else if a * 2 == j then true else block_check map o j)
  low_bits j lt = ground (arith, merge_bits o j (Inside-of o j (omega arith) lt))

  high_bits :
      (j : ℕ)
      → j < blocks map (suc o)
      → bit (suc o) j ≡ (if a == j then false else block_check map (suc o) j)
  high_bits j lt = ground (arith, merge_bits (suc o) j (Inside-of (suc o) j bound lt))

  abbrev counts : ℕ → ℕ
  counts =
      update (update map.pages_free o (map.pages_free o - 2)) (suc o) (map.pages_free (suc o) + 1)

  abbrev mid : BpaMap
  mid = record map { table = table; pages_free = counts }

  mid_counted : mid.pages_free o ≡ clear_count (bit o) (blocks map o)
  mid_counted =
      let own : mid.pages_free o ≡ map.pages_free o - 2 = ground arith in
      omega (
        arith,
        own,
        (v.rows o (omega arith)).counted,
        clear_count-set_pair (block_check map o) (bit o) (a * 2) (blocks map o) below left right
            low_bits,
      )

  merge_at-mid : merge_at map o (a * 2) ≡ (
      let (next, found) = find_next_free_page mid o (a * 2 + 2) in
      let map4 =
        if map.next_free_page o == a * 2 || map.next_free_page o == a * 2 + 1
        then set_next_free found o next
        else mid in
      if ltb a (map4.next_free_page (suc o)) || map4.pages_free (suc o) == 1
      then set_next_free map4 (suc o) a
      else map4)
  unfolding merge_at
  merge_at-mid = rw (add-one o, half, two_less, apart, one_more) refl
    where
      half : a * 2 / 2 ≡ a
      half = omega arith

      two_less : sub64 (map.pages_free o) 2 ≡ map.pages_free o - 2
      two_less =
          let own : mid.pages_free o ≡ map.pages_free o - 2 = ground arith in
          omega (
            arith,
            pages_free-lt map v o (omega arith),
            (v.rows o (omega arith)).counted,
            clear_count-set_pair (block_check map o) (bit o) (a * 2) (blocks map o) below left right
                low_bits,
          )

      apart : (o == suc o) ≡ false
      apart = ground arith

      one_more : add64 (map.pages_free (suc o)) 1 ≡ map.pages_free (suc o) + 1
      one_more = omega (arith, pages_free-lt map v (suc o) bound)

  -- The next free block of the halves' order is searched anew only if it was one of them.
  abbrev hit : Bool
  hit = map.next_free_page o == a * 2 || map.next_free_page o == a * 2 + 1

  abbrev nearer : Bool
  nearer = ltb a (map.next_free_page (suc o)) || map.pages_free (suc o) == 0

  abbrev merged : ℕ → BpaMap
  merged k = record map {
    table = table;
    pages_free = counts;
    next_free_page =
        let low = if hit then update map.next_free_page o k else map.next_free_page in
        if nearer then update low (suc o) a else low;
  }

  low-IsFirst : IsFirst (block_check map o) 0 (blocks map o) (map.next_free_page o)
  low-IsFirst = (v.rows o (omega arith)).first (
      omega (
        arith,
        (v.rows o (omega arith)).counted,
        clear_count-set_pair (block_check map o) (bit o) (a * 2) (blocks map o) below left right
            low_bits,
      ))

  first-le : map.next_free_page o ≤ a * 2
  first-le = elim (Bool-cases (ltb (a * 2) (map.next_free_page o))) [
    | inl lt ↦
        let full : block_check map o (a * 2) ≡ true =
          low-IsFirst.before (a * 2) (omega arith) (ground arith) in
        ground (arith, left)
    | inr ge ↦ ground arith
  ]

  low_full : hit ≡ true → (x : ℕ) → x < a * 2 + 2 → bit o x ≡ true
  low_full own x lt =
      let first : map.next_free_page o ≡ a * 2 = ground (arith, first-le) in
      ground (arith, low_bits x (omega (arith, below)), low-IsFirst.before x)

  next_up :
      (low : ℕ → ℕ)
      → low (suc o) ≡ map.next_free_page (suc o)
      → (if ltb a (low (suc o)) || mid.pages_free (suc o) == 1
          then record mid { next_free_page = update low (suc o) a }
          else record mid { next_free_page = low })
        ≡ record mid { next_free_page = if nearer then update low (suc o) a else low }
  next_up low e =
      let test : (ltb a (low (suc o)) || mid.pages_free (suc o) == 1) ≡ nearer = ground arith in
      rw test (elim (Bool-cases nearer) [ inl near ↦ rw near | inr far ↦ rw far ])

  merge_at-hit :
      (k : ℕ)
      → hit ≡ true
      → find_next_free_page mid o (a * 2 + 2) ≡ (k, mid)
      → merge_at map o (a * 2) ≡ merged k
  merge_at-hit k own found =
      merge_at-mid ∙ rw (found, own) (next_up (update map.next_free_page o k) (ground arith))

  merge_at-miss : hit ≡ false → merge_at map o (a * 2) ≡ merged 0
  merge_at-miss other = merge_at-mid ∙ rw other (next_up map.next_free_page refl)

  merge_at_lem :
      (k : ℕ) × (merge_at map o (a * 2) ≡ merged k)
      × (hit ≡ true → RowOk (bit o) (blocks map o) (mid.pages_free o) k)
  merge_at_lem = elim (Bool-cases hit) [
    | inl own ↦
        let (k, found, row) =
          find_next_free_page_total mid o (a * 2 + 2) (omega (arith, below)) (low_full own)
            mid_counted in
        (k, merge_at-hit k own found, λ h. row)
    | inr other ↦ (0, merge_at-miss other, λ h. cc)
  ]

  module _ (k : ℕ) (row : hit ≡ true → RowOk (bit o) (blocks map o) (mid.pages_free o) k) where
    abbrev after : BpaMap
    after = merged k

    abbrev RowsOk : ℕ → Type 0
    RowsOk b = RowOk (bit b) (blocks map b) (after.pages_free b) (after.next_free_page b)

    merge_row_high : RowsOk (suc o)
    merge_row_high = RowOk-eq (ground arith) (ground arith) (
        RowOk-add (block_check map (suc o)) (bit (suc o)) (blocks map (suc o))
          (map.pages_free (suc o)) (map.next_free_page (suc o)) (v.rows (suc o) bound) a below_up
          parent_full high_bits)

    merge_row_kept :
        hit ≡ false → RowOk (bit o) (blocks map o) (mid.pages_free o) (map.next_free_page o)
    merge_row_kept other = record {
      counted = mid_counted;
      first = λ pos. record {
        above = omega arith;
        below = low-IsFirst.below;
        clear =
            ground (arith, low_bits (map.next_free_page o) low-IsFirst.below, low-IsFirst.clear);
        before = λ x p lt.
            ground (arith, low_bits x (omega (arith, lt, low-IsFirst.below)), low-IsFirst.before x);
      };
    }

    merge_row_low : RowsOk o
    merge_row_low = elim (Bool-cases hit) [
      | inl own ↦ RowOk-eq (ground arith) (ground arith) (row own)
      | inr other ↦ RowOk-eq (ground arith) (ground arith) (merge_row_kept other)
    ]

    merge_row_other : (b : ℕ) → b < max_order → (suc o == b) ≡ false → (o == b) ≡ false → RowsOk b
    merge_row_other b h e e' = RowOk-eq (ground arith) (ground arith) (
        RowOk-congr (block_check map b) (bit b) (blocks map b) (map.pages_free b)
          (map.next_free_page b) (λ j lt. ground (arith, merge_bits b j (Inside-of b j h lt)))
          (v.rows b h))

    merge-rows : (b : ℕ) → b < max_order → RowsOk b
    merge-rows b h = elim (Bool-cases (suc o == b)) [
      | inl e ↦ subst RowsOk (==→eq _ _ e) merge_row_high
      | inr e ↦ elim (Bool-cases (o == b)) [
        | inl e' ↦ subst RowsOk (==→eq _ _ e') merge_row_low
        | inr e' ↦ merge_row_other b h e e'
      ]
    ]
