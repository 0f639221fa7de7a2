-- ===== src/Page/Merge/Valid.antt =====
-- kernel/page.c: after one round of `block_merge` the allocator's invariant holds again, and no page
-- has become free or stopped being free.
use synos.Prelude.{
  ℕ, zero, suc, ◌+◌, ◌*◌, ◌/◌, ◌≤◌, ◌<◌, ◌≡◌, ◌≢◌, refl, sym, ap, ◌∙◌, true, false, ◌&&◌, inl, inr,
  arith, ◌==◌, Bool-cases, ==→eq, ◌⊎◌,
}
use synos.Page.Order.{max_order, free_area_length}
use synos.Page.State.{BpaMap, block_check, blocks}
use synos.Page.RowOk.{RowOk}
use synos.Page.Bitmap.{bitmap_bytes}
use synos.Page.Inv.{IsValid, FreeIn, IsFree, Refines}
use synos.Page.Split.{Inside_up, free_area_length-half}
use synos.Page.Merge.{
  bit, mid, hit, merged, merge_bits, Inside-of, below_up, merge-rows, merge_at_lem,
}
use synos.Page.Buddy.{merge_at}

module _ (map : BpaMap) (v : IsValid map) (o : ℕ) (bound : suc o < max_order) (a : ℕ)
    (below : a * 2 + 1 < blocks map o) (left : block_check map o (a * 2) ≡ false)
    (right : block_check map o (a * 2 + 1) ≡ false) where
  -- The halves of the block are free in `map`.
  half_clear : (j : ℕ) → j / 2 ≡ a → block_check map o j ≡ false
  half_clear j e = elim (Bool-cases (j == a * 2)) [
    | inl low ↦ let same : j ≡ a * 2 = ==→eq _ _ low in rw same left
    | inr high ↦ let same : j ≡ a * 2 + 1 = ground (arith, e) in rw same right
  ]

  -- What the new bits say of the old ones.
  clear_before :
      (b i : ℕ)
      → b < max_order
      → i < blocks map b
      → bit map v o bound a below left right b i ≡ false
      → ((block_check map b i ≡ false) × (o ≡ b → i / 2 ≢ a)) ⊎ ((b ≡ suc o) × (i ≡ a))
  clear_before b i h lt clear = ground (
    arith,
    merge_bits map v o bound a below left right b i
        (Inside-of map v o bound a below left right b i h lt),
  )

  -- The block above an old free block is not the new one.
  apart :
      (b d i : ℕ)
      → i < blocks map b
      → block_check map b i ≡ false
      → (o ≡ b → i / 2 ≢ a)
      → suc o ≡ b + suc d
      → free_area_length i (suc d) ≡ a
      → ⊥
  unfolding free_area_length
  apart b zero i lt clear other e e' = other (omega (arith, e)) e'
  apart b (suc d) i lt clear other e e' =
      let at_order : b + suc d ≡ o = omega (arith, e) in
      let up : block_check map (b + suc d) (free_area_length i (suc d)) ≡ true =
        v.alone b d i (omega (arith, e, bound)) lt clear in
      let full : block_check map o (free_area_length i (suc d)) ≡ true = rw at_order at up in
      ground (arith, full, half_clear (free_area_length i (suc d)) e')

  merge_alone_old :
      (b d i : ℕ)
      → b + suc d < max_order
      → i < blocks map b
      → block_check map b i ≡ false
      → (o ≡ b → i / 2 ≢ a)
      → bit map v o bound a below left right (b + suc d) (free_area_length i (suc d)) ≡ true
  merge_alone_old b d i h lt clear other = ground (
    arith,
    merge_bits map v o bound a below left right (b + suc d) (free_area_length i (suc d)) (
      h,
      Inside_up map.pages b (suc d) i
          (Inside-of map v o bound a below left right b i (omega arith) lt).1,
    ),
    v.alone b d i h lt clear,
    apart b d i lt clear other,
  )

  -- The blocks above the new one were not free: its halves were.
  merge_alone_new :
      (d : ℕ)
      → suc o + suc d < max_order
      → bit map v o bound a below left right (suc o + suc d) (free_area_length a (suc d)) ≡ true
  merge_alone_new d h =
      let order_lem : o + suc (suc d) ≡ suc o + suc d = omega arith in
      let half : a * 2 / 2 ≡ a = omega arith in
      let same : free_area_length a (suc d) ≡ free_area_length (a * 2) (suc (suc d)) =
        ap (λ x. free_area_length x (suc d)) (sym half) ∙ free_area_length-half (a * 2) (suc d) in
      let up : block_check map (o + suc (suc d)) (free_area_length (a * 2) (suc (suc d))) ≡ true =
        v.alone o (suc d) (a * 2) (omega (arith, h)) (omega (arith, below)) left in
      let old : block_check map (suc o + suc d) (free_area_length a (suc d)) ≡ true =
        rw (order_lem, ← same) at up in
      ground (
        arith,
        old,
        merge_bits map v o bound a below left right (suc o + suc d) (free_area_length a (suc d)) (
          h,
          Inside_up map.pages (suc o) (suc d) a
              (Inside-of map v o bound a below left right (suc o) a bound
                (below_up map v o bound a below left right)).1,
        ),
      )

  merge_alone :
      (b d i : ℕ)
      → b + suc d < max_order
      → i < blocks map b
      → bit map v o bound a below left right b i ≡ false
      → bit map v o bound a below left right (b + suc d) (free_area_length i (suc d)) ≡ true
  merge_alone b d i h lt clear = elim (clear_before b i (omega arith) lt clear) [
    | inl (old, other) ↦ merge_alone_old b d i h lt old other
    | inr (e, e') ↦ rw (e, e') (merge_alone_new d (rw e at h))
  ]

  merge_padded :
      (b i : ℕ)
      → b < max_order
      → blocks map b ≤ i
      → i < 8 * bitmap_bytes map.pages b
      → bit map v o bound a below left right b i ≡ true
  merge_padded b i h le inside = ground (
    arith,
    merge_bits map v o bound a below left right b i (h, inside),
    v.padded b i h le inside,
    below_up map v o bound a below left right,
  )

  -- Pages of other blocks stay as they are.
  merge_free_other :
      (p b : ℕ)
      → FreeIn map p b
      → ((o == b) && (free_area_length p b / 2 == a)) ≡ false
      → (bit map v o bound a below left right b (free_area_length p b) ≡ false)
  merge_free_other p b f other = ground (
    arith,
    f.clear,
    merge_bits map v o bound a below left right b (free_area_length p b)
        (Inside-of map v o bound a below left right b (free_area_length p b) f.order f.block),
  )

  module _ (k : ℕ)
      (row : hit map v o bound a below left right ≡ true
        → RowOk
            (bit map v o bound a below left right o)
            (blocks map o)
            ((mid map v o bound a below left right).pages_free o)
            k) where
    merged-IsValid : IsValid (merged map v o bound a below left right k)
    merged-IsValid = record {
      apart = v.apart;
      small = v.small;
      rows = merge-rows map v o bound a below left right k row;
      alone = merge_alone;
      padded = merge_padded;
    }

    new-IsFree :
        (p : ℕ)
        → free_area_length p o / 2 ≡ a
        → IsFree (merged map v o bound a below left right k) p
    unfolding free_area_length
    new-IsFree p e = (
      suc o,
      record {
        order = bound;
        block = rw e (below_up map v o bound a below left right);
        clear = rw e (
            ground (
              arith,
              merge_bits map v o bound a below left right (suc o) a (
                  Inside-of map v o bound a below left right (suc o) a bound
                    (below_up map v o bound a below left right)),
            ));
      },
    )

    merged-kept : (p : ℕ) → IsFree map p → IsFree (merged map v o bound a below left right k) p
    merged-kept p (b, f) = elim (Bool-cases ((o == b) && (free_area_length p b / 2 == a))) [
      | inl own ↦
          let same : o ≡ b = ground (arith, own) in
          let at_b : free_area_length p b / 2 ≡ a = ground (arith, own) in
          new-IsFree p (rw (← same) at at_b)
      | inr other ↦
          (b, record { order = f.order; block = f.block; clear = merge_free_other p b f other })
    ]

    IsFree-before :
        (p b : ℕ)
        → FreeIn (merged map v o bound a below left right k) p b
        → ((block_check map b (free_area_length p b) ≡ false)
            × (o ≡ b → free_area_length p b / 2 ≢ a))
          ⊎ ((b ≡ suc o) × (free_area_length p b ≡ a))
        → IsFree map p
    unfolding free_area_length
    IsFree-before p b f (inl (old, other)) =
        (b, record { order = f.order; block = f.block; clear = old })
    IsFree-before p b f (inr (e, e')) =
        let at_block : free_area_length p o / 2 ≡ a = ap (λ x. free_area_length p x) (sym e) ∙ e' in
        (
          o,
          record {
            order = omega arith;
            block = omega (arith, at_block, below);
            clear = half_clear (free_area_length p o) at_block;
          },
        )

    merged-Refines : Refines map (merged map v o bound a below left right k)
    merged-Refines = record {
      valid = merged-IsValid;
      pages = refl;
      kept = merged-kept;
      added = λ p (b, f).
          IsFree-before p b f (clear_before b (free_area_length p b) f.order f.block f.clear);
    }

  -- One round of `block_merge` at two free buddies leaves a valid map with the same free pages, in
  -- which the block that they make up is free.
  pub merge_at-Refines :
      Refines map (merge_at map o (a * 2))
      × (block_check (merge_at map o (a * 2)) (suc o) a ≡ false)
  merge_at-Refines =
      let (k, e, row) = merge_at_lem map v o bound a below left right in
      rw e (
        merged-Refines k row,
        ground (
          arith,
          merge_bits map v o bound a below left right (suc o) a (
              Inside-of map v o bound a below left right (suc o) a bound
                (below_up map v o bound a below left right)),
        ),
      )
