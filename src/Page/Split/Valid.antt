-- ===== src/Page/Split/Valid.antt =====
-- kernel/page.c: after a split the allocator's invariant holds again, and no page has become free or
-- stopped being free.
use synos.Prelude.{
  ℕ, zero, suc, ◌+◌, ◌-◌, ◌*◌, ◌/◌, ◌≤◌, ◌<◌, ◌≡◌, sym, ap, ◌∙◌, subst, Bool, true, false, ◌&&◌,
  inl, inr, arith, ◌==◌, ◌≢◌, Bool-cases, ==→eq, ◌⊎◌,
}
use native.Mathlib.Numerals.{add-one}
use synos.Page.Order.{max_order, free_area_length}
use synos.Page.State.{BpaMap, bit_at, block_check, blocks}
use synos.Page.Row.{IsFirst}
use synos.Page.RowOk.{RowOk, RowOk-eq, RowOk-congr, RowOk-take, RowOk-add_pair}
use synos.Page.Bitmap.{bitmap_bytes, Inside, free_area_length-le-bits}
use synos.Page.Inv.{IsValid, FreeIn, IsFree}
use synos.Page.Split.{
  n, table, split_map, first_lem, halves_below, split_bits, own_bits, free_area_length-half,
  Inside_up,
}

module _ (map : BpaMap) (v : IsValid map) (u : ℕ) (bound : suc u < max_order)
    (pos : 0 < map.pages_free (suc u)) where
  abbrev m : ℕ
  m = n map v u bound pos

  abbrev bit : ℕ → ℕ → Bool
  bit o j = bit_at (table map v u bound pos) map.free_area o j

  below-Inside : (o j : ℕ) → o < max_order → j < blocks map o → Inside map.pages o j
  below-Inside o j h lt = (h, omega (arith, lt, free_area_length-le-bits map.pages o))

  block_clear_lem : block_check map (suc u) m ≡ false
  block_clear_lem = (first_lem map v u bound pos).clear

  -- Neither half was free: it lay in a free block.
  half_full : (j : ℕ) → j / 2 ≡ m → j < blocks map u → block_check map u j ≡ true
  unfolding free_area_length
  half_full j e lt = elim (Bool-cases (block_check map u j)) [
    | inl full ↦ full
    | inr clear ↦
        let up : block_check map (u + 1) (j / 2) ≡ true = v.alone u 0 j (omega arith) lt clear in
        let at_parent : block_check map (suc u) (j / 2) ≡ true = rw (add-one u) at up in
        cc (at_parent, block_clear_lem, ap (block_check map (suc u)) e)
  ]

  module _ (k : ℕ) where
    abbrev after : BpaMap
    after = split_map map v u bound pos k

    abbrev RowsOk : ℕ → Type 0
    RowsOk o = RowOk (bit o) (blocks map o) (after.pages_free o) (after.next_free_page o)

    split-row_block :
        (0 < map.pages_free (suc u) - 1 → IsFirst (bit (suc u)) 0 (blocks map (suc u)) k)
        → RowsOk (suc u)
    split-row_block first = RowOk-eq (ground arith) (ground arith) (
        RowOk-take (block_check map (suc u)) (bit (suc u)) (blocks map (suc u))
          (map.pages_free (suc u)) m (v.rows (suc u) bound) k pos (own_bits map v u bound pos)
          first)

    split-row_half : RowsOk u
    split-row_half = RowOk-eq (ground arith) (ground arith) (
        RowOk-add_pair (block_check map u) (bit u) (blocks map u) (map.pages_free u)
          (map.next_free_page u) (m * 2) (v.rows u (omega arith)) (halves_below map v u bound pos)
          (half_full (m * 2) (omega arith) (omega (arith, halves_below map v u bound pos)))
          (half_full (m * 2 + 1) (omega arith) (halves_below map v u bound pos))
          (λ j h.
            ground (arith, split_bits map v u bound pos u j (below-Inside u j (omega arith) h))))

    split-row_other : (o : ℕ) → o < max_order → (suc u == o) ≡ false → (u == o) ≡ false → RowsOk o
    split-row_other o h e e' = RowOk-eq (ground arith) (ground arith) (
        RowOk-congr (block_check map o) (bit o) (blocks map o) (map.pages_free o)
          (map.next_free_page o)
          (λ j lt. ground (arith, split_bits map v u bound pos o j (below-Inside o j h lt)))
          (v.rows o h))

    split-rows :
        (0 < map.pages_free (suc u) - 1 → IsFirst (bit (suc u)) 0 (blocks map (suc u)) k)
        → (o : ℕ) → o < max_order
        → RowsOk o
    split-rows first o h = elim (Bool-cases (suc u == o)) [
      | inl e ↦ subst RowsOk (==→eq _ _ e) (split-row_block first)
      | inr e ↦ elim (Bool-cases (u == o)) [
        | inl e' ↦ subst RowsOk (==→eq _ _ e') split-row_half
        | inr e' ↦ split-row_other o h e e'
      ]
    ]

  -- What the new bits say of the old ones.
  clear_before :
      (o i : ℕ)
      → o < max_order
      → i < blocks map o
      → bit o i ≡ false
      → (block_check map o i ≡ false) ⊎ ((o ≡ u) × (i / 2 ≡ m))
  clear_before o i h lt clear =
      ground (arith, split_bits map v u bound pos o i (below-Inside o i h lt))

  split-alone_old :
      (o d i : ℕ)
      → o + suc d < max_order
      → i < blocks map o
      → block_check map o i ≡ false
      → bit (o + suc d) (free_area_length i (suc d)) ≡ true
  unfolding free_area_length
  split-alone_old o d i h lt clear = ground (
    arith,
    split_bits map v u bound pos (o + suc d) (free_area_length i (suc d))
        (h, Inside_up map.pages o (suc d) i (below-Inside o i (omega arith) lt).1),
    v.alone o d i h lt clear,
    above,
  )
    where
      -- The block above is not a half of the split one, whose own ancestor would be that block.
      above : o + suc d ≡ u → free_area_length i (suc d) / 2 ≢ m
      above e e' =
          let up : block_check map (o + suc (suc d)) (free_area_length i (suc (suc d))) ≡ true =
            v.alone o (suc d) i (omega arith) lt clear in
          let order_lem : o + suc (suc d) ≡ suc u = omega arith in
          let at_block : block_check map (suc u) m ≡ true = rw (order_lem, e') at up in
          ground (arith, block_clear_lem)

  split-alone_half :
      (d i : ℕ)
      → u + suc d < max_order
      → i / 2 ≡ m
      → i < blocks map u
      → bit (u + suc d) (free_area_length i (suc d)) ≡ true
  unfolding free_area_length
  split-alone_half zero i h e lt =
      rw (add-one u, e)
        (ground (
          arith,
          split_bits map v u bound pos (suc u) m
              (below-Inside (suc u) m bound (first_lem map v u bound pos).below),
        ))
  split-alone_half (suc d) i h e lt =
      let order_lem : suc u + suc d ≡ u + suc (suc d) = omega arith in
      let up : block_check map (suc u + suc d) (free_area_length m (suc d)) ≡ true =
        v.alone (suc u) d m (omega arith) (first_lem map v u bound pos).below block_clear_lem in
      let same : free_area_length m (suc d) ≡ free_area_length i (suc (suc d)) =
        ap (λ x. free_area_length x (suc d)) (sym e) ∙ free_area_length-half i (suc d) in
      let old : block_check map (u + suc (suc d)) (free_area_length i (suc (suc d))) ≡ true =
        rw (order_lem, same) at up in
      ground (
        arith,
        old,
        split_bits map v u bound pos (u + suc (suc d)) (free_area_length i (suc (suc d)))
            (h, Inside_up map.pages u (suc (suc d)) i (below-Inside u i (omega arith) lt).1),
      )

  split-alone :
      (o d i : ℕ)
      → o + suc d < max_order
      → i < blocks map o
      → bit o i ≡ false
      → bit (o + suc d) (free_area_length i (suc d)) ≡ true
  split-alone o d i h lt clear = elim (clear_before o i (omega arith) lt clear) [
    | inl old ↦ split-alone_old o d i h lt old
    | inr (e, e') ↦ rw e (split-alone_half d i (rw e at h) e' (rw e at lt))
  ]

  split-padded :
      (o i : ℕ)
      → o < max_order
      → blocks map o ≤ i
      → i < 8 * bitmap_bytes map.pages o
      → bit o i ≡ true
  split-padded o i h lt inside = ground (
    arith,
    split_bits map v u bound pos o i (h, inside),
    v.padded o i h lt inside,
    halves_below map v u bound pos,
  )

  pub split-IsValid :
      (k : ℕ)
      → (0 < map.pages_free (suc u) - 1 → IsFirst (bit (suc u)) 0 (blocks map (suc u)) k)
      → IsValid (split_map map v u bound pos k)
  split-IsValid k first = record {
    apart = v.apart;
    small = v.small;
    rows = split-rows k first;
    alone = split-alone;
    padded = split-padded;
  }

  -- A page of the split block lies in one of its halves.
  FreeIn-half :
      (k p : ℕ) → free_area_length p (suc u) ≡ m → FreeIn (split_map map v u bound pos k) p u
  unfolding free_area_length
  FreeIn-half k p e = record {
    order = omega arith;
    block = inside;
    clear = ground (
      arith,
      split_bits map v u bound pos u (free_area_length p u)
          (below-Inside u (free_area_length p u) (omega arith) inside),
    );
  }
    where
      inside : free_area_length p u < blocks map u
      inside = omega (arith, e, halves_below map v u bound pos)

  FreeIn-other :
      (k p o : ℕ)
      → FreeIn map p o
      → ((suc u == o) && (free_area_length p o == m)) ≡ false
      → FreeIn (split_map map v u bound pos k) p o
  FreeIn-other k p o f ne = record {
    order = f.order;
    block = f.block;
    clear = ground (
      arith,
      f.clear,
      split_bits map v u bound pos o (free_area_length p o)
          (below-Inside o (free_area_length p o) f.order f.block),
    );
  }

  pub split-IsFree : (k p : ℕ) → IsFree map p → IsFree (split_map map v u bound pos k) p
  split-IsFree k p (o, f) = elim (Bool-cases ((suc u == o) && (free_area_length p o == m))) [
    | inl e ↦ (u, FreeIn-half k p (own e))
    | inr e ↦ (o, FreeIn-other k p o f e)
  ]
    where
      own : ((suc u == o) && (free_area_length p o == m)) ≡ true → free_area_length p (suc u) ≡ m
      own e =
          let same : suc u ≡ o = ground arith in
          let at_o : free_area_length p o ≡ m = ground arith in rw same at_o

  IsFree-before :
      (k p o : ℕ)
      → FreeIn (split_map map v u bound pos k) p o
      → (block_check map o (free_area_length p o) ≡ false)
        ⊎ ((o ≡ u) × (free_area_length p o / 2 ≡ m))
      → IsFree map p
  unfolding free_area_length
  IsFree-before k p o f (inl old) = (o, record { order = f.order; block = f.block; clear = old })
  IsFree-before k p o f (inr (e, e')) =
      let at_block : free_area_length p (suc u) ≡ m =
        ap (λ x. free_area_length p x / 2) (sym e) ∙ e' in
      (
        suc u,
        record {
          order = bound;
          block = rw at_block (first_lem map v u bound pos).below;
          clear = rw at_block block_clear_lem;
        },
      )

  pub split-IsFree⁻¹ : (k p : ℕ) → IsFree (split_map map v u bound pos k) p → IsFree map p
  split-IsFree⁻¹ k p (o, f) =
      IsFree-before k p o f (clear_before o (free_area_length p o) f.order f.block f.clear)
