-- ===== src/Page/Free/Clear.antt =====
-- kernel/page.c: the page that `page_free` gives back. Its bit is cleared, which keeps the invariant,
-- and then it is merged with its buddy as far as possible.
use synos.Prelude.{
  ℕ, suc, ◌+◌, ◌≤◌, ◌<◌, ◌≡◌, refl, sym, ap, subst, Bool, true, false, ◌||◌, ◌⊎◌, inl, inr, arith,
  ltb, ◌==◌, if◌then◌else◌, update, Bool-cases, ==→eq, ltb→lt, ltb→le, add64,
}
use synos.Page.Order.{max_order, free_area_length}
use synos.Page.State.{
  BpaMap, bit_at, drop_bit, block_check, block_clear, blocks, set_pages_free, set_next_free,
}
use synos.Page.RowOk.{RowOk, RowOk-eq, RowOk-congr, RowOk-add}
use synos.Page.Bitmap.{Inside, free_area_length-le-bits, bit_at-drop_bit}
use synos.Page.Inv.{IsValid, pages_free-lt, FreeIn, IsFree, Refines}
use synos.Page.Split.{Inside_up}
use synos.Page.Merge.Search.{update_same}
use synos.Page.Merge.Rounds.{Refines-refl, buddy-FreePair, block_merge-Refines}
use synos.Page.Buddy.{buddy_of, block_merge, free_block}

-- `after` is valid, and its free pages are those of `map` and the page `f`.
pub record GivesBack (map : BpaMap) (f : ℕ) (after : BpaMap) : Type 0 where
  pub valid : IsValid after
  pub pages : after.pages ≡ map.pages
  pub freed : IsFree after f
  pub kept : (q : ℕ) → IsFree map q → IsFree after q
  pub added : (q : ℕ) → IsFree after q → IsFree map q ⊎ (q ≡ f)

module _ (map : BpaMap) (v : IsValid map) (f : ℕ) (inside : f < map.pages)
    (taken : ¬ IsFree map f) where
  abbrev pub table : ℕ → ℕ
  table = drop_bit map.table map.free_area 0 f

  abbrev pub bit : ℕ → ℕ → Bool
  bit b j = bit_at table map.free_area b j

  pub inside_0 : f < blocks map 0
  unfolding free_area_length
  inside_0 = inside

  Inside-of : (b j : ℕ) → b < max_order → j < blocks map b → Inside map.pages b j
  Inside-of b j h lt = (h, omega (arith, lt, free_area_length-le-bits map.pages b))

  -- No block that the page lies in is free.
  pub full : (d : ℕ) → d < max_order → block_check map d (free_area_length f d) ≡ true
  full d h = elim (Bool-cases (block_check map d (free_area_length f d))) [
    | inl e ↦ e
    | inr clear ↦ elim (Bool-cases (ltb (free_area_length f d) (blocks map d))) [
      | inl lt ↦ absurd (taken (d, record { order = h; block = ltb→lt _ _ lt; clear = clear }))
      | inr ge ↦
          let same : 0 + d ≡ d = omega arith in
          v.padded d (free_area_length f d) h (ltb→le _ _ ge)
            (rw same at (Inside_up map.pages 0 d f (Inside-of 0 f (omega arith) inside_0).1))
    ]
  ]

  pub clear_bits :
      (b j : ℕ)
      → Inside map.pages b j
      → bit b j
        ≡ (if 0 == b then if f == j then false else block_check map b j else block_check map b j)
  clear_bits b j h = ground (
    arith,
    bit_at-drop_bit map.free_area map.pages v.apart map.table 0 f b j
        (Inside-of 0 f (omega arith) inside_0) h,
  )

  abbrev pub cleared : BpaMap
  cleared = record map {
    table = table;
    pages_free = update map.pages_free 0 (map.pages_free 0 + 1);
    next_free_page =
        if ltb f (map.next_free_page 0) || map.pages_free 0 == 0
        then update map.next_free_page 0 f
        else map.next_free_page;
  }

  abbrev RowsOk : ℕ → Type 0
  RowsOk b = RowOk (bit b) (blocks map b) (cleared.pages_free b) (cleared.next_free_page b)

  clear-row : RowsOk 0
  unfolding free_area_length
  clear-row = RowOk-eq (ground arith) (ground arith) (
      RowOk-add (block_check map 0) (bit 0) (blocks map 0) (map.pages_free 0) (map.next_free_page 0)
        (v.rows 0 (omega arith)) f inside_0 (full 0 (omega arith))
        (λ j lt. ground (arith, clear_bits 0 j (Inside-of 0 j (omega arith) lt))))

  clear-row_other : (b : ℕ) → b < max_order → (0 == b) ≡ false → RowsOk b
  clear-row_other b h e = RowOk-eq (ground arith) (ground arith) (
      RowOk-congr (block_check map b) (bit b) (blocks map b) (map.pages_free b)
        (map.next_free_page b) (λ j lt. ground (arith, clear_bits b j (Inside-of b j h lt)))
        (v.rows b h))

  clear-rows : (b : ℕ) → b < max_order → RowsOk b
  clear-rows b h = elim (Bool-cases (0 == b)) [
    | inl e ↦ subst RowsOk (==→eq _ _ e) clear-row
    | inr e ↦ clear-row_other b h e
  ]

  clear_before :
      (b i : ℕ)
      → b < max_order
      → i < blocks map b
      → bit b i ≡ false
      → (block_check map b i ≡ false) ⊎ ((b ≡ 0) × (i ≡ f))
  clear_before b i h lt clear = ground (arith, clear_bits b i (Inside-of b i h lt))

  clear_above :
      (b d i : ℕ)
      → b + suc d < max_order
      → i < blocks map b
      → block_check map (b + suc d) (free_area_length i (suc d)) ≡ true
      → bit (b + suc d) (free_area_length i (suc d)) ≡ true
  clear_above b d i h lt old = ground (
    arith,
    old,
    clear_bits (b + suc d) (free_area_length i (suc d))
        (h, Inside_up map.pages b (suc d) i (Inside-of b i (omega arith) lt).1),
  )

  clear_alone :
      (b d i : ℕ)
      → b + suc d < max_order
      → i < blocks map b
      → bit b i ≡ false
      → bit (b + suc d) (free_area_length i (suc d)) ≡ true
  clear_alone b d i h lt clear =
      clear_above b d i h lt (elim (clear_before b i (omega arith) lt clear) [
        | inl old ↦ v.alone b d i h lt old
        | inr (e, e') ↦
            let same : 0 + suc d ≡ suc d = omega arith in
            rw (e, e', same) (full (suc d) (omega (arith, h)))
      ])

  cleared-IsValid : IsValid cleared
  cleared-IsValid = record {
    apart = v.apart;
    small = v.small;
    rows = clear-rows;
    alone = clear_alone;
    padded = λ b i h le lt. ground (arith, clear_bits b i (h, lt), v.padded b i h le lt, inside_0);
  }

  cleared-FreeIn : (q b : ℕ) → FreeIn map q b → FreeIn cleared q b
  cleared-FreeIn q b w = record {
    order = w.order;
    block = w.block;
    clear = ground (
      arith,
      w.clear,
      clear_bits b (free_area_length q b) (Inside-of b (free_area_length q b) w.order w.block),
    );
  }

  cleared-page : FreeIn cleared f 0
  unfolding free_area_length
  cleared-page = record {
    order = omega arith;
    block = inside;
    clear = ground (arith, clear_bits 0 f (Inside-of 0 f (omega arith) inside_0));
  }

  IsFree-before :
      (q b : ℕ)
      → FreeIn cleared q b
      → (block_check map b (free_area_length q b) ≡ false) ⊎ ((b ≡ 0) × (free_area_length q b ≡ f))
      → IsFree map q ⊎ (q ≡ f)
  unfolding free_area_length
  IsFree-before q b w (inl old) = inl (b, record { order = w.order; block = w.block; clear = old })
  IsFree-before q b w (inr (e, e')) = inr (rw e at e')

  pub cleared-GivesBack : GivesBack map f cleared
  cleared-GivesBack = record {
    valid = cleared-IsValid;
    pages = refl;
    freed = (0, cleared-page);
    kept = λ q (b, w). (b, cleared-FreeIn q b w);
    added = λ q (b, w).
        IsFree-before q b w (clear_before b (free_area_length q b) w.order w.block w.clear);
  }

  -- The code's map is that one: when no page counts as free in order 0, the next free page must not
  -- lie below the page given back.
  marked_lem :
      (map.pages_free 0 ≡ 0 → f ≤ map.next_free_page 0)
      → (let map1 = block_clear map 0 f in
          let map2 = set_pages_free map1 0 (add64 (map1.pages_free 0) 1) in
          if ltb f (map2.next_free_page 0) then set_next_free map2 0 f else map2)
        ≡ cleared
  marked_lem near =
      let one_more : add64 (map.pages_free 0) 1 ≡ map.pages_free 0 + 1 =
        omega (arith, pages_free-lt map v 0 (omega arith)) in
      elim (Bool-cases (ltb f (map.next_free_page 0))) [
        | inl lower ↦ rw (one_more, lower) refl
        | inr higher ↦ elim (Bool-cases (map.pages_free 0 == 0)) [
          | inl empty ↦
              let same : map.next_free_page 0 ≡ f =
                omega (arith, near (==→eq _ _ empty), ltb→le _ _ higher) in
              rw (one_more, higher, empty)
                (ap
                  (λ (next : ℕ → ℕ). record map {
                    table = table;
                    pages_free = update map.pages_free 0 (map.pages_free 0 + 1);
                    next_free_page = next;
                  })
                  (sym (update_same map.next_free_page 0 f same)))
          | inr more ↦ rw (one_more, higher, more) refl
        ]
      ]

  abbrev merged_back : BpaMap
  merged_back = if block_check cleared 0 (buddy_of f) then cleared else block_merge cleared 0 f

  free_block_lem :
      (map.pages_free 0 ≡ 0 → f ≤ map.next_free_page 0) → free_block map 0 f ≡ merged_back
  unfolding free_block
  free_block_lem near = rw (marked_lem near) refl

  cleared-Refines : Refines cleared merged_back
  cleared-Refines = elim (Bool-cases (block_check cleared 0 (buddy_of f))) [
    | inl taken_buddy ↦ rw taken_buddy (Refines-refl cleared cleared-IsValid)
    | inr clear ↦ rw clear (
        block_merge-Refines cleared 0 f cleared-IsValid (omega arith) (
          buddy-FreePair cleared 0 f cleared-IsValid (omega arith) inside_0
            (unfold free_area_length in cleared-page.clear) clear))
  ]

  -- Freeing the page makes it free and changes no other page.
  pub free_block-GivesBack :
      (map.pages_free 0 ≡ 0 → f ≤ map.next_free_page 0) → GivesBack map f (free_block map 0 f)
  free_block-GivesBack near = rw (free_block_lem near) (record {
    valid = cleared-Refines.valid;
    pages = cleared-Refines.pages;
    freed = cleared-Refines.kept f (0, cleared-page);
    kept = λ q w. cleared-Refines.kept q (cleared-GivesBack.kept q w);
    added = λ q w. cleared-GivesBack.added q (cleared-Refines.added q w);
  })
