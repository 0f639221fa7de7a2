-- ===== src/Page/Alloc.antt =====
-- kernel/page.c: taking the first free block of an order (the first branch of `pages_alloc`).
pub mod Spec
use synos.Prelude.{
  ℕ, zero, suc, ◌+◌, ◌-◌, ◌*◌, ◌^◌, ◌≤◌, ◌<◌, ◌≡◌, refl, sym, ap, ◌∙◌, subst, Bool, true, false,
  inl, inr, arith, ltb, ◌==◌, ◌≢◌, if◌then◌else◌, update, Bool-cases, ==→eq, ltb→lt,
}
use synos.Page.Order.{max_order, free_area_length}
use synos.Page.State.{BpaMap, bit_at, put_bit, block_check, block_set, blocks}
use synos.Page.Row.{clear_count-set, IsFirst}
use synos.Page.RowOk.{RowOk, RowOk-eq, RowOk-congr, RowOk-set}
use synos.Page.Bitmap.{
  bitmap_bytes, Inside, free_area_length-le-bits, free_area_length-le, bit_at-put_bit,
}
use synos.Page.Inv.{IsValid, pages_free-lt, FreeIn, IsFree, IsTaken, advance_lem}
use synos.Page.Split.{Inside_up}
use synos.Page.Buddy.{advance}

pub free_area_length-add :
    (p a d : ℕ) → free_area_length (free_area_length p a) d ≡ free_area_length p (a + d)
unfolding free_area_length
free_area_length-add p a zero = let e : a + 0 ≡ a = omega arith in rw e refl
free_area_length-add p a (suc d) =
    let e : a + suc d ≡ suc (a + d) = omega arith in
    rw e (omega (arith, free_area_length-add p a d))

-- A page is not in free blocks of two orders.
not_in_higher :
    (map : BpaMap) → IsValid map → (p a b : ℕ) → FreeIn map p a → FreeIn map p b → ¬ (a < b)
not_in_higher map v p a b f g lt =
    let d : ℕ = b - a - 1 in
    let e : a + suc d ≡ b = omega arith in
    let up : block_check map (a + suc d) (free_area_length (free_area_length p a) (suc d)) ≡ true =
      v.alone a d (free_area_length p a) (omega (arith, g.order)) f.block f.clear in
    let at_b : block_check map b (free_area_length p b) ≡ true =
      rw (free_area_length-add p a (suc d), e) at up in
    ground (arith, g.clear)

pub FreeIn-unique :
    (map : BpaMap) → IsValid map → (p a b : ℕ) → FreeIn map p a → FreeIn map p b → a ≡ b
FreeIn-unique map v p a b f g = elim (Bool-cases (ltb a b)) [
  | inl lt ↦ absurd (not_in_higher map v p a b f g (ltb→lt _ _ lt))
  | inr ge ↦ elim (Bool-cases (ltb b a)) [
    | inl lt ↦ absurd (not_in_higher map v p b a g f (ltb→lt _ _ lt))
    | inr le ↦ ground arith
  ]
]

module _ (map : BpaMap) (v : IsValid map) (o : ℕ) (bound : o < max_order) (n : ℕ)
    (below : n < blocks map o) (clear : block_check map o n ≡ false) where
  abbrev pub bit : ℕ → ℕ → Bool
  bit a j = bit_at (put_bit map.table map.free_area o n) map.free_area a j

  take_bits :
      (a j : ℕ)
      → a < max_order
      → j < 8 * bitmap_bytes map.pages a
      → bit a j
        ≡ (if o == a then if n == j then true else block_check map a j else block_check map a j)
  take_bits a j h lt =
      bit_at-put_bit map.free_area map.pages v.apart map.table o n a j
        (bound, omega (arith, below, free_area_length-le-bits map.pages o)) (h, lt)

  pub take_row :
      (a j : ℕ)
      → a < max_order
      → j < blocks map a
      → bit a j
        ≡ (if o == a then if n == j then true else block_check map a j else block_check map a j)
  take_row a j h lt = take_bits a j h (omega (arith, lt, free_area_length-le-bits map.pages a))

  abbrev pub taken_map : ℕ → BpaMap
  taken_map k = record map {
    table = put_bit map.table map.free_area o n;
    pages_free = update map.pages_free o (map.pages_free o - 1);
    next_free_page = update map.next_free_page o k;
  }

  take-rows :
      (k : ℕ)
      → (0 < map.pages_free o - 1 → IsFirst (bit o) 0 (blocks map o) k)
      → (a : ℕ) → a < max_order
      → RowOk (bit a) (blocks map a) ((taken_map k).pages_free a) ((taken_map k).next_free_page a)
  take-rows k first a h = elim (Bool-cases (o == a)) [
    | inl e ↦
        subst
          (λ b.
            RowOk (bit b) (blocks map b) ((taken_map k).pages_free b)
              ((taken_map k).next_free_page b))
          (==→eq _ _ e)
          (RowOk-eq (ground arith) (ground arith) (
            RowOk-set (block_check map o) (bit o) (blocks map o) (map.pages_free o)
              (map.next_free_page o) (v.rows o bound) n k below clear
              (λ j lt. ground (arith, take_row o j bound lt)) first))
    | inr e ↦ RowOk-eq (ground arith) (ground arith) (
        RowOk-congr (block_check map a) (bit a) (blocks map a) (map.pages_free a)
          (map.next_free_page a) (λ j lt. ground (arith, take_row a j h lt)) (v.rows a h))
  ]

  pub take-IsValid :
      (k : ℕ)
      → (0 < map.pages_free o - 1 → IsFirst (bit o) 0 (blocks map o) k)
      → IsValid (taken_map k)
  take-IsValid k first = record {
    apart = v.apart;
    small = v.small;
    rows = take-rows k first;
    alone = λ a d i h lt open_bit. ground (
      arith,
      take_row a i (omega (arith, h)) lt,
      take_bits (a + suc d) (free_area_length i (suc d)) h (
          Inside_up map.pages a (suc d) i
            (omega (arith, lt, free_area_length-le-bits map.pages a))),
      v.alone a d i h lt,
    );
    padded = λ a i h lt inside. ground (arith, take_bits a i h inside, v.padded a i h lt inside);
  }

  -- The pages of the block were free, and are the only ones that no longer are.
  pub take_free : (p : ℕ) → free_area_length p o ≡ n → FreeIn map p o
  take_free p e = record { order = bound; block = rw e below; clear = rw e clear }

  pub take_keeps : (k p : ℕ) → IsFree map p → free_area_length p o ≢ n → IsFree (taken_map k) p
  take_keeps k p (a, f) ne = (
    a,
    record {
      order = f.order;
      block = f.block;
      clear = ground (arith, take_row a (free_area_length p a) f.order f.block, f.clear, other);
    },
  )
    where
      other : o ≡ a → free_area_length p a ≢ n
      other e = rw (← e) ne

  pub take_before : (k p : ℕ) → IsFree (taken_map k) p → IsFree map p × (free_area_length p o ≢ n)
  take_before k p (a, f) = ((a, old), λ e. taken e)
    where
      still :
          (block_check map a (free_area_length p a) ≡ false)
          × ¬ ((o ≡ a) × (free_area_length p a ≡ n))
      still = ground (arith, take_row a (free_area_length p a) f.order f.block, f.clear)

      old : FreeIn map p a
      old = record { order = f.order; block = f.block; clear = still.0 }

      taken : free_area_length p o ≡ n → ⊥
      taken e =
          let same : o ≡ a = FreeIn-unique map v p o a (take_free p e) old in
          still.1 (same, rw (← same) e)

-- The first free block of the order.
module _ (map : BpaMap) (v : IsValid map) (o : ℕ) (bound : o < max_order)
    (pos : 0 < map.pages_free o) where
  abbrev first_block : ℕ
  first_block = map.next_free_page o

  pub taken-IsFirst : IsFirst (block_check map o) 0 (blocks map o) first_block
  taken-IsFirst = (v.rows o bound).first pos

  first_row :
      (j : ℕ)
      → j < blocks map o
      → bit map v o bound first_block taken-IsFirst.below taken-IsFirst.clear o j
        ≡ (if first_block == j then true else block_check map o j)
  first_row j h = ground (
    arith,
    take_row map v o bound first_block taken-IsFirst.below taken-IsFirst.clear o j bound h,
  )

  take-IsTaken : IsTaken (block_set map o first_block) o
  take-IsTaken = record {
    small = pages_free-lt map v o bound;
    counted =
        (v.rows o bound).counted
        ∙ sym (
            clear_count-set (block_check map o) _ first_block (blocks map o) taken-IsFirst.below
              taken-IsFirst.clear first_row);
    below = taken-IsFirst.below;
    short = omega (arith, free_area_length-le map.pages o, v.small);
    full = λ x h.
        ground (arith, first_row x (omega (arith, h, taken-IsFirst.below)), taken-IsFirst.before x);
  }

  pub take_lem :
      (k : ℕ) × (advance (block_set map o first_block) o
        ≡ taken_map map v o bound first_block taken-IsFirst.below taken-IsFirst.clear k)
      × (0 < map.pages_free o - 1
          → IsFirst
              (bit map v o bound first_block taken-IsFirst.below taken-IsFirst.clear o)
              0
              (blocks map o)
              k)
  take_lem =
      let (k, a) = advance_lem (block_set map o first_block) o take-IsTaken in
      (k, a.result, a.first)
