-- ===== src/Page/Reserve/Take.antt =====
-- kernel/page.c: taking one free block of an order, as `pages_reserve` does.
use synos.Prelude.{
  ℕ, ◌+◌, ◌-◌, ◌<◌, ◌≡◌, refl, sym, ap, ◌∙◌, subst, true, false, inl, inr, Option, some, none,
  arith, ◌==◌, Bool-cases, ==→eq, sub64, update, if◌then◌else◌,
}
use mathlib.Core.Path.{fun_ext}
use synos.Page.Order.{max_order}
use synos.Page.State.{
  BpaMap, block_check, block_set, blocks, find_next_free_page, first_clear, set_pages_free,
}
use synos.Page.Row.{clear_count_pos, clear_count-set, IsFirst}
use synos.Page.Inv.{IsValid, pages_free-lt, find_next_free_page_lem}
use synos.Page.Alloc.{bit, taken_map, take_row, take-IsValid, take_free, take_keeps, take_before}
use synos.Page.Alloc.Spec.{TakesBlock}
use synos.Page.Buddy.{dec_pages_free, reserve_at}

update-same : (f : ℕ → ℕ) (o v : ℕ) → f o ≡ v → update f o v ≡ f
update-same f o v e = fun_ext (λ j. elim (Bool-cases (o == j)) [
  | inl own ↦ rw own (sym e ∙ ap f (==→eq _ _ own))
  | inr other ↦ rw other refl
])

update-update : (f : ℕ → ℕ) (o a b : ℕ) → update (update f o a) o b ≡ update f o b
update-update f o a b =
    fun_ext (λ j. elim (Bool-cases (o == j)) [ inl own ↦ rw own refl | inr other ↦ rw other refl ])

module _ (map : BpaMap) (v : IsValid map) (o : ℕ) (bound : o < max_order) (n : ℕ)
    (below : n < blocks map o) (clear : block_check map o n ≡ false) where
  Taken : BpaMap → Type 0
  Taken after =
      (k : ℕ) × (after ≡ taken_map map v o bound n below clear k)
      × (0 < map.pages_free o - 1 → IsFirst (bit map v o bound n below clear o) 0 (blocks map o) k)

  counts : 0 < map.pages_free o
  counts = omega (
    arith,
    (v.rows o bound).counted,
    clear_count_pos (block_check map o) n (blocks map o) below clear,
  )

  one_less : sub64 (map.pages_free o) 1 ≡ map.pages_free o - 1
  one_less = omega (arith, counts, pages_free-lt map v o bound)

  abbrev counted_map : BpaMap
  counted_map = dec_pages_free (block_set map o n) o

  -- The bitmap row after the bit is set.
  row :
      (j : ℕ)
      → j < blocks map o
      → bit map v o bound n below clear o j ≡ (if n == j then true else block_check map o j)
  row j h = ground (arith, take_row map v o bound n below clear o j bound h)

  next_as :
      (k : ℕ) {f : ℕ → ℕ}
      → update map.next_free_page o k ≡ f
      → taken_map map v o bound n below clear k
        ≡ record (taken_map map v o bound n below clear k) { next_free_page = f }
  next_as k e = ap (λ f. record (taken_map map v o bound n below clear k) { next_free_page = f }) e

  reserve_other : (map.next_free_page o == n) ≡ false → Taken (reserve_at map o n)
  unfolding Taken reserve_at
  reserve_other other =
      let w = (v.rows o bound).first counts in
      (
        map.next_free_page o,
        rw (other, one_less)
            (sym (
              next_as (map.next_free_page o)
                (update-same map.next_free_page o (map.next_free_page o) refl))),
        λ h. record {
          above = omega arith;
          below = w.below;
          clear = ground (arith, row (map.next_free_page o) w.below, w.clear, other);
          before = λ x a b. ground (arith, row x (omega (arith, b, w.below)), w.before x a b);
        },
      )

  -- Another block of the order is free.
  reserve_more :
      (map.next_free_page o == n) ≡ true → 0 < map.pages_free o - 1 → Taken (reserve_at map o n)
  unfolding Taken reserve_at
  reserve_more own more =
      let less =
        clear_count-set (block_check map o) (bit map v o bound n below clear o) n (blocks map o)
          below clear row in
      let w = (v.rows o bound).first counts in
      let (i, found, first) =
        find_next_free_page_lem counted_map o (n + 1) (omega (arith, below))
          (λ x lt.
            ground
              (arith, row x (omega (arith, lt, below)), w.before x (omega arith), ==→eq _ _ own))
          (omega (arith, less, more, (v.rows o bound).counted)) in
      (i, rw (own, found, one_less) refl, λ h. first)

  -- It was the last one.
  reserve_last :
      (map.next_free_page o == n) ≡ true
      → map.pages_free o ≡ 1
      → (s : Option ℕ)
      → first_clear (block_check counted_map o) (blocks map o - (n + 1)) (n + 1) ≡ s
      → Taken (reserve_at map o n)
  unfolding Taken reserve_at find_next_free_page
  reserve_last own last (some i) e =
      let found : find_next_free_page counted_map o (n + 1) ≡ (i, counted_map) =
        rw (find_next_free_page, e) refl in
      (i, rw (own, found, one_less) refl, λ h. absurd (omega (arith, h, last)))
  reserve_last own last none e =
      let found : find_next_free_page counted_map o (n + 1) ≡ (0, set_pages_free counted_map o 0) =
        rw (find_next_free_page, e) refl in
      let none_left : record (taken_map map v o bound n below clear 0) {
        pages_free = update (update map.pages_free o (sub64 (map.pages_free o) 1)) o 0;
      }
          ≡ taken_map map v o bound n below clear 0 =
        ap (λ c. record (taken_map map v o bound n below clear 0) { pages_free = c })
          (update-update map.pages_free o (sub64 (map.pages_free o) 1) 0
            ∙ ap (λ x. update map.pages_free o x) (omega (arith, last))) in
      (0, rw (own, found) none_left, λ h. absurd (omega (arith, h, last)))

  reserve_own : (map.next_free_page o == n) ≡ true → Taken (reserve_at map o n)
  reserve_own own = elim (Bool-cases (map.pages_free o == 1)) [
    | inl last ↦ reserve_last own (==→eq _ _ last) _ refl
    | inr more ↦ reserve_more own (ground (arith, counts, more))
  ]

  reserve-Taken : Taken (reserve_at map o n)
  reserve-Taken = elim (Bool-cases (map.next_free_page o == n)) [
    | inr other ↦ reserve_other other
    | inl own ↦ reserve_own own
  ]

  pub reserve_at-TakesBlock : TakesBlock map o n (reserve_at map o n)
  unfolding Taken
  reserve_at-TakesBlock =
      let (k, e, first) = reserve-Taken in
      subst (TakesBlock map o n) (sym e) (record {
        inside = below;
        valid = take-IsValid map v o bound n below clear k first;
        pages = refl;
        was_free = λ p h. (o, take_free map v o bound n below clear p h);
        kept = take_keeps map v o bound n below clear k;
        others = take_before map v o bound n below clear k;
      })
