-- ===== src/Page/Merge/Search.antt =====
-- kernel/page.c: `find_next_free_page` on a map whose count is right, also when it finds nothing.
use synos.Prelude.{
  ℕ, ◌+◌, ◌-◌, ◌≤◌, ◌<◌, ◌≡◌, refl, ap, ◌∙◌, sym, true, false, Option, some, none, inl, inr, arith,
  ltb, ◌==◌, if◌then◌else◌, update, Bool, Bool-cases, ltb→lt, ==→eq,
}
use mathlib.Core.Path.{fun_ext}
use synos.Page.State.{BpaMap, block_check, blocks, first_clear, find_next_free_page, set_pages_free}
use synos.Page.Row.{clear_count, clear_count_pos, clear_count-set, Found, first_clear-Found}
use synos.Page.RowOk.{RowOk}
use synos.Page.Inv.{find_next_free_page_lem}

-- Writing the value that is there changes nothing.
pub update_same : (f : ℕ → ℕ) (k v : ℕ) → f k ≡ v → update f k v ≡ f
update_same f k v e = fun_ext λ j. elim (Bool-cases (k == j)) [
  | inl own ↦ rw own (sym (ap f (sym (==→eq k j own)) ∙ e))
  | inr other ↦ rw other refl
]

not-Found :
    (row : ℕ → Bool) (len start : ℕ) (o : Option ℕ)
    → start ≤ len
    → clear_count row len ≡ 0
    → Found row (len - start) start o
    → o ≡ none
not-Found row len start none le empty h = refl
not-Found row len start (some i) le empty h =
    absurd (omega (arith, clear_count_pos row i len (omega (arith, h.below)) h.clear))

find_nothing :
    (map : BpaMap) (order start : ℕ)
    → start ≤ blocks map order
    → clear_count (block_check map order) (blocks map order) ≡ 0
    → find_next_free_page map order start ≡ (0, set_pages_free map order 0)
unfolding find_next_free_page
find_nothing map order start le empty =
    let e : first_clear (block_check map order) (blocks map order - start) start ≡ none =
      not-Found (block_check map order) (blocks map order) start _ le empty
        (first_clear-Found (block_check map order) (blocks map order - start) start) in
    rw (e, find_next_free_page) refl

-- The map is unchanged, and if a block is free the first one is found.
pub find_next_free_page_total :
    (map : BpaMap) (order start : ℕ)
    → start ≤ blocks map order
    → ((x : ℕ) → x < start → block_check map order x ≡ true)
    → map.pages_free order ≡ clear_count (block_check map order) (blocks map order)
    → (i : ℕ) × (find_next_free_page map order start ≡ (i, map))
      × RowOk (block_check map order) (blocks map order) (map.pages_free order) i
find_next_free_page_total map order start le full counted =
    elim (Bool-cases (ltb 0 (clear_count (block_check map order) (blocks map order)))) [
      | inl pos ↦
          let (i, e, w) = find_next_free_page_lem map order start le full (ltb→lt _ _ pos) in
          (i, e, record { counted = counted; first = λ h. w })
      | inr none_free ↦
          let empty : clear_count (block_check map order) (blocks map order) ≡ 0 = ground arith in
          (
            0,
            find_nothing map order start le empty
                ∙ ap (λ f. (0, record map { pages_free = f }))
                    (update_same map.pages_free order 0 (omega arith)),
            record { counted = counted; first = λ h. absurd (omega arith) },
          )
    ]

-- Two neighbours that are clear are set.
pub clear_count-set_pair :
    (f g : ℕ → Bool) (e n : ℕ)
    → e + 1 < n
    → f e ≡ false
    → f (e + 1) ≡ false
    → ((j : ℕ) → j < n → g j ≡ (if e + 1 == j then true else if e == j then true else f j))
    → clear_count g n + 2 ≡ clear_count f n
clear_count-set_pair f g e n lt clear clear' same = omega (
  arith,
  clear_count-set f mid e n (omega arith) clear (λ j h. refl),
  clear_count-set mid g (e + 1) n lt (ground (arith, clear')) same,
)
  where
    mid : ℕ → Bool
    mid j = if e == j then true else f j
