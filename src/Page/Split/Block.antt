-- ===== src/Page/Split/Block.antt =====
-- kernel/page.c: `block_split` climbs to the next order that has a free block, and splits on the way
-- down.
use synos.Prelude.{
  ℕ, zero, suc, ◌+◌, ◌-◌, ◌≤◌, ◌<◌, ◌≡◌, refl, ◌∙◌, false, ◌||◌, inl, inr, arith, ltb, leb, ◌==◌,
  if◌then◌else◌, Bool-cases, ltb→lt, ==→eq, ◌⊎◌,
}
use native.Mathlib.Numerals.{add-one}
use synos.Page.Order.{max_order}
use synos.Page.State.{BpaMap, Region}
use synos.Page.Inv.{IsValid, Refines, Refines-trans}
use synos.Page.Split.{split_first_lem}
use synos.Page.Split.Valid.{split-IsValid, split-IsFree, split-IsFree⁻¹}
use synos.Page.Buddy.{with_map, out_of_mem, split_first, block_split_rounds, block_split}

pub split_first-Refines :
    (map : BpaMap) (v : IsValid map) (u : ℕ)
    → suc u < max_order
    → 0 < map.pages_free (suc u)
    → Refines map (split_first map (suc u)) × (0 < (split_first map (suc u)).pages_free u)
split_first-Refines map v u bound pos =
    let (k, e, first) = split_first_lem map v u bound pos in
    rw e (
      record {
        valid = split-IsValid map v u bound pos k first;
        pages = refl;
        kept = split-IsFree map v u bound pos k;
        added = split-IsFree⁻¹ map v u bound pos k;
      },
      ground arith,
    )

-- Both ways in which `block_split` at order `suc u` ends: there is a free block of order `u` now, or
-- no higher order had one and the region is marked full.
abbrev pub Outcome : Region → ℕ → Region → Type 0
Outcome region u after =
    ((map : BpaMap) × (after ≡ with_map region map)
      × Refines region.page_alloc_si map
      × (0 < map.pages_free u))
    ⊎ ((after ≡ out_of_mem region)
        × ((j : ℕ) → u < j → j < max_order → region.page_alloc_si.pages_free j ≡ 0))

-- One round, in terms of the call for the order above.
module _ (rounds : ℕ) (region : Region) (u : ℕ) (bound : suc u < max_order)
    (v : IsValid region.page_alloc_si) where
  abbrev map : BpaMap
  map = region.page_alloc_si

  round_here :
      0 < map.pages_free (suc u) → Outcome region u (block_split_rounds (suc rounds) region (suc u))
  unfolding block_split_rounds
  round_here pos =
      let (r, more) = split_first-Refines map v u bound pos in
      inl (split_first map (suc u), ground arith, r, more)

  round_top :
      map.pages_free (suc u) ≡ 0
      → suc u ≡ max_order - 1
      → Outcome region u (block_split_rounds (suc rounds) region (suc u))
  unfolding block_split_rounds
  round_top empty top = inr (ground arith, λ j lt h. full j (omega arith))
    where
      full : (j : ℕ) → j ≡ suc u → map.pages_free j ≡ 0
      full j e = rw e empty

  climb :
      map.pages_free (suc u) ≡ 0
      → suc u < max_order - 1
      → block_split_rounds (suc rounds) region (suc u) ≡ (
          let above = block_split_rounds rounds region (suc (suc u)) in
          if above.page_alloc_si.pages_free (suc u) == 0
          then out_of_mem above
          else with_map above (split_first above.page_alloc_si (suc u)))
  unfolding block_split_rounds
  climb empty top = rw (add-one (suc u), in_range, none_here, not_top) refl
    where
      in_range : (suc u == 0 || leb max_order (suc u)) ≡ false
      in_range = ground arith

      none_here : ltb 0 (map.pages_free (suc u)) ≡ false
      none_here = rw empty

      not_top : (suc u == max_order - 1) ≡ false
      not_top = ground arith

  round_above :
      map.pages_free (suc u) ≡ 0
      → suc u < max_order - 1
      → Outcome region (suc u) (block_split_rounds rounds region (suc (suc u)))
      → Outcome region u (block_split_rounds (suc rounds) region (suc u))
  round_above empty top (inl (map', e, r, more)) =
      let (r', more') = split_first-Refines map' r.valid u bound more in
      inl
        (split_first map' (suc u), climb empty top ∙ rw e (ground arith), Refines-trans r r', more')
  round_above empty top (inr (e, none_free)) = inr (
    climb empty top ∙ rw (e, empty),
    λ j lt h. elim (Bool-cases (suc u == j)) [
      | inl own ↦ rw (← ==→eq _ _ own) empty
      | inr above ↦ none_free j (ground arith) h
    ],
  )

pub split_rounds-Outcome :
    (rounds : ℕ) (region : Region) (u : ℕ)
    → suc u < max_order
    → max_order ≤ rounds + suc u
    → IsValid region.page_alloc_si
    → Outcome region u (block_split_rounds rounds region (suc u))
split_rounds-Outcome zero region u bound fuel v = absurd (omega arith)
split_rounds-Outcome (suc rounds) region u bound fuel v =
    elim (Bool-cases (ltb 0 (region.page_alloc_si.pages_free (suc u)))) [
      | inl pos ↦ round_here rounds region u bound v (ltb→lt _ _ pos)
      | inr empty ↦ elim (Bool-cases (suc u == max_order - 1)) [
        | inl top ↦ round_top rounds region u bound v (ground arith) (==→eq _ _ top)
        | inr below ↦
            round_above rounds region u bound v (ground arith) (ground arith)
              (split_rounds-Outcome rounds region (suc u) (ground arith) (omega arith) v)
      ]
    ]

-- `block_split` has rounds enough for every order.
pub block_split-Outcome :
    (region : Region) (u : ℕ)
    → suc u < max_order
    → IsValid region.page_alloc_si
    → Outcome region u (block_split region (suc u))
unfolding block_split
block_split-Outcome region u bound v = split_rounds-Outcome max_order region u bound (omega arith) v
