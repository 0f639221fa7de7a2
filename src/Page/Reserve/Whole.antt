-- ===== src/Page/Reserve/Whole.antt =====
-- kernel/page.c: what `pages_reserve` does with a block that lies in no larger free block.
use synos.Prelude.{
  ℕ, zero, suc, ◌/◌, ◌+◌, ◌-◌, ◌*◌, ◌^◌, ◌<◌, ◌≡◌, refl, sym, ap, ◌∙◌, subst, true, false, inl, inr,
  ◌⊎◌, some, arith, Bool-cases, add64, sub64,
}
use synos.Page.Order.{max_order, block_order_size, free_area_length}
use synos.Page.State.{BpaMap, Region, block_check, blocks}
use synos.Page.Inv.{IsValid}
use synos.Page.Split.{free_area_length-half}
use synos.Page.Alloc.Spec.{TakesBlock}
use synos.Spinlock.{spinlock_lock, spinlock_unlock}
use synos.Page.Buddy.{
  find_split_order, split_down, charge, with_map, lock_region, reserve_at, pages_reserve,
}
use synos.Page.Reserve.Take.{reserve_at-TakesBlock}

-- Every block above that holds block `offset` of the order is taken, or split.
abbrev pub NoneAbove : BpaMap → ℕ → ℕ → Type 0
NoneAbove map order offset =
    (d : ℕ)
    → order + suc d < max_order
    → block_check map (order + suc d) (free_area_length offset (suc d)) ≡ true

no_split :
    (rounds : ℕ) (map : BpaMap) (order i p_offset : ℕ)
    → ((d : ℕ) → d < rounds → block_check map (i + d) (free_area_length p_offset (suc d)) ≡ true)
    → (find_split_order rounds map order i p_offset).0 ≡ order
unfolding find_split_order free_area_length
no_split zero map order i p_offset full = refl
no_split (suc rounds) map order i p_offset full =
    let here : block_check map i (p_offset / 2) ≡ true =
      subst (λ x. block_check map x (p_offset / 2) ≡ true) (omega arith) (full 0 (omega arith)) in
    rw here (
      no_split rounds map order (i + 1) (p_offset / 2) λ d lt.
        let at_i : i + suc d ≡ i + 1 + d = omega arith in
        rw (free_area_length-half p_offset (suc d)) (
          subst (λ x. block_check map x (free_area_length p_offset (suc (suc d))) ≡ true) at_i
            (full (suc d) (omega arith))))

even_half :
    (offset d : ℕ) → free_area_length (offset / 2 * 2) (suc d) ≡ free_area_length offset (suc d)
even_half offset d =
    let e : offset / 2 * 2 / 2 ≡ offset / 2 = omega arith in
    sym (free_area_length-half (offset / 2 * 2) d)
    ∙ ap (λ x. free_area_length x d) e
    ∙ free_area_length-half offset d

-- What a call of `pages_reserve` leaves: the block was free and exactly its pages stop being free, or it
-- was not and the map is as before; either way the count of the region goes down, and the lock is free.
pub record Settled (region : Region) (order offset addr : ℕ) (after : Region) : Type 0 where
  pub address : addr ≡ add64 (block_order_size order * offset) region.start
  pub counted : after.pages_free ≡ sub64 region.pages_free (2 ^ order)
  pub lock : after.lock ≡ 0
  pub start : after.start ≡ region.start
  pub size : after.size ≡ region.size
  pub block :
      TakesBlock region.page_alloc_si order offset after.page_alloc_si
      ⊎ ((block_check region.page_alloc_si order offset ≡ true)
          × (after.page_alloc_si ≡ region.page_alloc_si))

-- What `pages_reserve` takes off the count and how it leaves the lock, around the map `map`.
abbrev pub charged : Region → BpaMap → ℕ → Region
charged region map order = lock_region (charge (with_map region map) order) 0

reserve_address : Region → ℕ → ℕ → ℕ
reserve_address region order offset = add64 (block_order_size order * offset) region.start

module _ (region : Region) (order offset : ℕ) (v : IsValid region.page_alloc_si)
    (free : region.lock ≡ 0) (bound : order < max_order)
    (below : offset < blocks region.page_alloc_si order) where
  held : spinlock_lock region.lock ≡ some 1
  unfolding spinlock_lock
  held = rw free refl

  reserve_free :
      block_check region.page_alloc_si order offset ≡ false
      → pages_reserve region order offset
        ≡ some (
          reserve_address region order offset,
          charged region (reserve_at region.page_alloc_si order offset) order,
        )
  unfolding pages_reserve spinlock_unlock reserve_address
  reserve_free clear = rw (pages_reserve, held, clear) refl

  no_levels :
      (p : ℕ)
      → NoneAbove region.page_alloc_si order offset
      → split_down
          ((find_split_order
              (max_order - (order + 1))
              region.page_alloc_si
              order
              (order + 1)
              (offset / 2 * 2)).0
            - order)
          region.page_alloc_si
          order
          p
        ≡ region.page_alloc_si
  unfolding split_down
  no_levels p full =
      let stays =
        no_split (max_order - (order + 1)) region.page_alloc_si order (order + 1) (offset / 2 * 2)
          (λ d lt.
            let at_i : order + suc d ≡ order + 1 + d = omega arith in
            rw (even_half offset d) (
              subst
                (λ x. block_check region.page_alloc_si x (free_area_length offset (suc d)) ≡ true)
                at_i (full d (omega arith)))) in
      let zero_levels : (find_split_order (max_order - (order + 1)) region.page_alloc_si order
              (order + 1) (offset / 2 * 2)).0
            - order
          ≡ 0 =
        omega (arith, stays) in
      rw zero_levels refl

  reserve_used :
      block_check region.page_alloc_si order offset ≡ true
      → NoneAbove region.page_alloc_si order offset
      → pages_reserve region order offset
        ≡ some (reserve_address region order offset, charged region region.page_alloc_si order)
  unfolding pages_reserve spinlock_unlock reserve_address
  reserve_used used full = rw (pages_reserve, held, used, no_levels _ full, used) refl

  settled :
      (map : BpaMap)
      → TakesBlock region.page_alloc_si order offset map
        ⊎ ((block_check region.page_alloc_si order offset ≡ true) × (map ≡ region.page_alloc_si))
      → Settled region order offset (reserve_address region order offset) (charged region map order)
  unfolding reserve_address
  settled map b = record {
    address = refl;
    counted = ground arith;
    lock = refl;
    start = ground arith;
    size = ground arith;
    block =
        let same : (charged region map order).page_alloc_si ≡ map = ground arith in
        subst
          (λ m.
            TakesBlock region.page_alloc_si order offset m
            ⊎ ((block_check region.page_alloc_si order offset ≡ true) × (m ≡ region.page_alloc_si)))
          (sym same) b;
  }

-- On a valid region whose lock is free, for an order below MAX_ORDER and a block of the region that lies
-- in no larger free block, `pages_reserve` returns the address of the block and frees the lock; when the
-- block was free, exactly its pages stop being free and the region is valid again, and when it was not,
-- the maps are as before; 2 ^ order comes off the count modulo 2 ^ 64 in both cases.
pub pages_reserve-Settled :
    (region : Region) (order offset : ℕ)
    → IsValid region.page_alloc_si
    → region.lock ≡ 0
    → order < max_order
    → offset < blocks region.page_alloc_si order
    → NoneAbove region.page_alloc_si order offset
    → (addr : ℕ) × (after : Region) × (pages_reserve region order offset ≡ some (addr, after))
      × Settled region order offset addr after
pages_reserve-Settled region order offset v free bound below above =
    elim (Bool-cases (block_check region.page_alloc_si order offset)) [
      | inr clear ↦ (
        _,
        _,
        reserve_free region order offset v free bound below clear,
        settled region order offset v free bound below
            (reserve_at region.page_alloc_si order offset)
            (inl (reserve_at-TakesBlock region.page_alloc_si v order bound offset below clear)),
      )
      | inl used ↦ (
        _,
        _,
        reserve_used region order offset v free bound below used above,
        settled region order offset v free bound below region.page_alloc_si (inr (used, refl)),
      )
    ]
