-- ===== src/Page/Alloc/Spec.antt =====
-- kernel/page.c: what `pages_alloc` promises, on success and on failure, in terms of the set of free
-- pages.
use synos.Prelude.{
  ℕ, suc, ◌-◌, ◌*◌, ◌^◌, ◌≤◌, ◌<◌, ◌≡◌, ◌≢◌, refl, sym, ap, ◌∙◌, subst, true, false, inl, inr, ◌⊎◌,
  Option, some, none, arith, ltb, leb, ◌==◌, Bool-cases, ==→eq, ltb→lt, lt→ltb, add64, sub64,
}
use native.Mathlib.Numerals.{add-one}
use synos.Page.Order.{max_order, block_order_size, free_area_length}
use synos.Page.State.{BpaMap, Region, block_check, block_set, blocks}
use synos.Page.Row.{clear_count_pos}
use synos.Page.Inv.{IsValid, FreeIn, IsFree, Refines}
use synos.Page.Split.Block.{Outcome, block_split-Outcome}
use synos.Page.Alloc.{taken-IsFirst, take_lem, take-IsValid, take_free, take_keeps, take_before}
use synos.Page.Buddy.{
  advance, with_map, out_of_mem, lock_region, charge, take_first, block_split, alloc_locked,
  pages_alloc,
}

-- `after` is valid, and its free pages are those of `map` less the block `block` of the order, all
-- of whose pages were free.
pub record TakesBlock (map : BpaMap) (order block : ℕ) (after : BpaMap) : Type 0 where
  pub inside : block < blocks map order
  pub valid : IsValid after
  pub pages : after.pages ≡ map.pages
  pub was_free : (p : ℕ) → free_area_length p order ≡ block → IsFree map p
  pub kept : (p : ℕ) → IsFree map p → free_area_length p order ≢ block → IsFree after p
  pub others : (p : ℕ) → IsFree after p → IsFree map p × (free_area_length p order ≢ block)

Refines-TakesBlock :
    {a b c : BpaMap} {order block : ℕ}
    → Refines a b
    → TakesBlock b order block c
    → TakesBlock a order block c
Refines-TakesBlock {order} {block} r t = record {
  inside = subst (λ p. block < free_area_length p order) r.pages t.inside;
  valid = t.valid;
  pages = t.pages ∙ r.pages;
  was_free = λ p e. r.added p (t.was_free p e);
  kept = λ p f ne. t.kept p (r.kept p f) ne;
  others = λ p f. let (g, ne) = t.others p f in (r.added p g, ne);
}

-- `pages_alloc` returned `addr`.
pub record Allocated (region : Region) (order addr : ℕ) (after : Region) : Type 0 where
  pub block : ℕ
  pub took : TakesBlock region.page_alloc_si order block after.page_alloc_si
  pub address : addr ≡ add64 (block_order_size order * block) region.start
  pub charged : after.pages_free ≡ sub64 region.pages_free (2 ^ order)
  pub lock : after.lock ≡ region.lock
  pub start : after.start ≡ region.start
  pub size : after.size ≡ region.size

-- `pages_alloc` returned 0: no block of the order or above is free.
pub record Exhausted (region : Region) (order addr : ℕ) (after : Region) : Type 0 where
  pub null : addr ≡ 0
  pub marked : after ≡ out_of_mem region
  pub none_free : (p j : ℕ) → order ≤ j → ¬ FreeIn region.page_alloc_si p j

empty-none_free :
    (map : BpaMap) → IsValid map → (j : ℕ) → map.pages_free j ≡ 0 → (p : ℕ) → ¬ FreeIn map p j
empty-none_free map v j e p f = omega (
  arith,
  (v.rows j f.order).counted,
  clear_count_pos (block_check map j) (free_area_length p j) (blocks map j) f.block f.clear,
)

-- Charging the region leaves its bitmaps alone.
charge-page_alloc_si :
    (region : Region) (o : ℕ) → (charge region o).page_alloc_si ≡ region.page_alloc_si
charge-page_alloc_si region o = ground arith

module _ (region : Region) (v : IsValid region.page_alloc_si) (o : ℕ) (bound : o < max_order) where
  abbrev bitmaps : BpaMap
  bitmaps = region.page_alloc_si

  take_first-map :
      (take_first region o).1.page_alloc_si
      ≡ advance (block_set bitmaps o (bitmaps.next_free_page o)) o
  unfolding take_first
  take_first-map =
      charge-page_alloc_si
        (with_map region (advance (block_set bitmaps o (bitmaps.next_free_page o)) o)) o

  take_first-TakesBlock :
      0 < bitmaps.pages_free o
      → TakesBlock bitmaps o (bitmaps.next_free_page o) (take_first region o).1.page_alloc_si
  take_first-TakesBlock pos =
      let (k, e, first) = take_lem bitmaps v o bound pos in
      let w = taken-IsFirst bitmaps v o bound pos in
      rw (take_first-map, e)
        (record {
          inside = w.below;
          valid = take-IsValid bitmaps v o bound (bitmaps.next_free_page o) w.below w.clear k first;
          pages = refl;
          was_free = λ p h.
              (o, take_free bitmaps v o bound (bitmaps.next_free_page o) w.below w.clear p h);
          kept = take_keeps bitmaps v o bound (bitmaps.next_free_page o) w.below w.clear k;
          others = take_before bitmaps v o bound (bitmaps.next_free_page o) w.below w.clear k;
        })

  take_first-Allocated :
      0 < bitmaps.pages_free o
      → let (addr, after) = take_first region o in Allocated region o addr after
  unfolding take_first
  take_first-Allocated pos = record {
    block = bitmaps.next_free_page o;
    took = take_first-TakesBlock pos;
    address = refl;
    charged = ground arith;
    lock = ground arith;
    start = ground arith;
    size = ground arith;
  }

-- Splitting first changes nothing of the promise.
split-Allocated :
    (region : Region) (map : BpaMap) (o addr : ℕ) (after : Region)
    → Refines region.page_alloc_si map
    → Allocated (with_map region map) o addr after
    → Allocated region o addr after
split-Allocated region map o addr after r a = record {
  block = a.block;
  took = Refines-TakesBlock r a.took;
  address = a.address;
  charged = a.charged;
  lock = a.lock;
  start = a.start;
  size = a.size;
}

-- Both ways in which `pages_alloc` ends once it holds the lock.
abbrev pub AllocOutcome : Region → ℕ → ℕ × Region → Type 0
AllocOutcome region o r = Allocated region o r.0 r.1 ⊎ Exhausted region o r.0 r.1

module _ (region : Region) (o : ℕ) (v : IsValid region.page_alloc_si) (bound : o < max_order) where
  locked_here :
      0 < region.page_alloc_si.pages_free o → AllocOutcome region o (alloc_locked region o)
  unfolding alloc_locked
  locked_here pos = rw (lt→ltb _ _ pos) (inl (take_first-Allocated region v o bound pos))

  locked_top :
      region.page_alloc_si.pages_free o ≡ 0
      → o ≡ max_order - 1
      → AllocOutcome region o (alloc_locked region o)
  unfolding alloc_locked
  locked_top empty top =
      rw (none_here, at_top)
        (inr (record {
          null = refl;
          marked = refl;
          none_free = λ p j le f.
              empty-none_free region.page_alloc_si v o empty p (rw (own j le f.order) at f);
        }))
    where
      none_here : ltb 0 (region.page_alloc_si.pages_free o) ≡ false
      none_here = rw empty

      at_top : (o == max_order - 1) ≡ true
      at_top = ground arith

      own : (j : ℕ) → o ≤ j → j < max_order → j ≡ o
      own j le h = omega arith

  locked_split :
      region.page_alloc_si.pages_free o ≡ 0
      → suc o < max_order
      → Outcome region o (block_split region (suc o))
      → AllocOutcome region o (alloc_locked region o)
  unfolding alloc_locked
  locked_split empty below (inl (m, e, r, more)) =
      rw (none_here, not_top, add-one o, e, grown)
        (inl (
          split-Allocated region m o _ _ r
            (take_first-Allocated (with_map region m) r.valid o bound more)))
    where
      none_here : ltb 0 (region.page_alloc_si.pages_free o) ≡ false
      none_here = rw empty

      not_top : (o == max_order - 1) ≡ false
      not_top = ground arith

      grown : (m.pages_free o == 0) ≡ false
      grown = ground arith
  locked_split empty below (inr (e, none_above)) =
      rw (none_here, not_top, add-one o, e, none_here')
        (inr (record {
          null = refl;
          marked = refl;
          none_free =
              λ p j le f. empty-none_free region.page_alloc_si v j (none_at j le f.order) p f;
        }))
    where
      none_here : ltb 0 (region.page_alloc_si.pages_free o) ≡ false
      none_here = rw empty

      none_here' : (region.page_alloc_si.pages_free o == 0) ≡ true
      none_here' = rw empty

      not_top : (o == max_order - 1) ≡ false
      not_top = ground arith

      none_at : (j : ℕ) → o ≤ j → j < max_order → region.page_alloc_si.pages_free j ≡ 0
      none_at j le h = elim (Bool-cases (o == j)) [
        | inl own ↦ rw (← ==→eq _ _ own) empty
        | inr above ↦ none_above j (ground arith) h
      ]

  alloc_locked-Outcome : AllocOutcome region o (alloc_locked region o)
  alloc_locked-Outcome = elim (Bool-cases (ltb 0 (region.page_alloc_si.pages_free o))) [
    | inl pos ↦ locked_here (ltb→lt _ _ pos)
    | inr empty ↦ elim (Bool-cases (o == max_order - 1)) [
      | inl top ↦ locked_top (ground arith) (==→eq _ _ top)
      | inr below ↦
          let bound' : suc o < max_order = ground arith in
          locked_split (ground arith) bound' (block_split-Outcome region o bound' v)
    ]
  ]

-- Releasing the lock keeps the promise.
unlock-AllocOutcome :
    (region : Region) (o : ℕ) (r : ℕ × Region)
    → region.lock ≡ 0
    → AllocOutcome (lock_region region 1) o r
    → AllocOutcome region o (r.0, lock_region r.1 0)
unlock-AllocOutcome region o r free (inl a) = inl (record {
  block = a.block;
  took = a.took;
  address = a.address;
  charged = a.charged;
  lock = sym free;
  start = a.start;
  size = a.size;
})
unlock-AllocOutcome region o r free (inr x) = inr (record {
  null = x.null;
  marked = ap (λ after. lock_region after 0) x.marked ∙ rw free;
  none_free = x.none_free;
})

pub pages_alloc_lem :
    (region : Region) (order : ℕ)
    → order < max_order
    → region.lock ≡ 0
    → pages_alloc region order
      ≡ some (
        (alloc_locked (lock_region region 1) order).0,
        lock_region (alloc_locked (lock_region region 1) order).1 0,
      )
unfolding pages_alloc
pages_alloc_lem region order bound free = rw (in_range, free)
  where
    in_range : leb max_order order ≡ false
    in_range = ground arith

-- What a call of `pages_alloc` on a region whose lock is free returns.
abbrev pub AllocSpec : Region → ℕ → Option (ℕ × Region) → Type 0
AllocSpec region order none = ⊥
AllocSpec region order (some r) = AllocOutcome region order r

-- On a valid region whose lock is free and for an order below MAX_ORDER, `pages_alloc` returns and
-- frees the lock; either it returns the address of a block whose pages were all free, exactly those
-- pages stop being free, and 2 ^ order comes off the region's count modulo 2 ^ 64, or it returns 0,
-- marks the region full and changes nothing else, and no block of the order or above was free.
pub pages_alloc-AllocSpec :
    (region : Region) (order : ℕ)
    → IsValid region.page_alloc_si
    → order < max_order
    → region.lock ≡ 0
    → AllocSpec region order (pages_alloc region order)
pages_alloc-AllocSpec region order v bound free = rw (pages_alloc_lem region order bound free) (
    unlock-AllocOutcome region order _ free
      (alloc_locked-Outcome (lock_region region 1) order v bound))
