-- ===== src/Page/Map/Whole.antt =====
-- kernel/page.c: `region_map` leaves a valid allocator of which exactly the region's pages are free.
use synos.Prelude.{
  ℕ, zero, suc, ◌+◌, ◌-◌, ◌^◌, ◌≤◌, ◌<◌, ◌≡◌, ◌↔◌, refl, ◌∙◌, true, false, inl, inr, arith, some,
  ◌==◌, ltb, Bool-cases, ltb→le, ==→eq,
}
use native.Mathlib.Numerals.{add-one}
use synos.Page.Order.{max_order, free_area_length, order_max}
use synos.Page.State.{BpaMap, Region, blocks}
use synos.Page.Inv.{IsValid, IsFree}
use synos.Page.Map.{free_last, free_area_map_rounds, free_area_map, blank_map, region_map}
use synos.Page.Map.Layout.{Fits, blank_map-Apart, blank_map-bits}
use synos.Page.Map.Lowest.{EvenBelow, IsLowest, order_max-IsLowest}
use synos.Page.Map.Building.{Building, Whole}
use synos.Page.Map.Finish.{free_all-Whole}
use synos.Page.Map.Step.{free_last-Building}

-- One turn, in terms of the turns that are left.
module _ (rounds : ℕ) (map : BpaMap) (p c : ℕ) (b : Building map p c) (bound : c < max_order) where
  abbrev o : ℕ
  o = order_max p

  lowest : IsLowest p 0 o
  lowest = order_max-IsLowest p

  even : EvenBelow p o
  even j h = lowest.even j (omega arith) h

  -- The lowest bit of `p` is not below `c`.
  not_below : c ≤ o
  not_below = elim (Bool-cases (ltb o c)) [
    | inl lt ↦ absurd (omega (arith, b.even o (ground arith), lowest.odd (ground arith)))
    | inr ge ↦ ltb→le _ _ ge
  ]

  turn_last : o ≡ max_order - 1 → Whole map (free_area_map_rounds (suc rounds) map p)
  unfolding free_area_map_rounds
  turn_last e =
      let test : (o == max_order - 1) ≡ true = ground arith in
      rw test (free_all-Whole map p c o b not_below lowest.top even (λ h. absurd (omega arith)))

  turn_top :
      (o == max_order - 1) ≡ false
      → blocks map (suc o) ≡ 0
      → Whole map (free_area_map_rounds (suc rounds) map p)
  unfolding free_area_map_rounds
  turn_top ne e =
      rw (ne, add-one o, e) (free_all-Whole map p c o b not_below lowest.top even (λ h. e))

  turn_next :
      (o == max_order - 1) ≡ false
      → (blocks map (suc o) == 0) ≡ false
      → Whole (free_last map o p) (free_area_map_rounds rounds (free_last map o p) (p - 2 ^ o))
      → Whole map (free_area_map_rounds (suc rounds) map p)
  unfolding free_area_map_rounds
  turn_next ne more w =
      rw (ne, add-one o, more) (record { valid = w.valid; pages = w.pages; free = w.free })

-- MAX_ORDER turns are enough: each raises `c`.
free_area_map_rounds-Whole :
    (rounds : ℕ) (map : BpaMap) (p c : ℕ)
    → Building map p c
    → c < max_order
    → max_order ≤ rounds + c
    → Whole map (free_area_map_rounds rounds map p)
free_area_map_rounds-Whole zero map p c b bound fuel = absurd (omega arith)
free_area_map_rounds-Whole (suc rounds) map p c b bound fuel =
    elim (Bool-cases (order_max p == max_order - 1)) [
      | inl last ↦ turn_last rounds map p c b bound (==→eq _ _ last)
      | inr ne ↦ elim (Bool-cases (blocks map (suc (order_max p)) == 0)) [
        | inl top ↦ turn_top rounds map p c b bound ne (==→eq _ _ top)
        | inr more ↦
            let le : c ≤ order_max p = not_below rounds map p c b bound in
            let lt : suc (order_max p) < max_order =
              below_top (order_max p) (lowest rounds map p c b bound).top ne in
            turn_next rounds map p c b bound ne more (
              free_area_map_rounds-Whole rounds (free_last map (order_max p) p)
                (p - 2 ^ order_max p) (suc (order_max p))
                (free_last-Building map p c (order_max p) b le lt (even rounds map p c b bound)
                  ((lowest rounds map p c b bound).odd (omega arith)))
                lt (omega arith))
      ]
    ]
  where
    below_top : (r : ℕ) → r < max_order → (r == max_order - 1) ≡ false → suc r < max_order
    below_top r h ne = ground arith

blank_map-Building :
    (pages : ℕ) (table : ℕ → ℕ)
    → Fits pages
    → pages < 2 ^ 63
    → Building (blank_map pages table) pages 0
unfolding blank_map free_area_length
blank_map-Building pages table fits small = record {
  apart = blank_map-Apart pages table;
  small = small;
  even = λ j h. absurd (omega arith);
  same = λ d. refl;
  rows = λ o h. absurd (omega arith);
  single = λ o j h. absurd (omega arith);
  blank = λ o h le. (λ j lt. blank_map-bits pages table fits o j h lt, refl, refl);
  padded = λ o j h le lt. blank_map-bits pages table fits o j h lt;
  cover = λ q h. inr h;
}

lt_of_length : (q p o : ℕ) → free_area_length q o < free_area_length p o → q < p
unfolding free_area_length
lt_of_length q p zero h = h
lt_of_length q p (suc o) h = lt_of_length q p o (omega arith)

-- What `region_map` leaves behind.
pub record Mapped (region : Region) (n : ℕ) (after : Region) : Type 0 where
  pub valid : IsValid after.page_alloc_si
  pub pages : after.page_alloc_si.pages ≡ n
  pub free : (q : ℕ) → IsFree after.page_alloc_si q ↔ (q < n)
  pub counted : (after.pages_free ≡ n) × (after.pages_total ≡ n)
  pub open_for_use : after.mem_full ≡ false
  pub lock : after.lock ≡ 0
  pub start : after.start ≡ region.start
  pub size : after.size ≡ region.size

free_area_map-Whole : (map : BpaMap) → Building map map.pages 0 → Whole map (free_area_map map)
unfolding free_area_map
free_area_map-Whole map b =
    free_area_map_rounds-Whole max_order map map.pages 0 b (omega arith) (omega arith)

pub blank_map-Whole :
    (pages : ℕ) (table : ℕ → ℕ)
    → Fits pages
    → pages < 2 ^ 63
    → Whole (blank_map pages table) (free_area_map (blank_map pages table))
blank_map-Whole pages table fits small =
    free_area_map-Whole (blank_map pages table)
      (unfold blank_map in blank_map-Building pages table fits small)

blank_map-pages : (pages : ℕ) (table : ℕ → ℕ) → (blank_map pages table).pages ≡ pages
unfolding blank_map
blank_map-pages pages table = refl

-- `region_map` on a region whose lock is free: if the table holds the ten bitmaps, it returns, the
-- allocator's invariant holds, exactly the `pages` pages of the region are free, whatever the memory
-- held before, the region counts them all, is not full, and its lock is free.
pub region_map-Mapped :
    (region : Region) (pages : ℕ) (table : ℕ → ℕ)
    → Fits pages
    → pages < 2 ^ 63
    → region.lock ≡ 0
    → (after : Region) × (region_map region pages table ≡ some after) × Mapped region pages after
unfolding region_map
region_map-Mapped region pages table fits small free =
    let w = blank_map-Whole pages table fits small in
    let same : (free_area_map (blank_map pages table)).pages ≡ pages =
      w.pages ∙ blank_map-pages pages table in
    (
      record region {
        page_alloc_si = free_area_map (blank_map pages table);
        pages_total = pages;
        pages_free = pages;
        mem_full = false;
        lock = 0;
      },
      rw free refl,
      record {
        valid = w.valid;
        pages = same;
        free = λ q. (
          λ (o, f). lt_of_length q pages o (rw same at f.block),
          λ h. w.free q (rw blank_map-pages h),
        );
        counted = (refl, refl);
        open_for_use = refl;
        lock = refl;
        start = refl;
        size = refl;
      },
    )
