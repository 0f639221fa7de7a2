-- ===== src/Page/Free/Tests.antt =====
-- Regions from which one and two pages have been allocated, and the theorems on `page_free` applied to
-- them.
use synos.Prelude.{
  ℕ, zero, suc, ◌+◌, ◌*◌, ◌^◌, ◌≤◌, ◌<◌, ◌≡◌, ◌≢◌, refl, sym, true, false, some, some-injective, [],
  ◌∷◌, arith, test_bit, set_bit, clear_bit, subst,
}
use synos.Page.Order.{page_size, order_max, free_area_length}
use synos.Page.State.{Region, bit_at, put_bit, drop_bit, blocks_clear, find_next_free_page}
use synos.Page.Bitmap.{bitmap_bytes}
use synos.Page.Inv.{IsValid, IsFree}
use synos.Page.Map.{blank_map, free_area_map, free_area_map_rounds, map_free_areas}
use synos.Page.Map.Layout.{Fits, bitmap_start}
use synos.Page.Map.Whole.{blank_map-Whole}
use synos.Page.Alloc.Spec.{Allocated, pages_alloc_lem, pages_alloc-AllocSpec, AllocSpec}
use synos.Page.Free.Spec.{page_of, InRegion, Freed, page_free-Freed}
use synos.Page.Free.RoundTrip.{
  SamePages, allocated, in_use, allocated-InRegion, page_free-page_alloc,
}
use synos.Page.Free.Reuse.{page_alloc-page_free}
use synos.Page.Regions.{
  Regions, returns, faults, alloc_page, free_page, region_at, put_region, contains,
}
use synos.Page.Regions.Failure.{AllFull, exhausted, free_page-faults}
use synos.Page.Regions.Alloc.{turn-takes}
use synos.Page.Regions.RoundTrip.{Apart, AllSized, HasSpare, BroughtBack, free_page-alloc_page}
use synos.Page.Runs.{Reach, IsReady, Reach-IsReady, alloc, here, next}
use synos.Page.Buddy.{alloc_locked, take_first, block_split, lock_region, page_alloc, page_free}

-- 2048 pages from 2 MiB on, all of them free.
abbrev fresh : Region
fresh = record {
  start = 0x200000;
  size = 0x800000;
  attrib = 7;
  pages_total = 2048;
  pages_free = 2048;
  mem_full = false;
  page_alloc_si = free_area_map (blank_map 2048 (λ a. 0x5A));
  lock = 0;
}

abbrev addr_after : Region → ℕ
addr_after region = (alloc_locked (lock_region region 1) 0).0

abbrev region_after : Region → Region
region_after region = lock_region (alloc_locked (lock_region region 1) 0).1 0

page_alloc_lem :
    (region : Region)
    → region.lock ≡ 0
    → page_alloc region ≡ some (addr_after region, region_after region)
unfolding page_alloc
page_alloc_lem region unlocked = pages_alloc_lem region 0 (omega arith) unlocked

taken_once :
    (region : Region)
    → IsValid region.page_alloc_si
    → region.lock ≡ 0
    → addr_after region ≢ 0
    → Allocated region 0 (addr_after region) (region_after region)
unfolding page_alloc
taken_once region v unlocked ne = allocated region (addr_after region) (region_after region) ne (
    subst (AllocSpec region 0) (page_alloc_lem region unlocked)
      (pages_alloc-AllocSpec region 0 v (omega arith) unlocked))

fresh-Fits : Fits 2048
unfolding bitmap_start bitmap_bytes
fresh-Fits = omega arith

fresh-IsValid : IsValid fresh.page_alloc_si
fresh-IsValid = (blank_map-Whole 2048 (λ a. 0x5A) fresh-Fits (omega arith)).valid

fresh-pages : fresh.page_alloc_si.pages ≡ 2048
unfolding free_area_map free_area_map_rounds order_max blank_map blocks_clear free_area_length
fresh-pages = refl

-- Pages 0 and 1 are allocated one after the other.
abbrev one_taken : Region
one_taken = region_after fresh

abbrev two_taken : Region
two_taken = region_after one_taken

first_addr : addr_after fresh ≡ 0x200000
unfolding alloc_locked free_area_map free_area_map_rounds order_max blank_map blocks_clear
    free_area_length block_split find_next_free_page bit_at test_bit drop_bit map_free_areas put_bit
    set_bit clear_bit take_first
first_addr = refl

second_addr : addr_after one_taken ≡ 0x201000
unfolding alloc_locked free_area_map free_area_map_rounds order_max blank_map blocks_clear
    free_area_length block_split find_next_free_page bit_at test_bit drop_bit map_free_areas put_bit
    set_bit clear_bit take_first
second_addr = refl

one_count : one_taken.page_alloc_si.pages_free 0 ≡ 1
unfolding alloc_locked free_area_map free_area_map_rounds order_max blank_map blocks_clear
    free_area_length block_split find_next_free_page bit_at test_bit drop_bit map_free_areas put_bit
    set_bit clear_bit take_first
one_count = refl

two_count : two_taken.page_alloc_si.pages_free 0 ≡ 0
unfolding alloc_locked free_area_map free_area_map_rounds order_max blank_map blocks_clear
    free_area_length block_split find_next_free_page bit_at test_bit drop_bit map_free_areas put_bit
    set_bit clear_bit take_first
two_count = refl

two_next : two_taken.page_alloc_si.next_free_page 0 ≡ 0
unfolding alloc_locked free_area_map free_area_map_rounds order_max blank_map blocks_clear
    free_area_length block_split find_next_free_page bit_at test_bit drop_bit map_free_areas put_bit
    set_bit clear_bit take_first
two_next = refl

one : Allocated fresh 0 (addr_after fresh) one_taken
one = taken_once fresh fresh-IsValid refl (λ e. omega (arith, e, first_addr))

two : Allocated one_taken 0 (addr_after one_taken) two_taken
two = taken_once one_taken one.took.valid refl (λ e. omega (arith, e, second_addr))

page_free-page_alloc_example :
    (last : Region) × (page_free one_taken (addr_after fresh) ≡ some last) × SamePages fresh last
page_free-page_alloc_example =
    page_free-page_alloc fresh (addr_after fresh) one_taken fresh-IsValid refl
      (omega (arith, fresh-pages)) (omega arith) (omega arith) (page_alloc_lem fresh refl)
      (λ e. omega (arith, e, first_addr)) (λ e. omega (arith, e, one_count))

page_free-Freed_example :
    (after : Region) × (page_free one_taken (addr_after fresh) ≡ some after)
    × Freed one_taken (page_of one_taken (addr_after fresh)) after
page_free-Freed_example =
    page_free-Freed one_taken (addr_after fresh) one.took.valid refl
      (allocated-InRegion fresh (addr_after fresh) one_taken fresh-IsValid one refl
        (omega (arith, fresh-pages)) (omega arith))
      (in_use fresh (addr_after fresh) one_taken fresh-IsValid one refl (omega (arith, fresh-pages))
        (omega arith))
      (λ e. absurd (omega (arith, e, one_count)))

page_0_in_use : ¬ IsFree two_taken.page_alloc_si 0
page_0_in_use w =
    let page_0 : 0 ≡ page_of one_taken (addr_after fresh) = omega (arith, one.start, first_addr) in
    in_use fresh (addr_after fresh) one_taken fresh-IsValid one refl (omega (arith, fresh-pages))
      (omega arith) (subst (IsFree one_taken.page_alloc_si) page_0 (two.took.others 0 w).0)

page_alloc-page_free_example :
    (after : Region) × (page_free two_taken (addr_after one_taken) ≡ some after)
    × (¬ IsFree after.page_alloc_si 0)
    × ((after' : Region) × (page_alloc after ≡ some (two_taken.start, after')))
page_alloc-page_free_example =
    page_alloc-page_free two_taken (addr_after one_taken) two.took.valid refl
      (allocated-InRegion one_taken (addr_after one_taken) two_taken one.took.valid two refl
        (omega (arith, one.took.pages, one.size, fresh-pages)) (omega (arith, one.start, one.size)))
      (in_use one_taken (addr_after one_taken) two_taken one.took.valid two refl
        (omega (arith, one.took.pages, one.size, fresh-pages)) (omega (arith, one.start, one.size)))
      page_0_in_use (λ e. omega (arith, e, second_addr, two.start, one.start)) two_count two_next

fresh-IsReady : IsReady 0x200000 0x800000 fresh
fresh-IsReady = record { valid = fresh-IsValid; lock = refl; at_start = refl; of_size = refl }

run : Reach fresh one_taken
unfolding page_alloc
run =
    next here (alloc fresh one_taken 0 (addr_after fresh) (omega arith) (page_alloc_lem fresh refl))

run_twice : Reach fresh two_taken
unfolding page_alloc
run_twice = next run (
    alloc one_taken two_taken 0 (addr_after one_taken) (omega arith)
      (page_alloc_lem one_taken refl))

Reach-IsReady_example : IsReady 0x200000 0x800000 two_taken
Reach-IsReady_example = Reach-IsReady 0x200000 0x800000 fresh-IsReady run_twice

-- A second region of the same length at 16 MiB.
abbrev high : Region
high = record fresh { start = 0x1000000 }

abbrev both : Regions
both = record { regions = fresh ∷ high ∷ []; next_region = some 0; out_of_mem = false }

abbrev both_after : Regions
both_after = record { regions = one_taken ∷ high ∷ []; next_region = some 0; out_of_mem = false }

both-Apart : Apart both.regions
unfolding region_at
both-Apart a zero zero q r h k inside inside' = refl
both-Apart a zero (suc zero) q r h k inside inside' =
    let at_q : contains a fresh ≡ true =
      subst (λ x. contains a x ≡ true) (sym (some-injective _ _ h)) inside in
    let at_r : contains a high ≡ true =
      subst (λ x. contains a x ≡ true) (sym (some-injective _ _ k)) inside' in
    absurd (ground (arith, at_q, at_r))
both-Apart a (suc zero) zero q r h k inside inside' =
    let at_q : contains a high ≡ true =
      subst (λ x. contains a x ≡ true) (sym (some-injective _ _ h)) inside in
    let at_r : contains a fresh ≡ true =
      subst (λ x. contains a x ≡ true) (sym (some-injective _ _ k)) inside' in
    absurd (ground (arith, at_q, at_r))
both-Apart a (suc zero) (suc zero) q r h k inside inside' = refl
both-Apart a zero (suc (suc f)) q r h k inside inside' = cc
both-Apart a (suc zero) (suc (suc f)) q r h k inside inside' = cc
both-Apart a (suc (suc e)) f q r h k inside inside' = cc

abbrev Sized : Region → Type 0
Sized r =
    (r.page_alloc_si.pages * page_size ≤ r.size)
    × (r.start + r.size < 2 ^ 64)
    × (r.pages_free < 2 ^ 64)

both-AllSized : AllSized both.regions
unfolding region_at
both-AllSized zero r h =
    subst Sized (some-injective _ _ h) (omega (arith, fresh-pages), omega arith, omega arith)
both-AllSized (suc zero) r h =
    subst Sized (some-injective _ _ h) (omega (arith, fresh-pages), omega arith, omega arith)
both-AllSized (suc (suc e)) r h = cc

both-runs : alloc_page both ≡ returns (addr_after fresh, both_after)
unfolding alloc_page region_at put_region
both-runs =
    turn-takes 1 both 0 fresh one_taken (addr_after fresh) refl refl refl refl
      (page_alloc_lem fresh refl)

both_after-HasSpare : HasSpare both_after
unfolding region_at
both_after-HasSpare j r n h none_left =
    let at_0 : region_at both_after.regions 0 ≡ some r =
      subst (λ k. region_at both_after.regions k ≡ some r) (sym (some-injective _ _ n)) h in
    let own : one_taken ≡ r = some-injective _ _ at_0 in
    omega (arith, one_count, subst (λ x. x.page_alloc_si.pages_free 0 ≡ 0) (sym own) none_left)

free_page-alloc_page_example : BroughtBack both both_after (addr_after fresh)
unfolding region_at
free_page-alloc_page_example =
    free_page-alloc_page both (fresh-IsValid, refl, (fresh-IsValid, refl, tt)) both-Apart
      both-AllSized refl 0 refl fresh refl (addr_after fresh) both_after both-runs
      (λ e. omega (arith, e, first_addr)) both_after-HasSpare

-- Memory has run out: the page that was taken is still in use, and the only region is marked full.
abbrev full_region : Region
full_region = record one_taken { mem_full = true }

abbrev run_out : Regions
run_out = record { regions = full_region ∷ []; next_region = some 0; out_of_mem = false }

run_out-Apart : Apart run_out.regions
unfolding region_at
run_out-Apart a zero zero q r h k inside inside' = refl
run_out-Apart a zero (suc f) q r h k inside inside' = cc
run_out-Apart a (suc e) f q r h k inside inside' = cc

run_out-AllFull : AllFull run_out.regions 1
unfolding region_at
run_out-AllFull zero q le h usable = absurd (omega arith)
run_out-AllFull (suc e) q le h usable = cc

full_region-InRegion : InRegion full_region (addr_after fresh)
full_region-InRegion =
    let z =
      allocated-InRegion fresh (addr_after fresh) one_taken fresh-IsValid one refl
        (omega (arith, fresh-pages)) (omega arith) in
    record { above = z.above; below = z.below; small = z.small; page = z.page }

free_page-faults_example :
    (alloc_page run_out ≡ returns (0, exhausted run_out))
    × (alloc_page (exhausted run_out) ≡ returns (0, exhausted run_out))
    × (free_page (exhausted run_out) (addr_after fresh) ≡ faults)
unfolding region_at
free_page-faults_example =
    free_page-faults run_out (one.took.valid, refl, tt) run_out-Apart refl 0 refl full_region refl
      refl run_out-AllFull 0 full_region (addr_after fresh) refl full_region-InRegion
      (in_use fresh (addr_after fresh) one_taken fresh-IsValid one refl (omega (arith, fresh-pages))
        (omega arith))
