-- ===== src/Page/Regions/Failure.antt =====
-- kernel/page.c: running out of memory over all regions.
use synos.Prelude.{
  ℕ, ◌+◌, ◌≤◌, ◌≡◌, refl, ap, ◌∙◌, subst, Bool, true, false, Option, none, some, List, arith,
}
use synos.Page.State.{Region}
use synos.Page.Inv.{IsFree}
use synos.Page.Buddy.{page_free}
use synos.Page.Free.Spec.{page_of, InRegion, page_free-eq}
use synos.Page.Regions.{
  Regions, returns, faults, region_at, is_usable, find_free_region, find_region, alloc_page,
  free_page, after_free,
}
use synos.Page.Regions.Search.{FreeFrom, find_free_region-FreeFrom}
use synos.Page.Regions.Places.{put_region-same}
use synos.Page.Regions.Alloc.{AllReady, AllReady-at, turn-moves, turn-ends}
use synos.Page.Regions.RoundTrip.{Apart, InRegion-contains, find_region-own}

-- Every usable region from position `start` on is marked full.
abbrev pub AllFull : List Region → ℕ → Type 0
AllFull rs start =
    (e : ℕ) (q : Region)
    → start ≤ e
    → region_at rs e ≡ some q
    → is_usable q ≡ true
    → q.mem_full ≡ true

none_found :
    (rs : List Region) (start : ℕ) (o : Option ℕ × Bool)
    → AllFull rs start
    → FreeFrom rs start o
    → o ≡ (none, true)
none_found rs start (none, set) full (is_set, rest) = ap (λ b. (none, b)) is_set
none_found rs start (some j, set) full (unset, le, (q, here, good, open_q), first) =
    absurd (ground (arith, full j q le here good, open_q))

find_region-holder :
    (rs : List Region) (k : ℕ) (q : Region) (page : ℕ)
    → Apart rs
    → region_at rs k ≡ some q
    → InRegion q page
    → find_region page rs 0 ≡ some k
find_region-holder rs k q page apart here inside =
    subst (λ l. find_region page l 0 ≡ some k) (put_region-same rs k q here)
      (find_region-own page rs k q q apart here refl refl (InRegion-contains q page inside))

-- The variables after `alloc_page` has found no page.
abbrev pub exhausted : Regions → Regions
exhausted m = record m { next_region = none; out_of_mem = true }

released_faults :
    (m : Regions) (k : ℕ) (q : Region) (page : ℕ)
    → find_region page m.regions 0 ≡ some k
    → region_at m.regions k ≡ some q
    → (q' : Region) → page_free q page ≡ some q'
    → free_page (exhausted m) page ≡ faults
unfolding free_page after_free
released_faults m k q page found there q' freed = rw (free_page, found, there, freed) refl

-- When every region is valid and its lock free, none of them overlap, `outOfMem` is not set, and the
-- next region and every usable region behind it are marked full, `alloc_page` returns 0 and does so
-- again at the next call; and the release of a page in use, in whatever region, which should end the
-- shortage, reads through the null pointer.
pub free_page-faults :
    (m : Regions)
    → AllReady m.regions
    → Apart m.regions
    → m.out_of_mem ≡ false
    → (i : ℕ) → m.next_region ≡ some i
    → (r : Region) → region_at m.regions i ≡ some r
    → r.mem_full ≡ true
    → AllFull m.regions (i + 1)
    → (k : ℕ) (q : Region) (page : ℕ) → region_at m.regions k ≡ some q
    → InRegion q page
    → ¬ IsFree q.page_alloc_si (page_of q page)
    → (alloc_page m ≡ returns (0, exhausted m))
      × (alloc_page (exhausted m) ≡ returns (0, exhausted m))
      × (free_page (exhausted m) page ≡ faults)
unfolding alloc_page
free_page-faults m ok apart unset i next r here full all k q page there inside used =
    let none_free =
      none_found m.regions (i + 1) (find_free_region m.regions (i + 1)) all
        (find_free_region-FreeFrom m.regions (i + 1)) in
    let (v, free) = AllReady-at m.regions k q ok there in
    (
      turn-moves 1 m i r (none, true) unset next here full none_free
          ∙ turn-ends 0 (exhausted m) refl,
      turn-ends 1 (exhausted m) refl,
      released_faults m k q page (find_region-holder m.regions k q page apart there inside) there _
          (page_free-eq q page v free inside used),
    )
