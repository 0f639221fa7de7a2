-- ===== src/Page/Regions/RoundTrip.antt =====
-- kernel/page.c: `free_page` of the page that `alloc_page` took from the list of regions.
use synos.Prelude.{
  ℕ, zero, suc, ◌+◌, ◌*◌, ◌^◌, ◌≤◌, ◌<◌, ◌≡◌, ◌≢◌, refl, sym, ap, ◌∙◌, subst, true, false, ltb,
  Option, none, some, List, [], ◌∷◌, arith, some-injective,
}
use synos.Page.Order.{page_size}
use synos.Page.State.{Region}
use synos.Page.Buddy.{page_free}
use synos.Page.Alloc.Spec.{Allocated}
use synos.Page.Free.Spec.{InRegion}
use synos.Page.Free.RoundTrip.{SamePages, allocated, allocated-InRegion, page_free-page_alloc}
use synos.Page.Regions.{
  Regions, returns, region_at, put_region, contains, find_region, find_from, alloc_page, free_page,
  after_free,
}
use synos.Page.Regions.Places.{region_at-put_region, put_region-put_region}
use synos.Page.Regions.Search.{FirstFrom, find_from-FirstFrom}
use synos.Page.Regions.Alloc.{
  PageFrom, from_next, from_later, no_region, AllReady, AllReady-at, TakenFrom, alloc_page-PageFrom,
}

-- No address lies in two regions.
abbrev pub Apart : List Region → Type 0
Apart rs =
    (a e f : ℕ) (q r : Region)
    → region_at rs e ≡ some q
    → region_at rs f ≡ some r
    → contains a q ≡ true
    → contains a r ≡ true
    → e ≡ f

-- Where a region was exchanged for one with the same bounds, every region has the bounds that it had.
put_region-bounds :
    (rs : List Region) (j : ℕ) (r c : Region)
    → region_at rs j ≡ some r
    → c.start ≡ r.start
    → c.size ≡ r.size
    → (e : ℕ) (q : Region) → region_at (put_region rs j c) e ≡ some q
    → (p : Region) × (region_at rs e ≡ some p) × (q.start ≡ p.start) × (q.size ≡ p.size)
unfolding region_at put_region
put_region-bounds [] j r c here s z e q h = cc
put_region-bounds (x ∷ rs) zero r c here s z zero q h =
    let own : c ≡ q = some-injective _ _ h in
    (r, here, ap Region.start (sym own) ∙ s, ap Region.size (sym own) ∙ z)
put_region-bounds (x ∷ rs) zero r c here s z (suc e) q h = (q, h, refl, refl)
put_region-bounds (x ∷ rs) (suc j) r c here s z zero q h = (q, h, refl, refl)
put_region-bounds (x ∷ rs) (suc j) r c here s z (suc e) q h =
    put_region-bounds rs j r c here s z e q h

contains-bounds :
    (a : ℕ) (p q : Region) → q.start ≡ p.start → q.size ≡ p.size → contains a q ≡ contains a p
contains-bounds a p q s z = rw (s, z) refl

pub InRegion-contains : (r : Region) (a : ℕ) → InRegion r a → contains a r ≡ true
InRegion-contains r a w = ground (arith, w.above, w.below, w.small)

pub find_region-own :
    (a : ℕ) (rs : List Region) (j : ℕ) (r c : Region)
    → Apart rs
    → region_at rs j ≡ some r
    → c.start ≡ r.start
    → c.size ≡ r.size
    → contains a r ≡ true
    → find_region a (put_region rs j c) 0 ≡ some j
unfolding find_region
find_region-own a rs j r c apart here s z inside =
    own (find_from (contains a) (put_region rs j c) 0 0) refl
      (find_from-FirstFrom (contains a) 0 (put_region rs j c) 0)
  where
    own :
        (o : Option ℕ)
        → find_from (contains a) (put_region rs j c) 0 0 ≡ o
        → FirstFrom (contains a) (put_region rs j c) 0 0 o
        → find_from (contains a) (put_region rs j c) 0 0 ≡ some j
    own none e misses =
        let miss : contains a c ≡ false =
          misses j c (omega arith) (region_at-put_region rs j r c here) in
        absurd (ground (arith, miss, inside, contains-bounds a r c s z))
    own (some k) e (d, q, kd, le, there, hit, first) =
        let (p, at_p, ps, pz) = put_region-bounds rs j r c here s z d q there in
        let hit' : contains a p ≡ true = sym (contains-bounds a p q ps pz) ∙ hit in
        let same : d ≡ j = apart a d j p r at_p here hit' inside in
        e ∙ ap some (omega (arith, kd, same))

returns-injective {ℓ} : {A : Type ℓ} {x y : A} → returns x ≡ returns y → x ≡ y
returns-injective e = cc

-- `free_page` when the region that holds the page is the next one.
free_page-own :
    (m : Regions) (j : ℕ) (c last : Region) (addr : ℕ)
    → find_region addr m.regions 0 ≡ some j
    → region_at m.regions j ≡ some c
    → page_free c addr ≡ some last
    → m.next_region ≡ some j
    → free_page m addr
      ≡ returns (record m {
        regions = put_region m.regions j last;
        next_region = some j;
        out_of_mem = false;
      })
unfolding free_page after_free
free_page-own m j c last addr found here freed next =
    let there : region_at (put_region m.regions j last) j ≡ some last =
      region_at-put_region m.regions j c last here in
    let low : ltb last.start last.start ≡ false = ground arith in
    let run : free_page m addr ≡ after_free m j last = simp (free_page, found, here, freed) in
    run ∙ simp (after_free, next, there, low)

-- The map of every region fits its length, and its end and its count fit 64 bits.
abbrev pub AllSized : List Region → Type 0
AllSized rs =
    (e : ℕ) (r : Region)
    → region_at rs e ≡ some r
    → (r.page_alloc_si.pages * page_size ≤ r.size)
      × (r.start + r.size < 2 ^ 64)
      × (r.pages_free < 2 ^ 64)

-- `last` is `after` with the region at position `j` exchanged for one that has the pages that it had
-- in `m`; the next region is that one.
pub record BroughtBack (m after : Regions) (addr : ℕ) : Type 0 where
  pub j : ℕ
  pub region : Region
  pub last : Region
  pub here : region_at m.regions j ≡ some region
  pub run :
      free_page after addr
      ≡ returns (record {
        regions = put_region m.regions j last;
        next_region = some j;
        out_of_mem = false;
      })
  pub pages : SamePages region last

-- The next region has a free page of order 0.
abbrev pub HasSpare : Regions → Type 0
HasSpare m =
    (j : ℕ) (r : Region)
    → m.next_region ≡ some j
    → region_at m.regions j ≡ some r
    → r.page_alloc_si.pages_free 0 ≢ 0

module _ (m : Regions) (ok : AllReady m.regions) (apart : Apart m.regions)
    (sized : AllSized m.regions) (addr : ℕ) (after : Regions) (ne : addr ≢ 0)
    (spare : HasSpare after) where
  bring_back : (j : ℕ) → TakenFrom m.regions j addr after → BroughtBack m after addr
  bring_back j t =
      let (v, free) = AllReady-at m.regions j t.region ok t.here in
      let (held, small, count) = sized j t.region t.here in
      let a : Allocated t.region 0 addr t.changed =
        allocated t.region addr t.changed ne t.outcome in
      let in_region = allocated-InRegion t.region addr t.changed v a free held small in
      let there : region_at after.regions j ≡ some t.changed =
        ap (λ rs. region_at rs j) t.list
        ∙ region_at-put_region m.regions j t.region t.changed t.here in
      let found : find_region addr after.regions 0 ≡ some j =
        ap (λ rs. find_region addr rs 0) t.list
        ∙ find_region-own addr m.regions j t.region t.changed apart t.here a.start a.size (
            sym (contains-bounds addr t.region t.changed a.start a.size)
            ∙ InRegion-contains t.changed addr in_region) in
      let (last, freed, same) =
        page_free-page_alloc t.region addr t.changed v free held small count t.call ne
          (spare j t.changed t.next there) in
      let lists : put_region after.regions j last ≡ put_region m.regions j last =
        ap (λ rs. put_region rs j last) t.list ∙ put_region-put_region m.regions j t.changed last in
      record {
        j = j;
        region = t.region;
        last = last;
        here = t.here;
        run =
            free_page-own after j t.changed last addr found there freed t.next
            ∙ ap (λ rs. returns (record { regions = rs; next_region = some j; out_of_mem = false }))
                lists;
        pages = same;
      }

  from_list : (i : ℕ) → PageFrom m i addr after → BroughtBack m after addr
  from_list i (from_next t) = bring_back i t
  from_list i (from_later j f t) = bring_back j t
  from_list i (no_region f null eq) = absurd (ne null)

-- When every region is valid and its lock free, none of them overlap, each is as long as its map says,
-- with its end and its count in 64 bits, `outOfMem` is not set, the next region is one of the list, and
-- `alloc_page` returns an address other than 0, with a free page of order 0 left in the region that is
-- then the next one: `free_page` of the address returns, and every region is as before both calls, but
-- for the one that the page came from, which has the free pages, the count and the free lock that it
-- had.
pub free_page-alloc_page :
    (m : Regions)
    → AllReady m.regions
    → Apart m.regions
    → AllSized m.regions
    → m.out_of_mem ≡ false
    → (i : ℕ) → m.next_region ≡ some i
    → (r : Region) → region_at m.regions i ≡ some r
    → (addr : ℕ) (after : Regions) → alloc_page m ≡ returns (addr, after)
    → addr ≢ 0
    → HasSpare after
    → BroughtBack m after addr
free_page-alloc_page m ok apart sized unset i next r here addr after run ne spare =
    let (addr', after', run', from) = alloc_page-PageFrom m ok unset i next r here in
    let same : (addr', after') ≡ (addr, after) = returns-injective (sym run' ∙ run) in
    from_list m ok apart sized addr after ne spare i (subst (λ x. PageFrom m i x.0 x.1) same from)
