-- ===== src/Page/Regions/Alloc.antt =====
-- kernel/page.c: what `alloc_page` takes from the list of regions.
use synos.Prelude.{
  ℕ, zero, suc, ◌+◌, ◌≡◌, refl, sym, ap, ◌∙◌, subst, Bool, true, false, Option, none, some, List,
  [], ◌∷◌, arith, Bool-cases, inl, inr, some-injective,
}
use synos.Page.State.{Region}
use synos.Page.Inv.{IsValid}
use synos.Page.Buddy.{page_alloc}
use synos.Page.Alloc.Spec.{AllocOutcome, AllocSpec, pages_alloc-AllocSpec}
use synos.Page.Regions.{
  Regions, returns, region_at, put_region, find_free_region, with_next, with_region,
  alloc_page_rounds, alloc_page,
}
use synos.Page.Regions.Search.{FreeFrom, find_free_region-FreeFrom}

-- Every region is valid and its lock free.
abbrev pub AllReady : List Region → Type 0
AllReady [] = Unit
AllReady (r ∷ rs) = IsValid r.page_alloc_si × (r.lock ≡ 0) × AllReady rs

pub AllReady-at :
    (rs : List Region) (i : ℕ) (r : Region)
    → AllReady rs
    → region_at rs i ≡ some r
    → IsValid r.page_alloc_si × (r.lock ≡ 0)
unfolding region_at
AllReady-at [] i r ok h = cc
AllReady-at (q ∷ rs) zero r (v, free, ok) h =
    subst (λ x. IsValid x.page_alloc_si × (x.lock ≡ 0)) (some-injective _ _ h) (v, free)
AllReady-at (q ∷ rs) (suc i) r (v, free, ok) h = AllReady-at rs i r ok h

pub put_region-AllReady :
    (rs : List Region) (i : ℕ) (r : Region)
    → AllReady rs
    → IsValid r.page_alloc_si
    → r.lock ≡ 0
    → AllReady (put_region rs i r)
unfolding put_region
put_region-AllReady [] i r ok v free = tt
put_region-AllReady (q ∷ rs) zero r (v', free', ok) v free = (v, free, ok)
put_region-AllReady (q ∷ rs) (suc i) r (v', free', ok) v free =
    (v', free', put_region-AllReady rs i r ok v free)

-- The page is taken from the region at position `j`, which is not marked full, or that region turned
-- out to have no page and is marked now; the other regions are as before.
pub record TakenFrom (regions : List Region) (j addr : ℕ) (after : Regions) : Type 0 where
  pub region : Region
  pub changed : Region
  pub here : region_at regions j ≡ some region
  pub open_region : region.mem_full ≡ false
  pub call : page_alloc region ≡ some (addr, changed)
  pub outcome : AllocOutcome region 0 (addr, changed)
  pub list : after.regions ≡ put_region regions j changed
  pub next : after.next_region ≡ some j
  pub in_memory : after.out_of_mem ≡ false
  pub ready : AllReady after.regions

pub outcome-ready :
    (r r' : Region) (order addr : ℕ)
    → IsValid r.page_alloc_si
    → r.lock ≡ 0
    → AllocOutcome r order (addr, r')
    → IsValid r'.page_alloc_si × (r'.lock ≡ 0)
outcome-ready r r' order addr v free (inl a) = (a.took.valid, a.lock ∙ free)
outcome-ready r r' order addr v free (inr x) =
    subst (λ q. IsValid q.page_alloc_si × (q.lock ≡ 0)) (sym x.marked) (v, free)

-- One turn that ends at the next region.
pub turn-takes :
    (rounds : ℕ) (m : Regions) (j : ℕ) (r r' : Region) (addr : ℕ)
    → m.out_of_mem ≡ false
    → m.next_region ≡ some j
    → region_at m.regions j ≡ some r
    → r.mem_full ≡ false
    → page_alloc r ≡ some (addr, r')
    → alloc_page_rounds (suc rounds) m ≡ returns (addr, with_region m j r')
unfolding alloc_page_rounds
turn-takes rounds m j r r' addr unset next here not_full e = simp (unset, next, here, not_full, e)

module _ (m : Regions) (ok : AllReady m.regions) (unset : m.out_of_mem ≡ false) (j : ℕ)
    (next : m.next_region ≡ some j) (r : Region) (here : region_at m.regions j ≡ some r)
    (not_full : r.mem_full ≡ false) (rounds : ℕ) where
  take :
      (o : Option (ℕ × Region))
      → page_alloc r ≡ o
      → AllocSpec r 0 o
      → (addr : ℕ) × (after : Regions) × (alloc_page_rounds (suc rounds) m ≡ returns (addr, after))
        × TakenFrom m.regions j addr after
  take none e s = absurd s
  take (some (addr, r')) e s =
      let r_ok = AllReady-at m.regions j r ok here in
      let r'_ok = outcome-ready r r' 0 addr r_ok.0 r_ok.1 s in
      (
        addr,
        with_region m j r',
        turn-takes rounds m j r r' addr unset next here not_full e,
        record {
          region = r;
          changed = r';
          here = here;
          open_region = not_full;
          call = e;
          outcome = s;
          list = refl;
          next = next;
          in_memory = unset;
          ready = put_region-AllReady m.regions j r' ok r'_ok.0 r'_ok.1;
        },
      )

  take_here :
      (addr : ℕ) × (after : Regions) × (alloc_page_rounds (suc rounds) m ≡ returns (addr, after))
      × TakenFrom m.regions j addr after
  unfolding page_alloc
  take_here =
      let r_ok = AllReady-at m.regions j r ok here in
      take (page_alloc r) refl (pages_alloc-AllocSpec r 0 r_ok.0 (omega arith) r_ok.1)

-- What `alloc_page` does with the next region at position `i`: it takes a page from it; or the region
-- is marked full, and it takes one from the first usable region behind it that is not; or every usable
-- region behind it is marked full, and it returns 0, with `next_region` null and `outOfMem` set.
pub data PageFrom (m : Regions) (i addr : ℕ) (after : Regions) : Type 0 where
  from_next : TakenFrom m.regions i addr after → PageFrom m i addr after
  from_later :
      (j : ℕ)
      → FreeFrom m.regions (i + 1) (some j, false)
      → TakenFrom m.regions j addr after
      → PageFrom m i addr after
  no_region :
      FreeFrom m.regions (i + 1) (none, true)
      → addr ≡ 0
      → after ≡ record m { next_region = none; out_of_mem = true }
      → PageFrom m i addr after

pub turn-moves :
    (rounds : ℕ) (m : Regions) (i : ℕ) (r : Region) (o : Option ℕ × Bool)
    → m.out_of_mem ≡ false
    → m.next_region ≡ some i
    → region_at m.regions i ≡ some r
    → r.mem_full ≡ true
    → find_free_region m.regions (i + 1) ≡ o
    → alloc_page_rounds (suc rounds) m ≡ alloc_page_rounds rounds (with_next m o)
unfolding alloc_page_rounds
turn-moves rounds m i r o unset next here full e = simp (unset, next, here, full, e)

pub turn-ends :
    (rounds : ℕ) (m : Regions)
    → m.out_of_mem ≡ true
    → alloc_page_rounds (suc rounds) m ≡ returns (0, m)
unfolding alloc_page_rounds
turn-ends rounds m set = simp set

module _ (m : Regions) (ok : AllReady m.regions) (unset : m.out_of_mem ≡ false) (i : ℕ)
    (next : m.next_region ≡ some i) (r : Region) (here : region_at m.regions i ≡ some r) where
  -- `alloc_page` returns.
  Ends : Type 0
  Ends =
      (addr : ℕ) × (after : Regions) × (alloc_page m ≡ returns (addr, after))
      × PageFrom m i addr after

  behind :
      r.mem_full ≡ true
      → (o : Option ℕ × Bool) → find_free_region m.regions (i + 1) ≡ o
      → FreeFrom m.regions (i + 1) o
      → Ends
  unfolding alloc_page Ends
  behind full (none, set) e (is_set, none_free) =
      let e' : find_free_region m.regions (i + 1) ≡ (none, true) = e ∙ ap (λ b. (none, b)) is_set in
      let moved : alloc_page_rounds 2 m ≡ alloc_page_rounds 1 (with_next m (none, true)) =
        turn-moves 1 m i r (none, true) unset next here full e' in
      (
        0,
        with_next m (none, true),
        moved ∙ turn-ends 0 (with_next m (none, true)) refl,
        no_region (refl, none_free) refl refl,
      )
  behind full (some j, set) e (not_set, le, (q, there, good, open_q), first) =
      let e' : find_free_region m.regions (i + 1) ≡ (some j, false) =
        e ∙ ap (λ b. (some j, b)) not_set in
      let moved : alloc_page_rounds 2 m ≡ alloc_page_rounds 1 (with_next m (some j, false)) =
        turn-moves 1 m i r (some j, false) unset next here full e' in
      let (addr, after, run, taken) =
        take_here (with_next m (some j, false)) ok unset j refl q there open_q 0 in
      (addr, after, moved ∙ run, from_later j (refl, le, (q, there, good, open_q), first) taken)

  first_turn : Ends
  unfolding alloc_page Ends
  first_turn = elim (Bool-cases r.mem_full) [
    | inl full ↦
        behind full (find_free_region m.regions (i + 1)) refl
          (find_free_region-FreeFrom m.regions (i + 1))
    | inr not_full ↦
        let (addr, after, run, taken) = take_here m ok unset i next r here not_full 1 in
        (addr, after, run, from_next taken)
  ]

-- When every region is valid and its lock free, `outOfMem` is not set and the next region is one of
-- the list, `alloc_page` returns; it takes a page from the next region, when that is not marked full,
-- or from the first usable region behind it that is not; or every usable region behind it is full, and
-- it returns 0, with `next_region` null and `outOfMem` set. A region that it takes a page from loses
-- exactly the page at the address returned, or had none, and then 0 is returned and the region is
-- marked full; the other regions are as before, and every region is valid again, its lock free.
pub alloc_page-PageFrom :
    (m : Regions)
    → AllReady m.regions
    → m.out_of_mem ≡ false
    → (i : ℕ) → m.next_region ≡ some i
    → (r : Region) → region_at m.regions i ≡ some r
    → (addr : ℕ) × (after : Regions) × (alloc_page m ≡ returns (addr, after))
      × PageFrom m i addr after
unfolding Ends
alloc_page-PageFrom m ok unset i next r here = first_turn m ok unset i next r here
