-- ===== src/Page/Regions/Blocks.antt =====
-- kernel/page.c: `alloc_pages`, the loop over the regions for a block of any order.
use synos.Prelude.{
  ℕ, zero, suc, ◌+◌, ◌≤◌, ◌<◌, ◌≡◌, ◌≢◌, refl, sym, ap, ◌∙◌, subst, ◌⊎◌, ◌==◌, Bool, true, false,
  ◌||◌, Option, none, some, List, arith, Bool-cases, inl, inr, ==→eq, ==→ne,
}
use synos.Page.Order.{max_order}
use synos.Page.State.{Region}
use synos.Page.Buddy.{pages_alloc}
use synos.Page.Alloc.Spec.{Allocated, AllocOutcome, AllocSpec, pages_alloc-AllocSpec}
use synos.Page.Regions.{
  Regions, returns, region_at, put_region, count, find_free_region, with_region, alloc_pages_rounds,
  alloc_pages,
}
use synos.Page.Regions.Search.{FreeFrom, find_free_region-FreeFrom, region_at-lt}
use synos.Page.Regions.Alloc.{outcome-ready, AllReady, AllReady-at, put_region-AllReady}
use synos.Page.Regions.Places.{region_at-put_region, count-put_region, region_at-other}

-- The block comes from the region at position `j`.
pub record BlockFrom (regions : List Region) (order j addr : ℕ) (after : Regions) : Type 0 where
  pub region : Region
  pub changed : Region
  pub here : region_at regions j ≡ some region
  pub took : Allocated region order addr changed
  pub there : region_at after.regions j ≡ some changed

-- What `alloc_pages` leaves: a block of a region from position `i` on, or 0.
pub record BlockOr0 (regions : List Region) (order i addr : ℕ) (after : Regions) : Type 0 where
  pub ready : AllReady after.regions
  pub in_memory : after.out_of_mem ≡ false
  pub block : (addr ≡ 0) ⊎ ((j : ℕ) × (i ≤ j) × BlockFrom regions order j addr after)

turn-out_of_mem :
    (rounds : ℕ) (m : Regions) (areg : Option ℕ) (order : ℕ)
    → 0 < rounds
    → m.out_of_mem ≡ true
    → alloc_pages_rounds rounds m areg order ≡ returns (0, record m { out_of_mem = false })
unfolding alloc_pages_rounds
turn-out_of_mem zero m areg order pos set = absurd (omega arith)
turn-out_of_mem (suc rounds) m areg order pos set = simp set

module _ (rounds : ℕ) (m : Regions) (i order : ℕ) (r r' : Region) (addr : ℕ)
    (unset : m.out_of_mem ≡ false) (here : region_at m.regions i ≡ some r)
    (call : pages_alloc r order ≡ some (addr, r')) where
  turn-found :
      (addr == 0) ≡ false
      → alloc_pages_rounds (suc rounds) m (some i) order ≡ returns (addr, with_region m i r')
  unfolding alloc_pages_rounds
  turn-found ne = simp (unset, here, call, ne)

  turn-again :
      (o : Option ℕ × Bool)
      → (addr == 0) ≡ true
      → find_free_region (put_region m.regions i r') (i + 1) ≡ o
      → alloc_pages_rounds (suc rounds) m (some i) order
        ≡ alloc_pages_rounds rounds
            (record (with_region m i r') { out_of_mem = o.1 || m.out_of_mem })
            o.0
            order
  unfolding alloc_pages_rounds
  turn-again o null e = simp (unset, here, call, null, e)

block_of :
    {r r' : Region} {order addr : ℕ}
    → addr ≢ 0
    → AllocOutcome r order (addr, r')
    → Allocated r order addr r'
block_of ne (inl a) = a
block_of ne (inr x) = absurd (ne x.null)

-- A block from a region behind position `i`, which alone was exchanged.
further :
    (m : Regions) (i : ℕ) (r' : Region) (order j addr : ℕ) (after : Regions)
    → i < j
    → (addr ≡ 0) ⊎ ((k : ℕ) × (j ≤ k) × BlockFrom (put_region m.regions i r') order k addr after)
    → (addr ≡ 0) ⊎ ((k : ℕ) × (i ≤ k) × BlockFrom m.regions order k addr after)
further m i r' order j addr after lt (inl null) = inl null
further m i r' order j addr after lt (inr (k, le, b)) = inr (
  k,
  omega arith,
  record {
    region = b.region;
    changed = b.changed;
    here = sym (region_at-other m.regions i k r' (omega arith)) ∙ b.here;
    took = b.took;
    there = b.there;
  },
)

-- `alloc_pages` ends in this many turns.
Ends : ℕ → Regions → ℕ → ℕ → Type 0
Ends rounds m i order =
    (addr : ℕ) × (after : Regions) × (alloc_pages_rounds rounds m (some i) order
      ≡ returns (addr, after))
    × BlockOr0 m.regions order i addr after

module _ (rounds : ℕ) (m : Regions) (i order : ℕ) (r : Region) (bound : order < max_order)
    (ok : AllReady m.regions) (unset : m.out_of_mem ≡ false) (here : region_at m.regions i ≡ some r)
    (enough : count m.regions < suc rounds + i)
    (later : (m' : Regions) (j : ℕ) (q : Region)
      → AllReady m'.regions
      → m'.out_of_mem ≡ false
      → region_at m'.regions j ≡ some q
      → count m'.regions < rounds + j
      → Ends rounds m' j order) where
  -- The region has no such block, and the search behind it found `o`.
  go_on :
      (r' : Region)
      → pages_alloc r order ≡ some (0, r')
      → AllReady (put_region m.regions i r')
      → (o : Option ℕ × Bool) → find_free_region (put_region m.regions i r') (i + 1) ≡ o
      → FreeFrom (put_region m.regions i r') (i + 1) o
      → Ends (suc rounds) m i order
  unfolding Ends
  go_on r' call ok' (none, set) e (is_set, none_free) =
      let m' : Regions = record (with_region m i r') { out_of_mem = set || m.out_of_mem } in
      let full : m'.out_of_mem ≡ true = ap (λ b. b || m.out_of_mem) is_set in
      let moved = turn-again rounds m i order r r' 0 unset here call (none, set) refl e in
      (
        0,
        record m' { out_of_mem = false },
        moved
            ∙ turn-out_of_mem rounds m' none order
                (omega (arith, enough, region_at-lt m.regions i r here)) full,
        record { ready = ok'; in_memory = refl; block = inl refl },
      )
  go_on r' call ok' (some j, set) e (not_set, le, (q, there, good, open_q), first) =
      let m' : Regions = record (with_region m i r') { out_of_mem = set || m.out_of_mem } in
      let clear : m'.out_of_mem ≡ false = ap (λ b. b || m.out_of_mem) not_set ∙ unset in
      let moved = turn-again rounds m i order r r' 0 unset here call (some j, set) refl e in
      let (addr, after, run, z) =
        later m' j q ok' clear there (omega (arith, enough, le, count-put_region m.regions i r')) in
      (
        addr,
        after,
        moved ∙ run,
        record {
          ready = z.ready;
          in_memory = z.in_memory;
          block = further m i r' order j addr after (omega (arith, le)) z.block;
        },
      )

  one_turn :
      (o : Option (ℕ × Region))
      → pages_alloc r order ≡ o
      → AllocSpec r order o
      → Ends (suc rounds) m i order
  unfolding Ends
  one_turn none e s = absurd s
  one_turn (some (addr, r')) e s =
      let (v, free) = AllReady-at m.regions i r ok here in
      let (v', free') = outcome-ready r r' order addr v free s in
      let ok' = put_region-AllReady m.regions i r' ok v' free' in
      elim (Bool-cases (addr == 0)) [
        | inl null ↦
            go_on r' (subst (λ x. pages_alloc r order ≡ some (x, r')) (==→eq _ _ null) e) ok'
              (find_free_region (put_region m.regions i r') (i + 1)) refl
              (find_free_region-FreeFrom (put_region m.regions i r') (i + 1))
        | inr ne ↦ (
          addr,
          with_region m i r',
          turn-found rounds m i order r r' addr unset here e ne,
          record {
            ready = ok';
            in_memory = unset;
            block = inr (
              i,
              omega arith,
              record {
                region = r;
                changed = r';
                here = here;
                took = block_of (==→ne _ _ ne) s;
                there = region_at-put_region m.regions i r r' here;
              },
            );
          },
        )
      ]

rounds_end :
    (rounds : ℕ) (m : Regions) (i order : ℕ) (r : Region)
    → order < max_order
    → AllReady m.regions
    → m.out_of_mem ≡ false
    → region_at m.regions i ≡ some r
    → count m.regions < rounds + i
    → Ends rounds m i order
rounds_end zero m i order r bound ok unset here enough =
    absurd (omega (arith, enough, region_at-lt m.regions i r here))
rounds_end (suc rounds) m i order r bound ok unset here enough =
    let (v, free) = AllReady-at m.regions i r ok here in
    one_turn rounds m i order r bound ok unset here enough
      (λ m' j q ok' unset' here' enough'.
        rounds_end rounds m' j order q bound ok' unset' here' enough')
      (pages_alloc r order) refl (pages_alloc-AllocSpec r order v bound free)

starts :
    (m : Regions) (i order : ℕ)
    → m.out_of_mem ≡ false
    → m.next_region ≡ some i
    → alloc_pages m order ≡ alloc_pages_rounds (count m.regions + 2) m (some i) order
unfolding alloc_pages alloc_pages_rounds
starts m i order unset next =
    let first : alloc_pages m order
        ≡ alloc_pages_rounds (count m.regions + 2) m m.next_region order =
      simp (alloc_pages, unset) in
    first ∙ ap (λ areg. alloc_pages_rounds (count m.regions + 2) m areg order) next

-- When every region is valid and its lock free, `outOfMem` is not set, the next region is one of the
-- list and the order is below MAX_ORDER, `alloc_pages` ends: it returns the address of a block that was
-- free in a region from the next one on, whose pages exactly stop being free in that region, or 0; every
-- region is valid again, its lock free, and `outOfMem` is not set.
pub alloc_pages-BlockOr0 :
    (m : Regions) (i order : ℕ) (r : Region)
    → order < max_order
    → AllReady m.regions
    → m.out_of_mem ≡ false
    → m.next_region ≡ some i
    → region_at m.regions i ≡ some r
    → (addr : ℕ) × (after : Regions) × (alloc_pages m order ≡ returns (addr, after))
      × BlockOr0 m.regions order i addr after
unfolding alloc_pages Ends
alloc_pages-BlockOr0 m i order r bound ok unset next here =
    let (addr, after, run, z) =
      rounds_end (count m.regions + 2) m i order r bound ok unset here (omega arith) in
    (addr, after, starts m i order unset next ∙ run, z)
