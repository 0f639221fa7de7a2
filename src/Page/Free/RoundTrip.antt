-- ===== src/Page/Free/RoundTrip.antt =====
-- kernel/page.c: `page_free` after `page_alloc`.
use synos.Prelude.{
  ℕ, ◌+◌, ◌*◌, ◌^◌, ◌≤◌, ◌<◌, ◌≡◌, ◌≢◌, ◌↔◌, sym, ◌∙◌, subst, inl, inr, some, arith, Bool-cases,
  ◌==◌, ==→eq, ==→ne,
}
use synos.Page.Order.{page_size, free_area_length}
use synos.Page.State.{Region}
use synos.Page.Inv.{IsValid, IsFree}
use synos.Page.Alloc.Spec.{Allocated, AllocOutcome, AllocSpec, pages_alloc-AllocSpec}
use synos.Page.Free.Spec.{page_of, InRegion, Freed, page_free-Freed}
use synos.Page.Buddy.{page_alloc, page_free}

-- `after` has the free pages, the count, the lock and the place of `region`.
pub record SamePages (region after : Region) : Type 0 where
  pub valid : IsValid after.page_alloc_si
  pub free : (q : ℕ) → IsFree after.page_alloc_si q ↔ IsFree region.page_alloc_si q
  pub counted : after.pages_free ≡ region.pages_free
  pub lock : after.lock ≡ 0
  pub start : after.start ≡ region.start

-- What `page_alloc` returned, read off its specification.
pub allocated :
    (region : Region) (addr : ℕ) (after : Region)
    → addr ≢ 0
    → AllocOutcome region 0 (addr, after)
    → Allocated region 0 addr after
allocated region addr after ne (inl a) = a
allocated region addr after ne (inr x) = absurd (ne x.null)

module _ (region : Region) (addr : ℕ) (after : Region) (v : IsValid region.page_alloc_si)
    (a : Allocated region 0 addr after) (free : region.lock ≡ 0)
    (held : region.page_alloc_si.pages * page_size ≤ region.size)
    (small : region.start + region.size < 2 ^ 64) where
  inside : a.block < region.page_alloc_si.pages
  unfolding free_area_length
  inside = a.took.inside

  address : addr ≡ page_size * a.block + region.start
  address = omega (arith, a.address, inside, held, small)

  back : page_of after addr ≡ a.block
  back = omega (arith, a.start, address)

  pub allocated-InRegion : InRegion after addr
  allocated-InRegion = record {
    above = omega (arith, a.start, address);
    below = omega (arith, a.start, a.size, address, inside, held);
    small = omega (arith, a.start, a.size, small);
    page = omega (arith, back, a.took.pages, inside);
  }

  pub in_use : ¬ IsFree after.page_alloc_si (page_of after addr)
  unfolding free_area_length
  in_use w = (a.took.others (page_of after addr) w).1 back

  -- The pages that are free after both calls.
  Freed-SamePages :
      (last : Region)
      → region.pages_free < 2 ^ 64
      → Freed after (page_of after addr) last
      → SamePages region last
  unfolding free_area_length
  Freed-SamePages last count z = record {
    valid = z.back.valid;
    free = λ q. (
      λ w. elim (z.back.added q w) [
        | inl old ↦ (a.took.others q old).0
        | inr own ↦ a.took.was_free q (own ∙ back)
      ],
      λ w. elim (Bool-cases (q == a.block)) [
        | inl own ↦ subst (IsFree last.page_alloc_si) (back ∙ sym (==→eq _ _ own)) z.back.freed
        | inr other ↦ z.back.kept q (a.took.kept q w (==→ne _ _ other))
      ],
    );
    counted = omega (arith, z.counted, a.charged, count);
    lock = z.lock;
    start = z.start ∙ a.start;
  }

-- `page_free` of the page that `page_alloc` has just returned succeeds, and leaves the region with
-- the free pages, the count and the free lock that it had before, when the region is as long as its
-- map says, its end and its count fit 64 bits, and order 0 still has a free page in between.
pub page_free-page_alloc :
    (region : Region) (addr : ℕ) (after : Region)
    → IsValid region.page_alloc_si
    → region.lock ≡ 0
    → region.page_alloc_si.pages * page_size ≤ region.size
    → region.start + region.size < 2 ^ 64
    → region.pages_free < 2 ^ 64
    → page_alloc region ≡ some (addr, after)
    → addr ≢ 0
    → after.page_alloc_si.pages_free 0 ≢ 0
    → (last : Region) × (page_free after addr ≡ some last) × SamePages region last
unfolding page_alloc
page_free-page_alloc region addr after v free held small count e ne more =
    let spec : AllocSpec region 0 (some (addr, after)) =
      subst (AllocSpec region 0) e (pages_alloc-AllocSpec region 0 v (omega arith) free) in
    let a : Allocated region 0 addr after = allocated region addr after ne spec in
    let (last, e', z) =
      page_free-Freed after addr a.took.valid (a.lock ∙ free)
        (allocated-InRegion region addr after v a free held small)
        (in_use region addr after v a free held small) (λ empty. absurd (more empty)) in
    (last, e', Freed-SamePages region addr after v a free held small last count z)
