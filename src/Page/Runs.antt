-- ===== src/Page/Runs.antt =====
-- kernel/page.c: sequences of calls on one region, as steps that its callers choose.
use synos.Prelude.{ℕ, ◌≤◌, ◌<◌, ◌≡◌, sym, ap, ◌∙◌, subst, inl, inr, some, some-injective}
use synos.Page.Order.{max_order}
use synos.Page.State.{Region}
use synos.Page.Inv.{IsValid, IsFree}
use synos.Page.Alloc.Spec.{AllocSpec, AllocOutcome, pages_alloc-AllocSpec}
use synos.Page.Free.Spec.{page_of, InRegion, page_free-Freed}
use synos.Page.Buddy.{pages_alloc, page_free}

-- Allocation of any order, and the release of a page that is in use; the release of a page while
-- order 0 has no free page must not go above its next free page.
pub data Step : Region → Region → Type 0 where
  alloc :
      (region after : Region) (order addr : ℕ)
      → order < max_order
      → pages_alloc region order ≡ some (addr, after)
      → Step region after
  free :
      (region after : Region) (phaddr : ℕ)
      → InRegion region phaddr
      → ¬ IsFree region.page_alloc_si (page_of region phaddr)
      → (region.page_alloc_si.pages_free 0 ≡ 0
          → page_of region phaddr ≤ region.page_alloc_si.next_free_page 0)
      → page_free region phaddr ≡ some after
      → Step region after

pub data Reach (region : Region) : Region → Type 0 where
  here : Reach region region
  next : {before after : Region} → Reach region before → Step before after → Reach region after

-- What every call finds and leaves: a valid map, a free lock, and the place of the region.
pub record IsReady (start size : ℕ) (region : Region) : Type 0 where
  pub valid : IsValid region.page_alloc_si
  pub lock : region.lock ≡ 0
  pub at_start : region.start ≡ start
  pub of_size : region.size ≡ size

module _ (start size : ℕ) where
  AllocOutcome-IsReady :
      (region after : Region) (order addr : ℕ)
      → IsReady start size region
      → AllocOutcome region order (addr, after)
      → IsReady start size after
  AllocOutcome-IsReady region after order addr r (inl a) = record {
    valid = a.took.valid;
    lock = a.lock ∙ r.lock;
    at_start = a.start ∙ r.at_start;
    of_size = a.size ∙ r.of_size;
  }
  AllocOutcome-IsReady region after order addr r (inr x) = record {
    valid = subst (λ a. IsValid a.page_alloc_si) (sym x.marked) r.valid;
    lock = ap (λ a. a.lock) x.marked ∙ r.lock;
    at_start = ap (λ a. a.start) x.marked ∙ r.at_start;
    of_size = ap (λ a. a.size) x.marked ∙ r.of_size;
  }

  Step-IsReady :
      {region after : Region}
      → Step region after
      → IsReady start size region
      → IsReady start size after
  Step-IsReady (alloc region after order addr bound e) r =
      AllocOutcome-IsReady region after order addr r
        (subst (AllocSpec region order) e (pages_alloc-AllocSpec region order r.valid bound r.lock))
  Step-IsReady (free region after phaddr w taken near e) r =
      let (done, e', z) = page_free-Freed region phaddr r.valid r.lock w taken near in
      let same : done ≡ after = some-injective _ _ (sym e' ∙ e) in
      subst (IsReady start size) same (record {
        valid = z.back.valid;
        lock = z.lock;
        at_start = z.start ∙ r.at_start;
        of_size = z.size ∙ r.of_size;
      })

  -- Through every sequence of allocations and of releases of pages in use the map stays valid, the
  -- lock is free again after each call, and the region stays in its place. A page is released only
  -- where the next free page of order 0 does not lie below it when no page counts as free in order 0.
  pub Reach-IsReady :
      {region after : Region}
      → IsReady start size region
      → Reach region after
      → IsReady start size after
  Reach-IsReady r here = r
  Reach-IsReady r (next before step) = Step-IsReady step (Reach-IsReady r before)
