-- ===== src/Page/Free.antt =====
-- kernel/page.c: the paths of `pages_free` that a caller can see from outside: the early returns, and
-- the flag and the lock of the region.
mod Tests
pub mod Clear
pub mod Spec
pub mod RoundTrip
pub mod Reuse
use synos.Prelude.{
  ℕ, ◌-◌, ◌/◌, ◌<◌, ◌≡◌, refl, Bool, true, false, ◌||◌, not, none, some, arith, ltb, leb, add64,
  Bool-cases, inl, inr,
}
use synos.Page.Order.{max_order, page_size}
use synos.Page.State.{Region, block_check}
use synos.Page.Buddy.{lock_region, pages_alloc, pages_free}
use synos.Spinlock.{spinlock_lock}

-- The guards of `pages_free`: the address lies outside the region, or its block is free already.
abbrev pub refuses : Region → ℕ → ℕ → Bool
refuses region phaddr order =
    (ltb phaddr region.start || leb (add64 region.start region.size) phaddr)
    || not (block_check region.page_alloc_si order ((phaddr - region.start) / page_size))

pages_free-refused :
    (region : Region) (phaddr order : ℕ)
    → region.lock ≡ 0
    → refuses region phaddr order ≡ true
    → pages_free region phaddr order ≡ some (lock_region region 1)
unfolding pages_free
pages_free-refused region phaddr order free h =
    rw free
      (elim (Bool-cases (ltb phaddr region.start || leb (add64 region.start region.size) phaddr)) [
        | inl out ↦ rw out refl
        | inr inside ↦
            let clear : block_check region.page_alloc_si order ((phaddr - region.start) / page_size)
                ≡ false =
              ground (arith, h, inside) in
            rw (inside, clear) refl
      ])

pages_alloc-held :
    (region : Region) (order : ℕ)
    → order < max_order
    → pages_alloc (lock_region region 1) order ≡ none
unfolding pages_alloc
pages_alloc-held region order bound = rw in_range refl
  where
    in_range : leb max_order order ≡ false
    in_range = ground arith

pages_free-held :
    (region : Region) (phaddr order : ℕ) → pages_free (lock_region region 1) phaddr order ≡ none
unfolding pages_free
pages_free-held region phaddr order = refl

-- When `pages_free` refuses an address, because it lies outside the region or its block is free
-- already, it returns with the lock still held and nothing else changed: every later `pages_alloc`
-- of an order below MAX_ORDER and every later `pages_free` on that region spins for ever.
pub pages_free-deadlock :
    (region : Region) (phaddr order : ℕ)
    → region.lock ≡ 0
    → refuses region phaddr order ≡ true
    → (pages_free region phaddr order ≡ some (lock_region region 1))
      × ((k : ℕ) → k < max_order → pages_alloc (lock_region region 1) k ≡ none)
      × ((a k : ℕ) → pages_free (lock_region region 1) a k ≡ none)
pages_free-deadlock region phaddr order free h =
    (pages_free-refused region phaddr order free h, pages_alloc-held region, pages_free-held region)

-- A region that is marked full stays marked full through every `pages_free` that returns: nothing in
-- it clears the mark, whatever it frees.
pub pages_free-mem_full :
    (region : Region) (phaddr order : ℕ) (after : Region)
    → pages_free region phaddr order ≡ some after
    → region.mem_full ≡ true
    → after.mem_full ≡ true
unfolding pages_free spinlock_lock
pages_free-mem_full region phaddr order after h full = ground (arith, h, full)
