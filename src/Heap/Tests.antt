-- ===== src/Heap/Tests.antt =====
-- A heap of one page and a memory stack for kernel/mm.c.
use synos.Prelude.{ℕ, ◌+◌, ◌<◌, ◌≡◌, refl, arith, true, false, inl, inr, some, ◌-◌, List, [], ◌∷◌}
use synos.Page.Order.{log_order}
use synos.Heap.{
  Pointer, Header, MemStack, header_size, pointer_size, kmalloc, memstck_malloc, find_size_max,
}
use synos.Heap.Whole.{IsHeap, extents, kmalloc-IsHeap}
use synos.Heap.Overrun.{new_size, kmalloc-overrun}
use synos.Heap.Stack.{memstck_malloc-memstck_malloc}

abbrev one_free : List Pointer
one_free = record { address = 0x100018; size = 4056 } ∷ []

abbrev heap : List Header
heap = record { address = 0x100000; size = 4096; size_max = 4056; pointers = one_free } ∷ []

-- A block of 16 bytes is in use.
abbrev one_used : List Header
one_used =
    record {
      address = 0x100000;
      size = 4096;
      size_max = 4024;
      pointers =
          record { address = 0x100018; size = 0 } ∷ record { address = 0x100038; size = 4024 } ∷ [];
    }
    ∷ []

one_used-IsHeap : IsHeap one_used ((0x100028, 16) ∷ [])
unfolding find_size_max
one_used-IsHeap = record {
  headers = (
    record {
      whole = omega arith;
      ordered = (omega arith, (omega arith, omega arith));
      largest = refl;
    },
    tt,
    tt,
  );
  clear = (((inl (omega arith), (inr (omega arith), tt)), tt), tt);
  apart = (tt, tt);
}

kmalloc-IsHeap_example :
    (address : ℕ) × (after : List Header) × (kmalloc 100 (λ order. 0) one_used
      ≡ some (address, after))
    × IsHeap after ((address, 100) ∷ (0x100028, 16) ∷ [])
    × (extents after ≡ extents one_used)
kmalloc-IsHeap_example =
    kmalloc-IsHeap 100 (λ order. 0) one_used ((0x100028, 16) ∷ []) (omega arith) one_used-IsHeap
      (inl (omega arith))

-- One page is found for the new header.
abbrev fresh_pages : ℕ → ℕ
fresh_pages order = 0x200000

page_for_100 : new_size 100 ≡ 4096
unfolding log_order
page_for_100 = refl

-- Nothing is left under the only header.
abbrev heap_full : List Header
heap_full = record { address = 0x100000; size = 4096; size_max = 0; pointers = [] } ∷ []

kmalloc-overrun_example :
    (once twice : List Header) × (address : ℕ) × (kmalloc 100 fresh_pages heap_full
      ≡ some (0x200000 + header_size + pointer_size, once))
    × (kmalloc (new_size 100 - 100 - pointer_size) fresh_pages once ≡ some (address, twice))
    × (address + (new_size 100 - 100 - pointer_size) ≡ 0x200000 + new_size 100 + 40)
kmalloc-overrun_example =
    kmalloc-overrun 100 fresh_pages heap_full (omega arith) (omega (arith, page_for_100))
      (omega (arith, page_for_100)) (λ e. omega (arith, e)) (omega arith, tt)
      (omega (arith, page_for_100), tt)

abbrev boot_stack : MemStack
boot_stack = record { init = false; enable = true; top = 0 }

memstck_malloc-memstck_malloc_example :
    let (p, s') = memstck_malloc 0x120000 boot_stack 64 in
    let (q, s'') = memstck_malloc 0x120000 s' 32 in (p + 64 < q) × (q + 32 < 0x200000)
unfolding memstck_malloc
memstck_malloc-memstck_malloc_example =
    memstck_malloc-memstck_malloc 0x120000 boot_stack 64 32 (omega arith) (omega arith)
      (omega arith) (omega arith) (λ e. omega (arith, e)) (λ e. omega (arith, e))
