-- ===== src/Heap/Stack.antt =====
-- kernel/mm.c: blocks of the memory stack.
use synos.Prelude.{ℕ, ◌+◌, ◌^◌, ◌<◌, ◌≡◌, ◌≢◌, refl, arith}
use synos.Heap.{MemStack, memstck_malloc, memstck_disable}

-- Two blocks that `memstck_malloc` returns one after the other do not overlap, with a byte between
-- them, and the second ends below 2 MiB, when the end of the kernel, the
-- top of the stack and the sizes are below 2 ^ 32.
pub memstck_malloc-memstck_malloc :
    (mem_end : ℕ) (s : MemStack) (bytes bytes' : ℕ)
    → mem_end < 2 ^ 32
    → s.top < 2 ^ 32
    → bytes < 2 ^ 32
    → bytes' < 2 ^ 32
    → (memstck_malloc mem_end s bytes).0 ≢ 0
    → (memstck_malloc mem_end (memstck_malloc mem_end s bytes).1 bytes').0 ≢ 0
    → let (p, s') = memstck_malloc mem_end s bytes in
      let (q, s'') = memstck_malloc mem_end s' bytes' in (p + bytes < q) × (q + bytes' < 0x200000)
unfolding memstck_malloc
memstck_malloc-memstck_malloc mem_end s bytes bytes' he ht hb hb' np nq =
    (ground (arith, np, nq), ground (arith, np, nq))

-- Once the memory stack is disabled every `memstck_malloc` returns 0 and changes nothing.
pub memstck_malloc-memstck_disable :
    (mem_end : ℕ) (s : MemStack) (bytes : ℕ)
    → memstck_malloc mem_end (memstck_disable s) bytes ≡ (0, memstck_disable s)
unfolding memstck_malloc memstck_disable
memstck_malloc-memstck_disable mem_end s bytes = refl
