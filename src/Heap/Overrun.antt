-- ===== src/Heap/Overrun.antt =====
-- kernel/mm.c: the pages that `kmalloc` takes for a new header are handed out beyond their end.
use synos.Prelude.{
  ℕ, ◌+◌, ◌-◌, ◌*◌, ◌^◌, ◌<◌, ◌≡◌, ◌≢◌, refl, true, false, some, List, [], ◌∷◌, ◌++◌, arith, ltb,
  leb, ◌==◌, sub64,
}
use synos.Page.Order.{page_size}
use synos.Heap.{
  Pointer, Header, header_size, pointer_size, order_for, new_header, find_size_max, split_pointer,
  place, place_in, kmalloc_from, kmalloc,
}

-- No header has room for that many bytes.
abbrev pub NoRoom : ℕ → List Header → Type 0
NoRoom bytes [] = Unit
NoRoom bytes (h ∷ hs) = (h.size_max < bytes) × NoRoom bytes hs

-- The length of the pages for a new header.
abbrev pub new_size : ℕ → ℕ
new_size bytes = 2 ^ order_for bytes * page_size

-- The first headers are passed over.
skip :
    (bytes : ℕ) (pages : ℕ → ℕ) (hs tail after : List Header) (address : ℕ)
    → NoRoom bytes hs
    → kmalloc_from bytes pages tail ≡ some (address, after)
    → kmalloc_from bytes pages (hs ++ tail) ≡ some (address, hs ++ after)
unfolding kmalloc_from
skip bytes pages [] tail after address none_here h = h
skip bytes pages (x ∷ hs) tail after address (small, rest) h =
    let e : leb bytes x.size_max ≡ false = ground arith in
    rw (kmalloc_from, e, skip bytes pages hs tail after address rest h) refl

at_end :
    (bytes : ℕ) (pages : ℕ → ℕ) (hs after : List Header) (address : ℕ)
    → NoRoom bytes hs
    → kmalloc_from bytes pages [] ≡ some (address, after)
    → kmalloc_from bytes pages hs ≡ some (address, hs ++ after)
unfolding kmalloc_from
at_end bytes pages [] after address none_here h = h
at_end bytes pages (x ∷ hs) after address (small, rest) h =
    let e : leb bytes x.size_max ≡ false = ground arith in
    rw (kmalloc_from, e, at_end bytes pages hs after address rest h) refl

module _ (start size bytes : ℕ) (pos : 0 < bytes) (fits : bytes + pointer_size < size)
    (whole : start + size + 40 < 2 ^ 64) where
  abbrev left : ℕ
  left = size - bytes - pointer_size

  abbrev rest : Pointer
  rest = record { address = start + header_size + pointer_size + bytes; size = left }

  abbrev used : Pointer
  used = record { address = start + header_size; size = 0 }

  left_lem : sub64 (sub64 size bytes) pointer_size ≡ left
  left_lem = omega arith

  first_split :
      split_pointer (record { address = start + header_size; size = size }) bytes []
      ≡ used ∷ rest ∷ []
  unfolding split_pointer
  first_split =
      let more : ltb pointer_size (sub64 size bytes) ≡ true = ground arith in
      rw (more, left_lem) refl

  largest : find_size_max 0 (used ∷ rest ∷ []) ≡ left
  unfolding find_size_max
  largest = ground arith

  first_place :
      place bytes (record { address = start + header_size; size = size } ∷ [])
      ≡ some (start + header_size + pointer_size, used ∷ rest ∷ [])
  unfolding place
  first_place = let e : leb bytes size ≡ true = ground arith in rw (place, e, first_split) refl

  second_place :
      place left (used ∷ rest ∷ [])
      ≡ some (rest.address + pointer_size, used ∷ split_pointer rest left [])
  unfolding place
  second_place =
      let e : leb left 0 ≡ false = ground arith in
      let e' : leb left left ≡ true = ground arith in rw (place, e, e') refl

  -- The header on the new pages after the first request, and after the second.
  abbrev once : Header
  once = record { address = start; size = size; size_max = left; pointers = used ∷ rest ∷ [] }

  abbrev twice : Header
  twice =
      let ps : List Pointer = used ∷ split_pointer rest left [] in
      record { address = start; size = size; size_max = find_size_max 0 ps; pointers = ps }

  first_place_in :
      (most : ℕ)
      → place_in bytes (record {
        address = start;
        size = size;
        size_max = most;
        pointers = record { address = start + header_size; size = size } ∷ [];
      })
        ≡ some (start + header_size + pointer_size, once)
  unfolding place_in
  first_place_in most = rw (place_in, first_place, largest) refl

  second_place_in : place_in left once ≡ some (rest.address + pointer_size, twice)
  unfolding place_in
  second_place_in = rw (place_in, second_place) refl

module _ (bytes : ℕ) (pages : ℕ → ℕ) (pos : 0 < bytes)
    (fits : bytes + pointer_size < new_size bytes)
    (whole : pages (order_for bytes) + new_size bytes + 40 < 2 ^ 64)
    (found : pages (order_for bytes) ≢ 0) where
  abbrev start : ℕ
  start = pages (order_for bytes)

  on_new_pages :
      kmalloc_from bytes pages []
      ≡ some (
        start + header_size + pointer_size,
        once start (new_size bytes) bytes pos fits whole ∷ [],
      )
  unfolding kmalloc_from new_header
  on_new_pages =
      let e : (start == 0) ≡ false = ground arith in
      rw
        (
          kmalloc_from,
          e,
          first_place_in start (new_size bytes) bytes pos fits whole
              (sub64 (new_size bytes) (header_size + pointer_size)),
        )
        refl

  on_the_rest :
      kmalloc_from
        (left start (new_size bytes) bytes pos fits whole)
        pages
        (once start (new_size bytes) bytes pos fits whole ∷ [])
      ≡ some (
        (rest start (new_size bytes) bytes pos fits whole).address + pointer_size,
        twice start (new_size bytes) bytes pos fits whole ∷ [],
      )
  unfolding kmalloc_from
  on_the_rest =
      let e : leb (left start (new_size bytes) bytes pos fits whole)
            (left start (new_size bytes) bytes pos fits whole)
          ≡ true =
        ground arith in
      rw (kmalloc_from, e, second_place_in start (new_size bytes) bytes pos fits whole) refl

-- When no header has room for `bytes` bytes, nor for as many as will be left, and new pages are found
-- that hold more than `bytes` bytes and a pointer, `kmalloc` returns the first block on them; the next
-- request, for exactly what the new header then says it has left, returns a block that ends 40 bytes
-- behind the end of the pages.
pub kmalloc-overrun :
    (bytes : ℕ) (pages : ℕ → ℕ) (heap : List Header)
    → 0 < bytes
    → bytes + pointer_size < new_size bytes
    → pages (order_for bytes) + new_size bytes + 40 < 2 ^ 64
    → pages (order_for bytes) ≢ 0
    → NoRoom bytes heap
    → NoRoom (new_size bytes - bytes - pointer_size) heap
    → (once twice : List Header) × (address : ℕ) × (kmalloc bytes pages heap
        ≡ some (pages (order_for bytes) + header_size + pointer_size, once))
      × (kmalloc (new_size bytes - bytes - pointer_size) pages once ≡ some (address, twice))
      × (address + (new_size bytes - bytes - pointer_size)
          ≡ pages (order_for bytes) + new_size bytes + 40)
unfolding kmalloc
kmalloc-overrun bytes pages heap pos fits whole found none_first none_second =
    let size : ℕ = new_size bytes in
    let start : ℕ = pages (order_for bytes) in
    let nonzero : (bytes == 0) ≡ false = ground arith in
    let nonzero' : (size - bytes - pointer_size == 0) ≡ false = ground arith in
    (
      heap ++ once start size bytes pos fits whole ∷ [],
      heap ++ twice start size bytes pos fits whole ∷ [],
      start + header_size + pointer_size + bytes + pointer_size,
      rw nonzero
          (at_end bytes pages heap _ _ none_first (on_new_pages bytes pages pos fits whole found)),
      rw nonzero' (
          skip (size - bytes - pointer_size) pages heap _ _ _ none_second
            (on_the_rest bytes pages pos fits whole found)),
      omega arith,
    )
