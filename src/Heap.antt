-- ===== src/Heap.antt =====
-- kernel/mm.c: the kernel heap, with `mheader_t` and `mpointer_t` of kernel/include/synos/mm.h, and the
-- memory stack that serves before the heap is set up.
mod Tests
pub mod Place
pub mod Pages
pub mod Stack
pub mod Free
pub mod Blocks
pub mod Whole
pub mod Overrun
use synos.Prelude.{
  ℕ, zero, suc, ◌+◌, ◌-◌, ◌*◌, ◌/◌, ◌^◌, Bool, true, false, ◌&&◌, ◌||◌, not, Option, none, some,
  List, [], ◌∷◌, ltb, leb, ◌==◌, if◌then◌else◌, add64, sub64,
}
use synos.Page.Order.{log_order, page_size}

-- sizeof(mheader_t) and sizeof(mpointer_t), which are packed.
abbrev pub header_size : ℕ
header_size = 24

abbrev pub pointer_size : ℕ
pointer_size = 16

-- `mpointer_t` at an address; its `next` is the rest of the list. A size of 0 means allocated.
pub record Pointer : Type 0 where
  pub address : ℕ
  pub size : ℕ

-- `mheader_t` at an address, with the list of pointers that starts behind it.
pub record Header : Type 0 where
  pub address : ℕ
  pub size : ℕ
  pub size_max : ℕ
  pub pointers : List Pointer

-- The loop with its variable `max`.
unfoldable pub find_size_max : ℕ → List Pointer → ℕ
find_size_max max [] = max
find_size_max max (p ∷ ps) = find_size_max (if ltb max p.size then p.size else max) ps

-- `p` and what follows it. A merge stays at `p`.
unfoldable pub merge_from : Pointer → List Pointer → List Pointer
merge_from p [] = p ∷ []
merge_from p (q ∷ ps) =
    let joined = merge_from (record p { size = add64 p.size q.size }) ps in
    let apart = p ∷ merge_from q ps in if ltb 0 p.size && ltb 0 q.size then joined else apart

unfoldable pub pointers_merge : List Pointer → List Pointer
unfolding merge_from
pointers_merge [] = []
pointers_merge (p ∷ ps) = merge_from p ps

-- The pointer that is used, and a new one for the rest of its bytes if they hold more than a pointer.
unfoldable pub split_pointer : Pointer → ℕ → List Pointer → List Pointer
split_pointer p bytes ps =
    let address = p.address + pointer_size in
    let rest : Pointer = record {
      address = address + bytes;
      size = sub64 (sub64 p.size bytes) pointer_size;
    } in
    let used : Pointer = record p { size = 0 } in
    if ltb pointer_size (sub64 p.size bytes) then used ∷ rest ∷ ps else used ∷ ps

-- The address of the first pointer that is large enough, and the pointers afterwards. `none`: there
-- is none, and the code reads through the null pointer.
unfoldable pub place : ℕ → List Pointer → Option (ℕ × List Pointer)
unfolding split_pointer
place bytes [] = none
place bytes (p ∷ ps) = elim (leb bytes p.size) [
  | true ↦ some (p.address + pointer_size, split_pointer p bytes ps)
  | false ↦ elim (place bytes ps) [ none ↦ none | some (address, ps') ↦ some (address, p ∷ ps') ]
]

unfoldable pub place_in : ℕ → Header → Option (ℕ × Header)
unfolding place find_size_max
place_in bytes h = elim (place bytes h.pointers) [
  | none ↦ none
  | some (address, ps) ↦ some (address, record h { pointers = ps; size_max = find_size_max 0 ps })
]

-- The order of the pages for a new header. `ORDER` shifts an `int`; there are no pages of an order for
-- which the shift overflows.
abbrev pub order_for : ℕ → ℕ
order_for bytes = log_order (add64 bytes (header_size + pointer_size + (page_size - 1)) / page_size)

-- The header on new pages: `p->size = h->size`, which counts the header and the pointer as well.
unfoldable pub new_header : ℕ → ℕ → Header
new_header address bytes =
    let size = 2 ^ order_for bytes * page_size in
    record {
      address = address;
      size = size;
      size_max = sub64 size (header_size + pointer_size);
      pointers = record { address = address + header_size; size = size } ∷ [];
    }

-- The headers from one on. `pages` is what `__get_free_pages` returns for the order asked for, 0 when
-- it fails; the result is the address, 0 for null, and the headers.
unfoldable pub kmalloc_from : ℕ → (ℕ → ℕ) → List Header → Option (ℕ × List Header)
unfolding place_in new_header
kmalloc_from bytes pages [] =
    let h = new_header (pages (order_for bytes)) bytes in
    if pages (order_for bytes) == 0
    then some (0, [])
    else elim (place_in bytes h) [ none ↦ none | some (address, h') ↦ some (address, h' ∷ []) ]
kmalloc_from bytes pages (h ∷ hs) = elim (leb bytes h.size_max) [
  | true ↦ elim (place_in bytes h) [ none ↦ none | some (address, h') ↦ some (address, h' ∷ hs) ]
  | false ↦ elim (kmalloc_from bytes pages hs) [
    | none ↦ none
    | some (address, hs') ↦ some (address, h ∷ hs')
  ]
]

-- `kmalloc` once the MMU is enabled, when there is a first header.
unfoldable pub kmalloc : ℕ → (ℕ → ℕ) → List Header → Option (ℕ × List Header)
unfolding kmalloc_from
kmalloc bytes pages heap = if bytes == 0 then some (0, heap) else kmalloc_from bytes pages heap

-- `p->next`, 0 for null.
abbrev pub next_address : List Pointer → ℕ
next_address [] = 0
next_address (p ∷ ps) = p.address

-- The search for the pointer of an address and the new size of it. `p + sizeof(mpointer_t)` counts in
-- units of a pointer.
unfoldable pub release : ℕ → List Pointer → Option (List Pointer)
release address [] = none
release address (p ∷ ps) = elim (p.address + pointer_size * pointer_size == address) [
  | true ↦ some (record p { size = sub64 (next_address ps) address } ∷ ps)
  | false ↦ elim (release address ps) [ none ↦ none | some ps' ↦ some (p ∷ ps') ]
]

-- The first header whose memory holds the address decides. The bytes that are wiped are not part of
-- the model.
unfoldable pub kfree : ℕ → List Header → List Header
unfolding release pointers_merge
kfree address [] = []
kfree address (h ∷ hs) =
    let rest = h ∷ kfree address hs in
    let freed : List Header = elim (release address h.pointers) [
      | none ↦ h ∷ hs
      | some ps ↦
          let ps' = pointers_merge ps in
          record h { pointers = ps'; size_max = find_size_max 0 ps' } ∷ hs
    ] in
    if ltb h.address address && ltb address (add64 h.address h.size) then freed else rest

-- `MemStack_init`, `MemStack_enable` and `MemStack`.
pub record MemStack : Type 0 where
  pub init : Bool
  pub enable : Bool
  pub top : ℕ

-- `mem_end` is the end of the kernel's memory, a symbol of the linker; 0 stands for null. The byte
-- behind the block is set to 0.
unfoldable pub memstck_malloc : ℕ → MemStack → ℕ → ℕ × MemStack
memstck_malloc mem_end s bytes =
    let top = if s.init then s.top else add64 mem_end 64 in
    let s' = record s { init = true; top = top } in
    if not s.enable
    then (0, s)
    else if leb 0x200000 top
    then (0, record s' { enable = false })
    else if leb 0x200000 (add64 top bytes)
    then (0, s')
    else (top, record s' { top = add64 top (add64 bytes 1) })

unfoldable pub memstck_disable : MemStack → MemStack
memstck_disable s = record s { enable = false }
