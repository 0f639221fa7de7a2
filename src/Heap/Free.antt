-- ===== src/Heap/Free.antt =====
-- kernel/mm.c: the search of `kfree` for the pointer of a block.
use synos.Prelude.{
  ℕ, ◌+◌, ◌*◌, ◌≡◌, ◌≢◌, refl, inl, inr, none, List, [], ◌∷◌, ◌&&◌, ltb, add64, ne→==, Bool-cases,
}
use synos.Heap.{Pointer, Header, pointer_size, release, kfree}

-- No pointer of the list stands 256 bytes before the address.
abbrev pub NoneBefore : ℕ → List Pointer → Type 0
NoneBefore address [] = Unit
NoneBefore address (p ∷ ps) =
    (p.address + pointer_size * pointer_size ≢ address) × NoneBefore address ps

abbrev pub NoneInHeap : ℕ → List Header → Type 0
NoneInHeap address [] = Unit
NoneInHeap address (h ∷ hs) = NoneBefore address h.pointers × NoneInHeap address hs

release-none : (address : ℕ) (ps : List Pointer) → NoneBefore address ps → release address ps ≡ none
unfolding release
release-none address [] u = refl
release-none address (p ∷ ps) (ne, rest) =
    rw (release, ne→== _ _ ne, release-none address ps rest) refl

-- `kfree` of an address that no pointer of the heap stands exactly 256 bytes before changes nothing.
pub kfree-NoneInHeap :
    (address : ℕ) (heap : List Header) → NoneInHeap address heap → kfree address heap ≡ heap
unfolding kfree
kfree-NoneInHeap address [] u = refl
kfree-NoneInHeap address (h ∷ hs) (none_here, rest) =
    elim (Bool-cases (ltb h.address address && ltb address (add64 h.address h.size))) [
      | inl e ↦ rw (kfree, e, release-none address h.pointers none_here) refl
      | inr e ↦ rw (kfree, e, kfree-NoneInHeap address hs rest) refl
    ]
