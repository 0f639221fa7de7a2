-- ===== src/Heap/Whole.antt =====
-- kernel/mm.c: the blocks that `kmalloc` has handed out do not overlap.
use synos.Prelude.{
  ℕ, ◌+◌, ◌^◌, ◌≤◌, ◌<◌, ◌≡◌, ◌⊎◌, refl, sym, ap, subst, false, inl, inr, some, none, Option, List,
  [], ◌∷◌, arith, leb, ◌==◌, Bool-cases,
}
use synos.Heap.{
  Pointer, Header, header_size, pointer_size, find_size_max, place, place_in, kmalloc_from, kmalloc,
}
use synos.Heap.Blocks.{Apart, Kept, place-Kept}
use synos.Heap.Place.{Ordered, Clear, Placed, PlacedAt, place-Placed, Ordered-end, Clear-before}

-- The memory of the headers, as pairs of an address and a length.
abbrev pub extents : List Header → List (ℕ × ℕ)
extents [] = []
extents (h ∷ hs) = (h.address, h.size) ∷ extents hs

-- The bytes from `a` to `b` are apart from each of the pieces of memory, and within one of them.
abbrev pub ApartFrom : (a b : ℕ) → List (ℕ × ℕ) → Type 0
ApartFrom a b [] = Unit
ApartFrom a b ((c, n) ∷ rest) = Apart a b c (c + n) × ApartFrom a b rest

abbrev pub Within : (a b : ℕ) → List (ℕ × ℕ) → Type 0
Within a b [] = ⊥
Within a b ((c, n) ∷ rest) = ((c ≤ a) × (b ≤ c + n)) ⊎ Within a b rest

-- The pointers of a header lie in order in its memory, and its `size_max` is the largest free size.
pub record IsHeader (h : Header) : Type 0 where
  pub whole : h.address + h.size < 2 ^ 64
  pub ordered : Ordered (h.address + header_size) h.pointers (h.address + h.size)
  pub largest : h.size_max ≡ find_size_max 0 h.pointers

abbrev pub AllHeaders : List Header → Type 0
AllHeaders [] = Unit
AllHeaders (h ∷ hs) =
    IsHeader h × ApartFrom h.address (h.address + h.size) (extents hs) × AllHeaders hs

abbrev pub ClearIn : (a b : ℕ) → List Header → Type 0
ClearIn a b [] = Unit
ClearIn a b (h ∷ hs) = Clear a b h.pointers × ClearIn a b hs

abbrev pub AllClear : List (ℕ × ℕ) → List Header → Type 0
AllClear [] heap = Unit
AllClear ((a, n) ∷ blocks) heap = ClearIn a (a + n) heap × AllClear blocks heap

abbrev pub AllApart : List (ℕ × ℕ) → Type 0
AllApart [] = Unit
AllApart ((a, n) ∷ blocks) = ApartFrom a (a + n) blocks × AllApart blocks

-- The headers are in order, apart from each other, and the blocks in use, which are addresses with
-- lengths, overlap neither a pointer nor a free byte nor each other.
pub record IsHeap (heap : List Header) (blocks : List (ℕ × ℕ)) : Type 0 where
  pub headers : AllHeaders heap
  pub clear : AllClear blocks heap
  pub apart : AllApart blocks

-- A header has room for that many bytes.
abbrev pub HasRoom : ℕ → List Header → Type 0
HasRoom bytes [] = ⊥
HasRoom bytes (h ∷ hs) = (bytes ≤ h.size_max) ⊎ HasRoom bytes hs

-- What a request does to the headers, and to any bytes that were clear.
record Served (bytes address : ℕ) (heap after : List Header) : Type 0 where
  headers : AllHeaders after
  same : extents after ≡ extents heap
  new_clear : ClearIn address (address + bytes) after
  within : Within address (address + bytes) (extents heap)
  kept : (a b : ℕ) → ClearIn a b heap → ClearIn a b after × Apart address (address + bytes) a b

Clear-behind :
    (low high a b : ℕ) (ps : List Pointer) → Ordered low ps high → high ≤ a → Clear a b ps
Clear-behind low high a b [] h le = tt
Clear-behind low high a b (p ∷ ps) (le', h) le =
    let ends : p.address + pointer_size + p.size ≤ high =
      Ordered-end (p.address + pointer_size + p.size) high ps h in
    (inl (omega arith), Clear-behind (p.address + pointer_size + p.size) high a b ps h le)

-- Bytes outside a header's memory are clear in it.
outside_Clear :
    (h : Header) (a b : ℕ)
    → IsHeader h
    → Apart a b h.address (h.address + h.size)
    → Clear a b h.pointers
outside_Clear h a b ok (inl before) =
    Clear-before (h.address + header_size) (h.address + h.size) a b h.pointers ok.ordered
      (omega arith)
outside_Clear h a b ok (inr behind) =
    Clear-behind (h.address + header_size) (h.address + h.size) a b h.pointers ok.ordered behind

outside_ClearIn :
    (hs : List Header) (a b : ℕ) → AllHeaders hs → ApartFrom a b (extents hs) → ClearIn a b hs
outside_ClearIn [] a b ok apart = tt
outside_ClearIn (h ∷ hs) a b (ok, _, oks) (apart, aparts) =
    (outside_Clear h a b ok apart, outside_ClearIn hs a b oks aparts)

-- Bytes within one piece are apart from what that piece is apart from.
ApartFrom-part :
    (a b c d : ℕ) (pieces : List (ℕ × ℕ))
    → c ≤ a
    → b ≤ d
    → ApartFrom c d pieces
    → ApartFrom a b pieces
ApartFrom-part a b c d [] low high z = tt
ApartFrom-part a b c d ((e, n) ∷ pieces) low high (z, zs) =
    (ground arith, ApartFrom-part a b c d pieces low high zs)

Within-Apart :
    (a b c d : ℕ) (pieces : List (ℕ × ℕ)) → Within a b pieces → ApartFrom c d pieces → Apart a b c d
Within-Apart a b c d [] w z = absurd w
Within-Apart a b c d ((e, n) ∷ pieces) (inl (low, high)) (z, zs) = ground arith
Within-Apart a b c d ((e, n) ∷ pieces) (inr w) (z, zs) = Within-Apart a b c d pieces w zs

module _ (bytes : ℕ) (pos : 0 < bytes) where
  place_in-Served :
      (h : Header) (hs : List Header)
      → AllHeaders (h ∷ hs)
      → bytes ≤ h.size_max
      → (o : Option (ℕ × List Pointer)) → place bytes h.pointers ≡ o
      → (address : ℕ) × (h' : Header) × (place_in bytes h ≡ some (address, h'))
        × Served bytes address (h ∷ hs) (h' ∷ hs)
  unfolding place_in
  place_in-Served h hs (ok, apart, oks) le none found =
      let placed : Placed (h.address + header_size) (h.address + h.size) bytes
          (place bytes h.pointers) =
        place-Placed bytes h.pointers (h.address + header_size) (h.address + h.size) ok.whole
          ok.ordered pos (omega (arith, ok.largest)) in
      absurd (subst (Placed (h.address + header_size) (h.address + h.size) bytes) found placed)
  place_in-Served h hs (ok, apart, oks) le (some (address, ps)) found =
      let low : ℕ = h.address + header_size in
      let high : ℕ = h.address + h.size in
      let z : PlacedAt low high bytes address ps = subst (Placed low high bytes) found (
        place-Placed bytes h.pointers low high ok.whole ok.ordered pos
          (omega (arith, ok.largest))) in
      let inside : ApartFrom address (address + bytes) (extents hs) =
        ApartFrom-part address (address + bytes) h.address high (extents hs)
          (omega (arith, z.above)) z.below apart in
      (
        address,
        record h { pointers = ps; size_max = find_size_max 0 ps },
        rw (place_in, found) refl,
        record {
          headers = (record { whole = ok.whole; ordered = z.ordered; largest = refl }, apart, oks);
          same = refl;
          new_clear = (z.clear, outside_ClearIn hs address (address + bytes) oks inside);
          within = inl (omega (arith, z.above), z.below);
          kept = λ a b c.
              let k : Kept a b bytes (some (address, ps)) =
                subst (Kept a b bytes) found
                  (place-Kept a b bytes h.pointers low high ok.whole ok.ordered c.0) in
              ((k.0, c.1), k.1);
        },
      )

  Served-later :
      (h : Header) (hs hs' : List Header) (address : ℕ)
      → AllHeaders (h ∷ hs)
      → Served bytes address hs hs'
      → Served bytes address (h ∷ hs) (h ∷ hs')
  Served-later h hs hs' address (ok, apart, oks) s = record {
    headers = (ok, subst (ApartFrom h.address (h.address + h.size)) (sym s.same) apart, s.headers);
    same = ap (λ t. (h.address, h.size) ∷ t) s.same;
    new_clear = (
      outside_Clear h address (address + bytes) ok (
          Within-Apart address (address + bytes) h.address (h.address + h.size) (extents hs)
            s.within apart),
      s.new_clear,
    );
    within = inr s.within;
    kept = λ a b c. let k = s.kept a b c.1 in ((c.0, k.0), k.1);
  }

  kmalloc_from-Served :
      (pages : ℕ → ℕ) (heap : List Header)
      → AllHeaders heap
      → HasRoom bytes heap
      → (address : ℕ) × (after : List Header) × (kmalloc_from bytes pages heap
          ≡ some (address, after))
        × Served bytes address heap after
  unfolding kmalloc_from
  kmalloc_from-Served pages [] ok room = absurd room
  kmalloc_from-Served pages (h ∷ hs) (ok, apart, oks) room =
      elim (Bool-cases (leb bytes h.size_max)) [
        | inl e ↦
            let (address, h', found, s) =
              place_in-Served h hs (ok, apart, oks) (ground arith) (place bytes h.pointers) refl in
            (address, h' ∷ hs, rw (kmalloc_from, e, found) refl, s)
        | inr e ↦
            let (address, hs', found, s) =
              kmalloc_from-Served pages hs oks
                (elim room [ inl le ↦ absurd (ground arith) | inr later ↦ later ]) in
            (
              address,
              h ∷ hs',
              rw (kmalloc_from, e, found) refl,
              Served-later h hs hs' address (ok, apart, oks) s,
            )
      ]

  Served-AllClear :
      (address : ℕ) (heap after : List Header) (blocks : List (ℕ × ℕ))
      → Served bytes address heap after
      → AllClear blocks heap
      → AllClear blocks after × ApartFrom address (address + bytes) blocks
  Served-AllClear address heap after [] s c = (tt, tt)
  Served-AllClear address heap after ((a, n) ∷ blocks) s (c, cs) =
      let here = s.kept a (a + n) c in
      let rest = Served-AllClear address heap after blocks s cs in
      ((here.0, rest.0), (here.1, rest.1))

-- On a heap in order, a request for a number of bytes other than 0 that some header has room for
-- returns a block that overlaps no block in use, and leaves the heap in order with that block in use
-- as well; every header keeps its place and its length.
pub kmalloc-IsHeap :
    (bytes : ℕ) (pages : ℕ → ℕ) (heap : List Header) (blocks : List (ℕ × ℕ))
    → 0 < bytes
    → IsHeap heap blocks
    → HasRoom bytes heap
    → (address : ℕ) × (after : List Header) × (kmalloc bytes pages heap ≡ some (address, after))
      × IsHeap after ((address, bytes) ∷ blocks)
      × (extents after ≡ extents heap)
unfolding kmalloc
kmalloc-IsHeap bytes pages heap blocks pos ok room =
    let nonzero : (bytes == 0) ≡ false = ground arith in
    let (address, after, found, s) = kmalloc_from-Served bytes pos pages heap ok.headers room in
    let c = Served-AllClear bytes pos address heap after blocks s ok.clear in
    (
      address,
      after,
      rw (nonzero, found) refl,
      record { headers = s.headers; clear = (s.new_clear, c.0); apart = (c.1, ok.apart) },
      s.same,
    )
