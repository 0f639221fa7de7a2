-- ===== src/Heap/Place.antt =====
-- kernel/mm.c: where `kmalloc` places a block in the memory of a header.
use synos.Prelude.{
  ℕ, ◌+◌, ◌-◌, ◌^◌, ◌≤◌, ◌<◌, ◌≡◌, ◌⊎◌, refl, sym, subst, true, false, inl, inr, some, none, Option,
  List, [], ◌∷◌, arith, ltb, leb, sub64, Bool-cases, ltb→lt, if◌then◌else◌,
}
use synos.Heap.{Pointer, pointer_size, find_size_max, split_pointer, place}

-- The pointers lie between `low` and `high`, in order, each with its free bytes behind it and before
-- the next one.
abbrev pub Ordered : ℕ → List Pointer → ℕ → Type 0
Ordered low [] high = low ≤ high
Ordered low (p ∷ ps) high = (low ≤ p.address) × Ordered (p.address + pointer_size + p.size) ps high

-- No pointer, nor its free bytes, overlaps the bytes from `a` to `b`.
abbrev pub Clear : ℕ → ℕ → List Pointer → Type 0
Clear a b [] = Unit
Clear a b (p ∷ ps) = ((p.address + pointer_size + p.size ≤ a) ⊎ (b ≤ p.address)) × Clear a b ps

-- The block at `address` lies between `low` and `high`, overlaps no pointer and no free byte, and the pointers `after`
-- are in order again.
pub record PlacedAt (low high bytes address : ℕ) (after : List Pointer) : Type 0 where
  pub above : low + pointer_size ≤ address
  pub below : address + bytes ≤ high
  pub ordered : Ordered low after high
  pub clear : Clear address (address + bytes) after

find_size_max-ge : (max : ℕ) (ps : List Pointer) → max ≤ find_size_max max ps
unfolding find_size_max
find_size_max-ge max [] = omega arith
find_size_max-ge max (p ∷ ps) = elim (Bool-cases (ltb max p.size)) [
  | inl e ↦ rw e (omega (arith, find_size_max-ge p.size ps, ltb→lt max p.size e))
  | inr e ↦ rw e (find_size_max-ge max ps)
]

pub Ordered-end : (low high : ℕ) (ps : List Pointer) → Ordered low ps high → low ≤ high
Ordered-end low high [] h = h
Ordered-end low high (p ∷ ps) (le, h) =
    omega (arith, le, Ordered-end (p.address + pointer_size + p.size) high ps h)

pub Clear-before :
    (low high a b : ℕ) (ps : List Pointer) → Ordered low ps high → b ≤ low → Clear a b ps
Clear-before low high a b [] h le = tt
Clear-before low high a b (p ∷ ps) (le', h) le = (
  inr (omega arith),
  Clear-before (p.address + pointer_size + p.size) high a b ps h (omega arith),
)

Ordered-weaken :
    (low low' high : ℕ) (ps : List Pointer)
    → low' ≤ low
    → Ordered low ps high
    → Ordered low' ps high
Ordered-weaken low low' high [] le h = omega (arith, h, le)
Ordered-weaken low low' high (p ∷ ps) le (le', h) = (omega (arith, le, le'), h)

module _ (low high bytes : ℕ) (p : Pointer) (ps : List Pointer) (small : high < 2 ^ 64)
    (le : low ≤ p.address) (h : Ordered (p.address + pointer_size + p.size) ps high)
    (fits : bytes ≤ p.size) where
  abbrev at : ℕ
  at = p.address + pointer_size

  ends : p.address + pointer_size + p.size ≤ high
  ends = Ordered-end (p.address + pointer_size + p.size) high ps h

  split_pointer-PlacedAt :
      PlacedAt low high bytes (p.address + pointer_size) (split_pointer p bytes ps)
  unfolding split_pointer
  split_pointer-PlacedAt = elim (Bool-cases (ltb pointer_size (sub64 p.size bytes))) [
    | inl e ↦
        let left : sub64 p.size bytes ≡ p.size - bytes = omega (arith, fits, ends, small) in
        let more : pointer_size < p.size - bytes = omega (arith, ltb→lt _ _ e, left) in
        let same : p.address
              + pointer_size
              + bytes
              + pointer_size
              + sub64 (sub64 p.size bytes) pointer_size
            ≡ p.address + pointer_size + p.size =
          omega (arith, left, more, fits, ends, small) in
        record {
          above = omega (arith, le);
          below = omega (arith, ends, fits);
          ordered = rw e (le, (omega arith, rw same h));
          clear = rw e (
            inl (omega arith),
            (
              inr (omega arith),
              Clear-before (p.address + pointer_size + p.size) high _ _ ps h (omega (arith, fits)),
            ),
          );
        }
    | inr e ↦ record {
      above = omega (arith, le);
      below = omega (arith, ends, fits);
      ordered = rw e (
        le,
        Ordered-weaken (p.address + pointer_size + p.size) (p.address + pointer_size + 0) high ps
            (omega arith) h,
      );
      clear = rw e (
        inl (omega arith),
        Clear-before (p.address + pointer_size + p.size) high _ _ ps h (omega (arith, fits)),
      );
    }
  ]

-- What `place` promises on pointers one of which is large enough.
abbrev pub Placed : ℕ → ℕ → ℕ → Option (ℕ × List Pointer) → Type 0
Placed low high bytes none = ⊥
Placed low high bytes (some (address, after)) = PlacedAt low high bytes address after

PlacedAt-later :
    (low high bytes address : ℕ) (p : Pointer) (after : List Pointer)
    → low ≤ p.address
    → PlacedAt (p.address + pointer_size + p.size) high bytes address after
    → PlacedAt low high bytes address (p ∷ after)
PlacedAt-later low high bytes address p after le z = record {
  above = omega (arith, z.above, le);
  below = z.below;
  ordered = (le, z.ordered);
  clear = (inl (omega (arith, z.above)), z.clear);
}

module _ (low high bytes : ℕ) (p : Pointer) (ps : List Pointer) (le : low ≤ p.address) where
  place_here :
      leb bytes p.size ≡ true
      → PlacedAt low high bytes (p.address + pointer_size) (split_pointer p bytes ps)
      → Placed low high bytes (place bytes (p ∷ ps))
  unfolding place
  place_here e z =
      let step : place bytes (p ∷ ps) ≡ some (p.address + pointer_size, split_pointer p bytes ps) =
        rw (place, e) refl in
      subst (Placed low high bytes) (sym step) z

  place_later :
      (o : Option (ℕ × List Pointer))
      → leb bytes p.size ≡ false
      → place bytes ps ≡ o
      → Placed (p.address + pointer_size + p.size) high bytes o
      → Placed low high bytes (place bytes (p ∷ ps))
  unfolding place
  place_later none e found z = absurd z
  place_later (some (address, after)) e found z =
      let step : place bytes (p ∷ ps) ≡ some (address, p ∷ after) = rw (place, e, found) refl in
      subst (Placed low high bytes) (sym step) (PlacedAt-later low high bytes address p after le z)

place_from :
    (bytes max : ℕ) (ps : List Pointer) (low high : ℕ)
    → high < 2 ^ 64
    → Ordered low ps high
    → max < bytes
    → bytes ≤ find_size_max max ps
    → Placed low high bytes (place bytes ps)
unfolding find_size_max
place_from bytes max [] low high small h lt le = absurd (omega (arith, lt, le))
place_from bytes max (p ∷ ps) low high small (le', h) lt le = elim (Bool-cases (leb bytes p.size)) [
  | inl e ↦
      place_here low high bytes p ps le' e
        (split_pointer-PlacedAt low high bytes p ps small le' h (ground (arith, e)))
  | inr e ↦ place_later low high bytes p ps le' (place bytes ps) e refl (
      place_from bytes (if ltb max p.size then p.size else max) ps
        (p.address + pointer_size + p.size) high small h (ground (arith, e, lt)) le)
]

-- When the pointers of a header lie in order between `low` and `high` and the largest free size is at
-- least the number of bytes asked for, which is not 0, the search finds a pointer: the block lies
-- between `low` and `high`, overlaps no pointer, and the pointers are in order again.
pub place-Placed :
    (bytes : ℕ) (ps : List Pointer) (low high : ℕ)
    → high < 2 ^ 64
    → Ordered low ps high
    → 0 < bytes
    → bytes ≤ find_size_max 0 ps
    → Placed low high bytes (place bytes ps)
place-Placed bytes ps low high small h pos le = place_from bytes 0 ps low high small h pos le
