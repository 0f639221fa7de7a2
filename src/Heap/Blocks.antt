-- ===== src/Heap/Blocks.antt =====
-- kernel/mm.c: what placing a block does to the bytes that no pointer uses.
use synos.Prelude.{
  ℕ, ◌+◌, ◌-◌, ◌^◌, ◌≤◌, ◌<◌, ◌≡◌, ◌⊎◌, refl, sym, subst, false, inl, inr, some, none, Option, List,
  [], ◌∷◌, arith, ltb, leb, sub64, Bool-cases, ltb→lt,
}
use synos.Heap.{Pointer, pointer_size, split_pointer, place}
use synos.Heap.Place.{Ordered, Clear, Ordered-end}

-- The bytes from `a` to `b` and those from `a'` to `b'` do not overlap.
abbrev pub Apart : (a b a' b' : ℕ) → Type 0
Apart a b a' b' = (b ≤ a') ⊎ (b' ≤ a)

-- What `place` keeps: the bytes from `a` to `b`, clear before, are clear afterwards and apart from the
-- new block.
abbrev pub Kept : (a b bytes : ℕ) → Option (ℕ × List Pointer) → Type 0
Kept a b bytes none = Unit
Kept a b bytes (some (address, after)) = Clear a b after × Apart address (address + bytes) a b

module _ (a b bytes : ℕ) where
  split_pointer-Clear :
      (p : Pointer) (ps : List Pointer)
      → p.address + pointer_size + p.size < 2 ^ 64
      → bytes ≤ p.size
      → Clear a b (p ∷ ps)
      → Clear a b (split_pointer p bytes ps)
  unfolding split_pointer
  split_pointer-Clear p ps small fits (apart, c) =
      elim (Bool-cases (ltb pointer_size (sub64 p.size bytes))) [
        | inl e ↦
            let more : pointer_size < p.size - bytes = omega (arith, ltb→lt _ _ e) in
            let rest : sub64 (sub64 p.size bytes) pointer_size ≡ p.size - bytes - pointer_size =
              omega (arith, more) in
            rw (e, rest) (ground (arith, more), (ground (arith, more), c))
        | inr e ↦ rw e (ground arith, c)
      ]

  pub place-Kept :
      (ps : List Pointer) (low high : ℕ)
      → high < 2 ^ 64
      → Ordered low ps high
      → Clear a b ps
      → Kept a b bytes (place bytes ps)
  unfolding place
  place-Kept [] low high small h c = tt
  place-Kept (p ∷ ps) low high small (le, h) (apart, c) = elim (Bool-cases (leb bytes p.size)) [
    | inl e ↦
        let fits : bytes ≤ p.size = ground arith in
        let ends : p.address + pointer_size + p.size ≤ high =
          Ordered-end (p.address + pointer_size + p.size) high ps h in
        let step : place bytes (p ∷ ps)
            ≡ some (p.address + pointer_size, split_pointer p bytes ps) =
          rw (place, e) refl in
        subst (Kept a b bytes) (sym step)
          (split_pointer-Clear p ps (omega arith) fits (apart, c), ground arith)
    | inr e ↦
        later p ps e apart (place bytes ps) refl
          (place-Kept ps (p.address + pointer_size + p.size) high small h c)
  ]
    where
      later :
          (p : Pointer) (ps : List Pointer)
          → leb bytes p.size ≡ false
          → (p.address + pointer_size + p.size ≤ a) ⊎ (b ≤ p.address)
          → (o : Option (ℕ × List Pointer)) → place bytes ps ≡ o
          → Kept a b bytes o
          → Kept a b bytes (place bytes (p ∷ ps))
      later p ps e apart none found k =
          let step : place bytes (p ∷ ps) ≡ none = rw (place, e, found) refl in
          subst (Kept a b bytes) (sym step) tt
      later p ps e apart (some (address, after)) found (c, new) =
          let step : place bytes (p ∷ ps) ≡ some (address, p ∷ after) = rw (place, e, found) refl in
          subst (Kept a b bytes) (sym step) ((apart, c), new)
