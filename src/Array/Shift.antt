-- ===== src/Array/Shift.antt =====
-- mutils/impl/array.c: `array_insert` and `array_pull`, which move the elements behind an index.
use synos.Prelude.{
  ℕ, zero, suc, ◌+◌, ◌-◌, ◌^◌, ◌≤◌, ◌<◌, ◌≡◌, refl, ap, ◌∙◌, arith, ltb, leb, ◌&&◌, if◌then◌else◌,
  update, add64, sub64, false, Bool-cases, inl, inr,
}
use synos.Array.{Array, array_insert, array_pull, shift_up, shift_down}
use synos.Array.Inv.{HasRoom, array_resize-Resized}

shift_up_lem :
    (rounds : ℕ) (arr : ℕ → ℕ) (index j : ℕ)
    → shift_up rounds arr index j
      ≡ (if ltb index j && leb j (index + rounds) then arr (j - 1) else arr j)
unfolding shift_up
shift_up_lem zero arr index j = ground arith
shift_up_lem (suc rounds) arr index j =
    ground
      (arith, shift_up_lem rounds (update arr (index + suc rounds) (arr (index + rounds))) index j)

shift_down_lem :
    (rounds : ℕ) (arr : ℕ → ℕ) (i j : ℕ)
    → shift_down rounds arr i j ≡ (if leb i j && ltb j (i + rounds) then arr (j + 1) else arr j)
unfolding shift_down
shift_down_lem zero arr i j = ground arith
shift_down_lem (suc rounds) arr i j =
    ground (arith, shift_down_lem rounds (update arr i (arr (i + 1))) (i + 1) j)

-- `value` stands at `index`, the elements before it are kept and the others are one place up.
pub record Inserted (a : Array) (index value : ℕ) (after : Array) : Type 0 where
  pub room : a.alloc_length < 2 ^ 59 → HasRoom after
  pub length : after.length ≡ a.length + 1
  pub before : (i : ℕ) → i < index → after.arr i ≡ a.arr i
  pub at_index : after.arr index ≡ value
  pub behind : (i : ℕ) → index ≤ i → i < a.length → after.arr (i + 1) ≡ a.arr i

-- `array_insert` at an index within an array with room for one more element puts the value there,
-- keeps the elements before it and moves the others up by one.
pub array_insert-Inserted :
    (fresh : ℕ → ℕ) (a : Array) (index value : ℕ)
    → HasRoom a
    → index < a.length
    → Inserted a index value (array_insert fresh a index value)
unfolding array_insert
array_insert-Inserted fresh a index value r lt =
    let arr = shift_up (a.length - index) a.arr index in
    let b : Array = record a { arr = update arr index value; length = a.length + 1 } in
    let e : add64 a.length 1 ≡ a.length + 1 = omega (arith, r.room, r.small) in
    let inside : leb a.length index ≡ false = ground arith in
    let z =
      array_resize-Resized fresh b (omega (arith, r.room)) (omega (arith, r.tight)) r.least
        r.multiple r.small in
    rw (e, inside)
      (record {
        room = z.room;
        length = z.length;
        before = λ i h.
            z.kept i (omega arith) ∙ ground (arith, shift_up_lem (a.length - index) a.arr index i);
        at_index = z.kept index (omega arith) ∙ ground arith;
        behind = λ i h h'.
            z.kept (i + 1) (omega arith)
            ∙ ground (arith, shift_up_lem (a.length - index) a.arr index (i + 1));
      })

-- The element at `index` is gone, and those behind it are one place down.
pub record Pulled (a : Array) (index value : ℕ) (after : Array) : Type 0 where
  pub room : a.alloc_length < 2 ^ 59 → HasRoom after
  pub length : after.length + 1 ≡ a.length
  pub element : value ≡ a.arr index
  pub before : (i : ℕ) → i < index → after.arr i ≡ a.arr i
  pub behind : (i : ℕ) → index ≤ i → i < after.length → after.arr i ≡ a.arr (i + 1)

-- `array_pull` at an index within an array with room for one more element returns the element there,
-- keeps those before it and moves the others down by one.
pub array_pull-Pulled :
    (fresh : ℕ → ℕ) (a : Array) (index : ℕ)
    → HasRoom a
    → index < a.length
    → let (value, after) = array_pull fresh a index in Pulled a index value after
unfolding array_pull
array_pull-Pulled fresh a index r lt =
    let arr = shift_down (a.length - 1 - index) a.arr index in
    let b : Array = record a { arr = arr; length = a.length - 1 } in
    let e : sub64 a.length 1 ≡ a.length - 1 = omega (arith, r.room, r.small) in
    let inside : leb a.length index ≡ false = ground arith in
    let z =
      array_resize-Resized fresh b (omega (arith, r.room)) (omega (arith, r.tight)) r.least
        r.multiple r.small in
    rw (e, inside)
      (record {
        room = z.room;
        length = ap (λ k. k + 1) z.length ∙ omega arith;
        element = refl;
        before = λ i h.
            z.kept i (omega arith)
            ∙ ground (arith, shift_down_lem (a.length - 1 - index) a.arr index i);
        behind = λ i h h'.
            z.kept i (omega (arith, z.length))
            ∙ ground (arith, z.length, shift_down_lem (a.length - 1 - index) a.arr index i);
      })

-- Pulling what was just inserted returns it and leaves the elements as they were.
pub array_pull-array_insert :
    (fresh fresh' : ℕ → ℕ) (a : Array) (index value : ℕ)
    → HasRoom a
    → a.alloc_length < 2 ^ 59
    → index < a.length
    → let (pulled, after) = array_pull fresh' (array_insert fresh a index value) index in
      (pulled ≡ value)
      × (after.length ≡ a.length)
      × ((i : ℕ) → i < a.length → after.arr i ≡ a.arr i)
array_pull-array_insert fresh fresh' a index value r small lt =
    let b = array_insert fresh a index value in
    let y : Inserted a index value b = array_insert-Inserted fresh a index value r lt in
    let z = array_pull-Pulled fresh' b index (y.room small) (omega (arith, y.length)) in
    (
      z.element ∙ y.at_index,
      omega (arith, y.length, z.length),
      λ i h. elim (Bool-cases (ltb i index)) [
        | inl e ↦ z.before i (ground arith) ∙ y.before i (ground arith)
        | inr e ↦
            z.behind i (ground arith) (omega (arith, y.length, z.length))
            ∙ y.behind i (ground arith) h
      ],
    )
