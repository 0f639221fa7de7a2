-- ===== src/Array/Inv.antt =====
-- mutils/impl/array.c: the room that the operations keep, and the elements that they leave.
use synos.Prelude.{ℕ, suc, ◌+◌, ◌-◌, ◌%◌, ◌^◌, ◌≤◌, ◌<◌, ◌≡◌, ap, ◌∙◌, arith, update, add64, sub64}
use synos.Array.{Array, array_resize, array_push, array_pop, array_alloc_length}

-- There is room for one more element, and not for more than eight.
pub record HasRoom (a : Array) : Type 0 where
  pub room : a.length < a.alloc_length
  pub tight : a.alloc_length ≤ a.length + array_alloc_length
  pub least : array_alloc_length ≤ a.alloc_length
  pub multiple : a.alloc_length % array_alloc_length ≡ 0
  pub small : a.alloc_length < 2 ^ 60

-- `array_resize` restores the room after one element came or went, and keeps the elements.
pub record Resized (a after : Array) : Type 0 where
  pub room : a.alloc_length < 2 ^ 59 → HasRoom after
  pub length : after.length ≡ a.length
  pub kept : (i : ℕ) → i < a.length → after.arr i ≡ a.arr i

pub array_resize-Resized :
    (fresh : ℕ → ℕ) (a : Array)
    → a.length ≤ a.alloc_length
    → a.alloc_length ≤ a.length + 9
    → array_alloc_length ≤ a.alloc_length
    → a.alloc_length % array_alloc_length ≡ 0
    → a.alloc_length < 2 ^ 60
    → Resized a (array_resize fresh a)
unfolding array_resize
array_resize-Resized fresh a le tight least multiple small = record {
  room = λ h. record {
    room = ground arith;
    tight = ground arith;
    least = ground arith;
    multiple = ground arith;
    small = ground arith;
  };
  length = ground arith;
  kept = λ i lt. ground arith;
}

-- The value stands behind the elements.
pub record Pushed (a : Array) (value : ℕ) (after : Array) : Type 0 where
  pub room : a.alloc_length < 2 ^ 59 → HasRoom after
  pub length : after.length ≡ a.length + 1
  pub kept : (i : ℕ) → i < a.length → after.arr i ≡ a.arr i
  pub last : after.arr a.length ≡ value
  pub stays : a.length + 1 < a.alloc_length → after.alloc_length ≡ a.alloc_length
  pub grown : a.length + 1 ≡ a.alloc_length → after.alloc_length ≡ a.alloc_length + 8

array_resize-alloc_length :
    (fresh : ℕ → ℕ) (a : Array)
    → a.alloc_length < 2 ^ 60
    → array_alloc_length ≤ a.alloc_length
    → a.alloc_length ≤ a.length + array_alloc_length
    → (a.length < a.alloc_length → (array_resize fresh a).alloc_length ≡ a.alloc_length)
      × (a.length ≡ a.alloc_length → (array_resize fresh a).alloc_length ≡ a.alloc_length + 8)
unfolding array_resize
array_resize-alloc_length fresh a small least tight = (λ h. ground arith, λ h. ground arith)

-- `array_push` puts the value behind the elements and keeps them; the room is kept while the array is
-- shorter than 2 ^ 59.
pub array_push-Pushed :
    (fresh : ℕ → ℕ) (a : Array) (value : ℕ) → HasRoom a → Pushed a value (array_push fresh a value)
unfolding array_push
array_push-Pushed fresh a value r =
    let b : Array = record a { arr = update a.arr a.length value; length = a.length + 1 } in
    let e : add64 a.length 1 ≡ a.length + 1 = omega (arith, r.room, r.small) in
    let z =
      array_resize-Resized fresh b (omega (arith, r.room)) (omega (arith, r.tight)) r.least
        r.multiple r.small in
    let (stays, grown) =
      array_resize-alloc_length fresh b r.small r.least (omega (arith, r.tight)) in
    rw e (record {
      room = z.room;
      length = z.length;
      stays = stays;
      grown = grown;
      kept = λ i lt. z.kept i (omega arith) ∙ ground arith;
      last = z.kept a.length (omega arith) ∙ ground arith;
    })

-- The value is that of the last element unless the array was moved.
pub record Popped (fresh : ℕ → ℕ) (a : Array) (value : ℕ) (after : Array) : Type 0 where
  pub room : a.alloc_length < 2 ^ 59 → HasRoom after
  pub length : after.length + 1 ≡ a.length
  pub kept : (i : ℕ) → i < a.length - 1 → after.arr i ≡ a.arr i
  pub value_stays : a.alloc_length < a.length + array_alloc_length → value ≡ a.arr (a.length - 1)
  pub value_moved : a.alloc_length ≡ a.length + array_alloc_length → value ≡ fresh (a.length - 1)

-- The last element of the result of `array_pop`.
array_resize-last :
    (fresh : ℕ → ℕ) (a : Array) (n : ℕ)
    → n < 2 ^ 60
    → a.length ≡ suc n
    → HasRoom a
    → let b = array_resize fresh (record a { length = n }) in
      (a.alloc_length < a.length + array_alloc_length → b.arr n ≡ a.arr n)
      × (a.alloc_length ≡ a.length + array_alloc_length → b.arr n ≡ fresh n)
unfolding array_resize
array_resize-last fresh a n small e r = (
  λ h. ground (arith, r.room, r.tight, r.least, r.small),
  λ h. ground (arith, r.room, r.tight, r.least, r.small),
)

-- `array_pop` of an array that is not empty keeps the other elements and the room; it returns the
-- last element, except that when the array has exactly ARRAY_ALLOC_LENGTH places more than elements
-- it is moved first and what the new memory held is returned.
pub array_pop-Popped :
    (fresh : ℕ → ℕ) (a : Array)
    → HasRoom a
    → 0 < a.length
    → let (value, after) = array_pop fresh a in Popped fresh a value after
unfolding array_pop
array_pop-Popped fresh a r pos =
    let n = a.length - 1 in
    let b : Array = record a { length = n } in
    let e : sub64 a.length 1 ≡ a.length - 1 = omega (arith, r.room, r.small) in
    let z =
      array_resize-Resized fresh b (omega (arith, r.room)) (omega (arith, r.tight)) r.least
        r.multiple r.small in
    let (stays, moved) =
      array_resize-last fresh a (a.length - 1) (omega (arith, r.room, r.small)) (omega arith) r in
    rw (e, z.length)
      (record {
        room = z.room;
        length = ap (λ k. k + 1) z.length ∙ omega arith;
        kept = z.kept;
        value_stays = stays;
        value_moved = moved;
      })

-- Popping what was just pushed gives the value back when the push did not move the array, and what
-- the new memory held when it did.
pub array_pop-array_push :
    (fresh fresh' : ℕ → ℕ) (a : Array) (value : ℕ)
    → HasRoom a
    → a.alloc_length < 2 ^ 59
    → let popped = (array_pop fresh' (array_push fresh a value)).0 in
      (a.length + 1 < a.alloc_length → popped ≡ value)
      × (a.length + 1 ≡ a.alloc_length → popped ≡ fresh' a.length)
array_pop-array_push fresh fresh' a value r small =
    let b = array_push fresh a value in
    let z : Pushed a value b = array_push-Pushed fresh a value r in
    let p = array_pop-Popped fresh' b (z.room small) (omega (arith, z.length)) in
    let last : b.length - 1 ≡ a.length = omega (arith, z.length) in
    (
      λ h. p.value_stays (omega (arith, z.length, z.stays h, r.tight)) ∙ ap b.arr last ∙ z.last,
      λ h. p.value_moved (omega (arith, z.length, z.grown h, h)) ∙ ap fresh' last,
    )
