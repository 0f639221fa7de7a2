-- ===== src/Array.antt =====
-- mutils/impl/array.c: the growing array of words. `fresh` is what the memory that `kmalloc` returns
-- holds; the allocation is taken to succeed, since its pointer is not checked.
mod Tests
pub mod Inv
pub mod Shift
use synos.Prelude.{
  ℕ, zero, suc, ◌+◌, ◌-◌, ◌*◌, ◌^◌, Bool, ltb, leb, if◌then◌else◌, update, add64, sub64,
}

-- ARRAY_ALLOC_LENGTH
abbrev pub array_alloc_length : ℕ
array_alloc_length = 8

-- `Array_t`, less its function pointers, which never change.
pub record Array : Type 0 where
  pub length : ℕ
  pub arr : ℕ → ℕ
  pub alloc_length : ℕ

-- `memcpy(narr, a->arr, a->length*sizeof(size_t))`
abbrev pub copy : ℕ → (ℕ → ℕ) → (ℕ → ℕ) → ℕ → ℕ
copy n from to i = if ltb i n then from i else to i

unfoldable pub array_resize : (ℕ → ℕ) → Array → Array
array_resize fresh a =
    if leb a.alloc_length a.length
    then record a {
      alloc_length = add64 a.alloc_length array_alloc_length;
      arr = copy a.length a.arr fresh;
    }
    else if ltb a.length (sub64 a.alloc_length array_alloc_length)
    then record a {
      alloc_length = sub64 a.alloc_length array_alloc_length;
      arr = copy a.length a.arr fresh;
    }
    else a

unfoldable pub array_push : (ℕ → ℕ) → Array → ℕ → Array
unfolding array_resize
array_push fresh a value =
    array_resize fresh (record a { arr = update a.arr a.length value; length = add64 a.length 1 })

-- The loop of `array_insert`: `rounds` is i - index.
unfoldable pub shift_up : ℕ → (ℕ → ℕ) → ℕ → ℕ → ℕ
shift_up zero arr index = arr
shift_up (suc rounds) arr index =
    shift_up rounds (update arr (index + suc rounds) (arr (index + rounds))) index

unfoldable pub array_insert : (ℕ → ℕ) → Array → ℕ → ℕ → Array
unfolding array_resize shift_up
array_insert fresh a index value =
    let arr = shift_up (a.length - index) a.arr index in
    if leb a.length index
    then a
    else array_resize fresh (record a { arr = update arr index value; length = add64 a.length 1 })

unfoldable pub array_pop : (ℕ → ℕ) → Array → ℕ × Array
unfolding array_resize
array_pop fresh a =
    let a' = array_resize fresh (record a { length = sub64 a.length 1 }) in (a'.arr a'.length, a')

-- The loop of `array_pull`: `rounds` is a->length - 1 - i.
unfoldable pub shift_down : ℕ → (ℕ → ℕ) → ℕ → ℕ → ℕ
shift_down zero arr i = arr
shift_down (suc rounds) arr i = shift_down rounds (update arr i (arr (i + 1))) (i + 1)

unfoldable pub array_pull : (ℕ → ℕ) → Array → ℕ → ℕ × Array
unfolding array_resize shift_down
array_pull fresh a index =
    let arr = shift_down (a.length - 1 - index) a.arr index in
    if leb a.length index
    then (0, a)
    else (a.arr index, array_resize fresh (record a { arr = arr; length = sub64 a.length 1 }))

unfoldable pub new_array : (ℕ → ℕ) → Array
new_array fresh = record { length = 0; arr = fresh; alloc_length = array_alloc_length }
