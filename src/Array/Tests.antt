-- ===== src/Array/Tests.antt =====
-- Arrays of a few words for mutils/impl/array.c.
use synos.Prelude.{ℕ, ◌+◌, ◌*◌, ◌<◌, ◌≡◌, refl, arith}
use synos.Array.{Array, array_push, array_pop, array_insert}
use synos.Array.Inv.{HasRoom, array_pop-array_push}
use synos.Array.Shift.{Inserted, array_insert-Inserted}

-- What new memory holds.
abbrev garbage : ℕ → ℕ
garbage i = 0xA5

abbrev seven : Array
seven = record { length = 7; arr = λ i. 10 * i; alloc_length = 8 }

seven-HasRoom : HasRoom seven
seven-HasRoom = record {
  room = omega arith;
  tight = omega arith;
  least = omega arith;
  multiple = refl;
  small = omega arith;
}

array_pop-array_push_example :
    (seven.length + 1 < seven.alloc_length
      → (array_pop garbage (array_push garbage seven 99)).0 ≡ 99)
    × (seven.length + 1 ≡ seven.alloc_length
        → (array_pop garbage (array_push garbage seven 99)).0 ≡ 0xA5)
array_pop-array_push_example =
    array_pop-array_push garbage garbage seven 99 seven-HasRoom (omega arith)

array_insert-Inserted_example : Inserted seven 3 99 (array_insert garbage seven 3 99)
array_insert-Inserted_example = array_insert-Inserted garbage seven 3 99 seven-HasRoom (omega arith)
