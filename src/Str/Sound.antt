-- ===== src/Str/Sound.antt =====
-- mutils/impl/string.c: strings whose bytes lie within their memory.
use synos.Prelude.{ℕ, ◌+◌, ◌^◌, ◌≤◌, ◌<◌, ◌≡◌, refl, false, arith}
use synos.Str.{Str, string_append, string_grow, string_put, string_alloc_length, new_string}

-- Nothing was written behind the memory, there is room for the zero byte, and at most 128 bytes are
-- left.
pub record Sound (s : Str) : Type 0 where
  pub intact : s.overrun ≡ false
  pub room : s.length < s.alloc_length
  pub near : s.alloc_length ≤ s.length + 128

-- `string_append` of at most STRING_ALLOC_LENGTH bytes.
pub string_append-Sound :
    (fresh : ℕ → ℕ) (s : Str) (str : ℕ → ℕ) (length : ℕ)
    → Sound s
    → length ≤ string_alloc_length
    → s.length + length < 2 ^ 62
    → Sound (string_append fresh s str length)
unfolding string_append string_grow string_put
string_append-Sound fresh s str length z few small = record {
  intact = ground (arith, z.intact, z.room, z.near);
  room = ground (arith, z.room, z.near);
  near = ground (arith, z.room, z.near);
}

pub new_string-Sound : (fresh : ℕ → ℕ) → Sound (new_string fresh)
unfolding new_string
new_string-Sound fresh = record { intact = refl; room = omega arith; near = omega arith }
