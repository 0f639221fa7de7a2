-- ===== src/Str/Append.antt =====
-- mutils/impl/string.c and mutils/string: appending bytes, and the loops over the bytes of a string.
use synos.Prelude.{
  ℕ, zero, suc, ◌+◌, ◌-◌, ◌^◌, ◌≤◌, ◌<◌, ◌≡◌, refl, true, false, arith, ◌&&◌, ltb, leb, ◌==◌,
  if◌then◌else◌, update, add64, sub64, Bool-cases, inl, inr,
}
use synos.Str.{
  Str, string_alloc_length, string_append, string_grow, string_put, to_lower_loop, to_lower,
  lower_byte,
}

-- `after` is the string with `length` bytes of `str` behind it, and a zero byte at the end.
pub record Appended (s : Str) (str : ℕ → ℕ) (length : ℕ) (after : Str) : Type 0 where
  pub longer : after.length ≡ s.length + length
  pub kept : (i : ℕ) → i < s.length → after.str i ≡ s.str i
  pub appended : (i : ℕ) → i < length → after.str (s.length + i) ≡ str i
  pub ended : after.str (s.length + length) ≡ 0
  pub room :
      length ≤ string_alloc_length → s.length < s.alloc_length → after.length < after.alloc_length

string_put-appended :
    (s : Str) (str : ℕ → ℕ) (length i : ℕ)
    → s.length + length < 2 ^ 63
    → i < length
    → (string_put s str length).str (s.length + i) ≡ str i
unfolding string_put
string_put-appended s str length i small lt =
    let back : s.length + i - s.length ≡ i = omega arith in
    let place : (add64 s.length length == s.length + i) ≡ false = ground arith in
    let inside : (leb s.length (s.length + i) && ltb (s.length + i) (add64 s.length length))
        ≡ true =
      ground arith in
    rw (place, inside, back) refl

-- The bytes after `string_append`, whether or not the memory was long enough.
pub record Joined (s : Str) (str : ℕ → ℕ) (length : ℕ) (after : Str) : Type 0 where
  pub longer : after.length ≡ s.length + length
  pub kept : (i : ℕ) → i < s.length → after.str i ≡ s.str i
  pub appended : (i : ℕ) → i < length → after.str (s.length + i) ≡ str i

pub string_append-Joined :
    (fresh : ℕ → ℕ) (s : Str) (str : ℕ → ℕ) (length : ℕ)
    → s.length + length < 2 ^ 63
    → Joined s str length (string_append fresh s str length)
unfolding string_append string_grow string_put
string_append-Joined fresh s str length small = record {
  longer = ground arith;
  kept = λ i lt. ground arith;
  appended = λ i lt. elim (Bool-cases (ltb (sub64 s.alloc_length s.length) (add64 length 1))) [
    | inl e ↦ rw e (string_put-appended (string_grow fresh s) str length i small lt)
    | inr e ↦ rw e (string_put-appended s str length i small lt)
  ];
}

-- `string_append` keeps the bytes of the string, puts the new ones behind them and ends them with a
-- zero byte; a string with room for its zero byte has room for it afterwards when at most
-- STRING_ALLOC_LENGTH bytes are appended. Lengths are below 2 ^ 62.
pub string_append-Appended :
    (fresh : ℕ → ℕ) (s : Str) (str : ℕ → ℕ) (length : ℕ)
    → s.length ≤ s.alloc_length
    → s.alloc_length < 2 ^ 62
    → length < 2 ^ 62
    → Appended s str length (string_append fresh s str length)
unfolding string_append string_grow string_put
string_append-Appended fresh s str length le small small' = record {
  longer = ground arith;
  kept = λ i lt. ground arith;
  appended = λ i lt. elim (Bool-cases (ltb (sub64 s.alloc_length s.length) (add64 length 1))) [
    | inl e ↦ rw e (string_put-appended (string_grow fresh s) str length i (omega (arith, le)) lt)
    | inr e ↦ rw e (string_put-appended s str length i (omega (arith, le)) lt)
  ];
  ended = ground arith;
  room = λ few room. ground arith;
}

to_lower_loop_lem :
    (rounds : ℕ) (str : ℕ → ℕ) (i j : ℕ)
    → to_lower_loop rounds str i j
      ≡ (if leb i j && ltb j (i + rounds) then lower_byte (str j) else str j)
unfolding to_lower_loop
to_lower_loop_lem zero str i j = ground arith
to_lower_loop_lem (suc rounds) str i j =
    ground (arith, to_lower_loop_lem rounds (update str i (lower_byte (str i))) (i + 1) j)

lower_byte-lower_byte : (c : ℕ) → lower_byte (lower_byte c) ≡ lower_byte c
lower_byte-lower_byte c = ground arith

-- `toLower` twice is `toLower` once, at every byte.
pub to_lower-to_lower :
    (str : ℕ → ℕ) (len j : ℕ) → to_lower (to_lower str len) len j ≡ to_lower str len j
unfolding to_lower
to_lower-to_lower str len j = ground (
  arith,
  to_lower_loop_lem len (to_lower_loop len str 0) 0 j,
  to_lower_loop_lem len str 0 j,
  lower_byte-lower_byte (str j),
)
