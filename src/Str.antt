-- ===== src/Str.antt =====
-- mutils/string and mutils/impl/string.c: strings that end in a zero byte, in a memory of bytes that
-- starts at the string.
mod Tests
pub mod Append
pub mod Contents
pub mod Sound
pub mod Reverse
pub mod Numerals
pub mod Put
pub mod Digits
use Prim.Native.Nat.{bit_and, bit_xor}
use synos.Prelude.{
  ℕ, zero, suc, ◌+◌, ◌-◌, ◌*◌, ◌/◌, ◌%◌, ◌^◌, Bool, true, false, ◌&&◌, ◌||◌, Option, none, some,
  ltb, leb, ◌==◌, if◌then◌else◌, update, add64, sub64,
}

-- STRING_ALLOC_LENGTH
abbrev pub string_alloc_length : ℕ
string_alloc_length = 64

-- `string_t`, less its function pointer. The memory of `str` has `alloc_length` bytes; `overrun` is set
-- once something was written behind them, after which the bytes are not those of the program any more.
pub record Str : Type 0 where
  pub str : ℕ → ℕ
  pub length : ℕ
  pub alloc_length : ℕ
  pub overrun : Bool

-- `memcpy(newstr, s->str, s->length)` into memory that holds `fresh`. The allocation is taken to
-- succeed.
unfoldable pub string_grow : (ℕ → ℕ) → Str → Str
string_grow fresh s = record s {
  alloc_length = add64 s.alloc_length string_alloc_length;
  str = λ i. if ltb i s.length then s.str i else fresh i;
}

-- `memcpy(s->str + s->length, str, length)`, the new length and the zero byte.
unfoldable pub string_put : Str → (ℕ → ℕ) → ℕ → Str
string_put s str length =
    let end = add64 s.length length in
    record s {
      str = update (λ i. if leb s.length i && ltb i end then str (i - s.length) else s.str i) end 0;
      length = end;
      overrun = s.overrun || leb s.alloc_length end;
    }

unfoldable pub string_append : (ℕ → ℕ) → Str → (ℕ → ℕ) → ℕ → Str
string_append fresh s str length =
    let grown = string_grow fresh s in
    string_put (if ltb (sub64 s.alloc_length s.length) (add64 length 1) then grown else s) str
      length

unfoldable pub new_string : (ℕ → ℕ) → Str
new_string fresh = record {
  str = fresh;
  length = 0;
  alloc_length = string_alloc_length;
  overrun = false;
}

-- The number of bytes before the first zero, when one is among the first `rounds` bytes from `i` on.
unfoldable pub strlen_from : ℕ → (ℕ → ℕ) → ℕ → Option ℕ
strlen_from zero s i = none
strlen_from (suc rounds) s i =
    let rest = strlen_from rounds s (i + 1) in if s i == 0 then some i else rest

-- The three exclusive-ors that exchange two bytes.
unfoldable pub xor_swap : (ℕ → ℕ) → ℕ → ℕ → ℕ → ℕ
xor_swap f i j =
    let f1 = update f i (bit_xor (f i) (f j)) in
    let f2 = update f1 j (bit_xor (f1 i) (f1 j)) in update f2 i (bit_xor (f2 i) (f2 j))

unfoldable pub reverse_loop : ℕ → (ℕ → ℕ) → ℕ → ℕ → ℕ → ℕ
reverse_loop zero f len i = f
reverse_loop (suc rounds) f len i = reverse_loop rounds (xor_swap f i (len - 1 - i)) len (i + 1)

-- `len` is strlen(format).
unfoldable pub reverse : (ℕ → ℕ) → ℕ → ℕ → ℕ
reverse format len = if ltb len 2 then format else reverse_loop (len / 2) format len 0

-- The loop of `c_str`; a `size_t` has at most 20 digits.
unfoldable pub c_str_loop : ℕ → (ℕ → ℕ) → Str → ℕ → Str
c_str_loop zero fresh out n = out
c_str_loop (suc rounds) fresh out n =
    let c = n % 10 + 48 in
    let rest = c_str_loop rounds fresh (string_append fresh out (λ _. c) 1) ((n - n % 10) / 10) in
    if ltb 0 n then rest else out

-- `none`: the string that is reversed does not end within the memory of `out`.
unfoldable pub c_str : (ℕ → ℕ) → ℕ → Option (ℕ → ℕ)
c_str fresh n =
    let out = c_str_loop 20 fresh (new_string fresh) n in
    elim (strlen_from out.alloc_length out.str 0) [
      | none ↦ none
      | some len ↦ some (reverse out.str len)
    ]

-- The digit of the low four bits.
abbrev pub hex_digit : ℕ → ℕ
hex_digit n = let c = bit_and n 0xF in if ltb c 0xA then c + 48 else c - 0xA + 65

-- A `uint64_t` has at most 16 hexadecimal digits.
unfoldable pub hex_str_loop : ℕ → (ℕ → ℕ) → Str → ℕ → Str
hex_str_loop zero fresh out n = out
hex_str_loop (suc rounds) fresh out n =
    let rest =
      hex_str_loop rounds fresh (string_append fresh out (λ _. hex_digit n) 1) (n / 2 ^ 4) in
    if ltb 0 n then rest else out

unfoldable pub hex_str : (ℕ → ℕ) → ℕ → Option (ℕ → ℕ)
hex_str fresh n =
    let out =
      if n == 0
      then string_append fresh (new_string fresh) (λ _. 48) 1
      else hex_str_loop 16 fresh (new_string fresh) n in
    elim (strlen_from out.alloc_length out.str 0) [
      | none ↦ none
      | some len ↦ some (reverse out.str len)
    ]

-- The loop of `tostring`; a `size_t` has at most 20 digits.
unfoldable pub tostring_loop : ℕ → ℕ → (ℕ → ℕ) → ℕ → ℕ → ℕ
tostring_loop zero n out i = out
tostring_loop (suc rounds) n out i =
    let rest = tostring_loop rounds ((n - n % 10) / 10) (update out i (n % 10 + 48)) (i + 1) in
    if ltb 0 n then rest else out

-- `room` is the length of the memory at `out`; `none`: a string does not end within it. The code
-- returns 1 in every case.
unfoldable pub tostring : ℕ → ℕ → (ℕ → ℕ) → Option (ℕ → ℕ)
tostring room n out = elim (strlen_from room out 0) [
  | none ↦ none
  | some len ↦
      let wiped : ℕ → ℕ = λ i. if ltb i len then 0 else out i in
      let digits = tostring_loop 20 n wiped 0 in
      let reversed : Option (ℕ → ℕ) = elim (strlen_from room digits 0) [
        | none ↦ none
        | some count ↦ some (reverse digits count)
      ] in
      if n == 0 then some (update wiped 0 48) else reversed
]

-- `case 'A' ... 'Z': str[i] += 32`
abbrev pub lower_byte : ℕ → ℕ
lower_byte c = if leb 65 c && leb c 90 then c + 32 else c

-- The loop from `i` on, with `rounds` bytes left.
unfoldable pub to_lower_loop : ℕ → (ℕ → ℕ) → ℕ → ℕ → ℕ
to_lower_loop zero str i = str
to_lower_loop (suc rounds) str i = to_lower_loop rounds (update str i (lower_byte (str i))) (i + 1)

-- `len` is strlen(str).
unfoldable pub to_lower : (ℕ → ℕ) → ℕ → ℕ → ℕ
unfolding to_lower_loop
to_lower str len = to_lower_loop len str 0

-- The results -1, 0 and 1.
pub data Sign : Type 0 where
  minus : Sign
  same : Sign
  plus : Sign

-- A `char` is signed: its order as a byte, from -128 on.
abbrev pub signed : ℕ → ℕ
signed c = (c + 128) % 256

-- `none`: the strings do not differ and do not end within `rounds` bytes.
unfoldable pub strcmp_from : ℕ → (ℕ → ℕ) → (ℕ → ℕ) → ℕ → Option Sign
strcmp_from zero s1 s2 i = none
strcmp_from (suc rounds) s1 s2 i =
    let rest = strcmp_from rounds s1 s2 (i + 1) in
    if s1 i == 0 && s2 i == 0
    then some same
    else if ltb (signed (s2 i)) (signed (s1 i))
    then some plus
    else if ltb (signed (s1 i)) (signed (s2 i))
    then some minus
    else rest
