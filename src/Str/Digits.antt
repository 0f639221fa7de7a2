-- ===== src/Str/Digits.antt =====
-- mutils/string: `c_str` and `hex_str` write a number with its digits.
use synos.Prelude.{
  ℕ, zero, suc, ◌+◌, ◌-◌, ◌^◌, ◌≤◌, ◌<◌, ◌≡◌, refl, sym, ap, ◌∙◌, subst, true, false, Option, none,
  some, ◌==◌, if◌then◌else◌, Bool-cases, inl, inr, arith,
}
use synos.Str.{Str, string_append, new_string, strlen_from, reverse, c_str, hex_str_loop, hex_str}
use synos.Str.Reverse.{reverse_lem, reverse-behind}
use synos.Str.Put.{
  Put, put_digits-Put, put_digits-c_str_loop, put_digits-hex_str_loop, hexadecimal-IsLawful,
}
use synos.Str.Numerals.{
  Numerals, IsLawful, decimal, decimal-IsLawful, hexadecimal, IsNumeral, Writes, low_value,
  value-ext, low_value-ext, value-mirror,
}

strlen_from_lem :
    (rounds : ℕ) (s : ℕ → ℕ) (i len : ℕ)
    → i ≤ len
    → len < i + rounds
    → ((m : ℕ) → m < len → 0 < s m)
    → s len ≡ 0
    → strlen_from rounds s i ≡ some len
unfolding strlen_from
strlen_from_lem zero s i len le lt full ended = absurd (omega arith)
strlen_from_lem (suc rounds) s i len le lt full ended = elim (Bool-cases (i == len)) [
  | inl e ↦ let same : i ≡ len = ground arith in rw (same, ended) refl
  | inr e ↦
      let more : (s i == 0) ≡ false = ground (arith, full i (ground arith)) in
      rw more (strlen_from_lem rounds s (i + 1) len (ground arith) (omega arith) full ended)
]

-- The end of `c_str` and of `hex_str`.
abbrev finish : Str → Option (ℕ → ℕ)
finish s = elim (strlen_from s.alloc_length s.str 0) [
  | none ↦ none
  | some len ↦ some (reverse s.str len)
]

module _ (k : Numerals) (ok : IsLawful k) (n : ℕ) (s out : Str) (empty : out.length ≡ 0)
    (p : Put k out n s) where
  length_count : s.length ≡ p.count
  length_count = omega (arith, p.longer, empty)

  digit_at : (i : ℕ) → i < s.length → k.is_digit (s.str i) ≡ true
  digit_at i lt =
      let place : i ≡ out.length + i = omega (arith, empty) in
      rw place (p.digits i (omega (arith, length_count)))

  digit_byte : (i : ℕ) → i < s.length → s.str i < 256
  digit_byte i lt = ok.byte (s.str i) (digit_at i lt)

  whole_length : strlen_from s.alloc_length s.str 0 ≡ some s.length
  whole_length =
      strlen_from_lem s.alloc_length s.str 0 s.length (omega arith)
        (omega (arith, p.alloc, p.inside)) (λ m lt. ok.positive (s.str m) (digit_at m lt)) p.ended

  mirror : (i : ℕ) → i < s.length → reverse s.str s.length i ≡ s.str (s.length - 1 - i)
  mirror i lt = reverse_lem s.str s.length i digit_byte lt

  reverse-IsNumeral : IsNumeral k n (reverse s.str s.length) s.length
  reverse-IsNumeral = record {
    digits = λ i lt. rw (mirror i lt) (digit_at (s.length - 1 - i) (omega arith));
    value_eq =
        value-ext k _ (λ i. s.str (s.length - 1 - i)) s.length mirror
        ∙ value-mirror k s.str s.length
        ∙ low_value-ext k s.str (λ i. s.str (out.length + i)) s.length
            (λ i lt. ap s.str (omega (arith, empty)))
        ∙ ap (low_value k (λ i. s.str (out.length + i))) length_count
        ∙ p.low;
    leading =
        let place : s.length - 1 - 0 ≡ out.length + (p.count - 1) =
          omega (arith, length_count, empty) in
        rw (mirror 0 (omega (arith, length_count, p.some_digit)), place) p.leading;
    ended = reverse-behind s.str s.length s.length digit_byte (omega arith) ∙ p.ended;
  }

  finish-Writes : Writes k n (finish s)
  finish-Writes =
      let found : finish s ≡ some (reverse s.str s.length) = rw (finish, whole_length) refl in
      subst (Writes k n) (sym found) (s.length, reverse-IsNumeral)

-- For a number from 1 to 2 ^ 64 - 1, whatever new memory holds, `c_str` returns a text that ends in a
-- zero byte and writes the number with decimal digits, the most significant one first and no zero in
-- front, and `hex_str` one that writes it with hexadecimal digits.
pub c_str-hex_str :
    (fresh : ℕ → ℕ) (n : ℕ)
    → 0 < n
    → n < 2 ^ 64
    → Writes decimal n (c_str fresh n) × Writes hexadecimal n (hex_str fresh n)
unfolding c_str hex_str new_string
c_str-hex_str fresh n pos small =
    let empty = new_string fresh in
    let dec =
      put_digits-Put decimal decimal-IsLawful fresh 20 empty n refl (omega arith) pos
        (omega arith) in
    let hex =
      put_digits-Put hexadecimal hexadecimal-IsLawful fresh 16 empty n refl (omega arith) pos
        (omega arith) in
    let more : (n == 0) ≡ false = ground arith in
    let same : hex_str fresh n ≡ finish (hex_str_loop 16 fresh empty n) =
      ap
        (λ b.
          finish
            (if b then string_append fresh empty (λ _. 48) 1 else hex_str_loop 16 fresh empty n))
        more in
    (
      subst (λ s. Writes decimal n (finish s)) (sym (put_digits-c_str_loop 20 fresh empty n))
          (finish-Writes decimal decimal-IsLawful n _ empty refl dec),
      subst (Writes hexadecimal n) (sym same) (
          subst (λ s. Writes hexadecimal n (finish s))
            (sym (put_digits-hex_str_loop 16 fresh empty n))
            (finish-Writes hexadecimal hexadecimal-IsLawful n _ empty refl hex)),
    )
