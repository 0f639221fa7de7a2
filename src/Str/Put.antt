-- ===== src/Str/Put.antt =====
-- mutils/string: the loops of `c_str` and of `hex_str` append the digits of a number.
use native.Mathlib.Nat.{
  div-lt_iff_lt-mul, div-add-mod', pow-suc, pow-zero, mod-lt, mod-eq_of_lt, add_comm,
}
use synos.Prelude.{
  ℕ, zero, suc, ◌+◌, ◌-◌, ◌*◌, ◌/◌, ◌%◌, ◌^◌, ◌<◌, ◌≡◌, ◌≢◌, refl, ap, ◌∙◌, true, ltb, ◌==◌,
  if◌then◌else◌, Bool-cases, inl, inr, arith, bit_and-Masked, mask,
}
use synos.Str.{Str, string_append, string_grow, string_put, c_str_loop, hex_digit, hex_str_loop}
use synos.Str.Append.{string_append-Appended, Appended}
use synos.Str.Numerals.{Numerals, IsLawful, decimal, hexadecimal, low_value, low_value-ext}

-- The two loops are one, with different digits.
pub put_digits : Numerals → ℕ → (ℕ → ℕ) → Str → ℕ → Str
put_digits k zero fresh out n = out
put_digits k (suc rounds) fresh out n =
    let rest =
      put_digits k rounds fresh (string_append fresh out (λ _. k.digit n) 1) (n / k.base) in
    if ltb 0 n then rest else out

pub put_digits-c_str_loop :
    (rounds : ℕ) (fresh : ℕ → ℕ) (out : Str) (n : ℕ)
    → c_str_loop rounds fresh out n ≡ put_digits decimal rounds fresh out n
unfolding c_str_loop put_digits
put_digits-c_str_loop zero fresh out n = refl
put_digits-c_str_loop (suc rounds) fresh out n =
    let next : (n - n % 10) / 10 ≡ n / 10 = omega arith in
    rw
      (
        next,
        put_digits-c_str_loop rounds fresh (string_append fresh out (λ _. n % 10 + 48) 1) (n / 10),
      )
      refl

pub put_digits-hex_str_loop :
    (rounds : ℕ) (fresh : ℕ → ℕ) (out : Str) (n : ℕ)
    → hex_str_loop rounds fresh out n ≡ put_digits hexadecimal rounds fresh out n
unfolding hex_str_loop put_digits
put_digits-hex_str_loop zero fresh out n = refl
put_digits-hex_str_loop (suc rounds) fresh out n =
    rw
      (put_digits-hex_str_loop rounds fresh (string_append fresh out (λ _. hex_digit n) 1)
        (n / 2 ^ 4))
      refl

low_four : (n : ℕ) → Prim.Native.Nat.bit_and n 0xF ≡ n % 16
unfolding mask
low_four n =
    let m = bit_and-Masked 0 4 n in omega (arith, m.parts, m.below_lt, m.kept_lt, m.value_eq)

pub hexadecimal-IsLawful : IsLawful hexadecimal
hexadecimal-IsLawful = record {
  two_le = omega arith;
  digit-is_digit = λ n. rw (low_four n) (ground arith);
  digit_value-digit = λ n. rw (low_four n) (ground arith);
  positive = λ c h. ground arith;
  byte = λ c h. ground arith;
}

string_append-alloc :
    (fresh : ℕ → ℕ) (s : Str) (f : ℕ → ℕ) (n : ℕ)
    → s.length + n < s.alloc_length
    → s.alloc_length < 2 ^ 62
    → (string_append fresh s f n).alloc_length ≡ s.alloc_length
unfolding string_append string_grow string_put
string_append-alloc fresh s f n room small = ground arith

put_digits-zero :
    (k : Numerals) (rounds : ℕ) (fresh : ℕ → ℕ) (out : Str) → put_digits k rounds fresh out 0 ≡ out
unfolding put_digits
put_digits-zero k zero fresh out = refl
put_digits-zero k (suc rounds) fresh out = refl

-- `after` is `out` with the digits of `n`, the last one first.
pub record Put (k : Numerals) (out : Str) (n : ℕ) (after : Str) : Type 0 where
  pub count : ℕ
  pub some_digit : 0 < count
  pub longer : after.length ≡ out.length + count
  pub kept : (i : ℕ) → i < out.length → after.str i ≡ out.str i
  pub digits : (i : ℕ) → i < count → k.is_digit (after.str (out.length + i)) ≡ true
  pub low : low_value k (λ i. after.str (out.length + i)) count ≡ n
  pub leading : k.digit_value (after.str (out.length + (count - 1))) ≢ 0
  pub ended : after.str after.length ≡ 0
  pub alloc : after.alloc_length ≡ 64
  pub inside : after.length < 64

module _ (k : Numerals) (ok : IsLawful k) (fresh : ℕ → ℕ) where
  abbrev next : Str → ℕ → Str
  next out n = string_append fresh out (λ _. k.digit n) 1

  module _ (out : Str) (n : ℕ) (alloc : out.alloc_length ≡ 64) (room : out.length + 1 < 64)
      (pos : 0 < n) where
    added : Appended out (λ _. k.digit n) 1 (next out n)
    added =
        string_append-Appended fresh out (λ _. k.digit n) 1 (omega arith) (omega arith)
          (omega arith)

    next_alloc : (next out n).alloc_length ≡ 64
    next_alloc =
        string_append-alloc fresh out (λ _. k.digit n) 1 (omega arith) (omega arith) ∙ alloc

    last_digit : n < k.base → Put k out n (next out n)
    unfolding low_value
    last_digit lt =
        let at : (next out n).str (out.length + 0) ≡ k.digit n = added.appended 0 (omega arith) in
        let v : k.digit_value (k.digit n) ≡ n = ok.digit_value-digit n ∙ mod-eq_of_lt lt in
        record {
          count = 1;
          some_digit = omega arith;
          longer = added.longer;
          kept = added.kept;
          digits = λ i lt. let e : i ≡ 0 = omega arith in rw (e, at) (ok.digit-is_digit n);
          low = rw (at, v) (omega arith);
          leading = rw (at, v) (λ e. omega arith);
          ended = rw added.longer added.ended;
          alloc = next_alloc;
          inside = omega (arith, added.longer);
        }

    one_more : (after : Str) → Put k (next out n) (n / k.base) after → Put k out n after
    unfolding low_value
    one_more after p =
        let longer : (next out n).length ≡ out.length + 1 = added.longer in
        let at : after.str (out.length + 0) ≡ k.digit n =
          p.kept (out.length + 0) (omega arith) ∙ added.appended 0 (omega arith) in
        let shift : (i : ℕ) → after.str (out.length + suc i) ≡ after.str ((next out n).length + i) =
          λ i. ap after.str (omega arith) in
        record {
          count = suc p.count;
          some_digit = omega arith;
          longer = omega (arith, p.longer);
          kept = λ i lt. p.kept i (omega arith) ∙ added.kept i lt;
          digits = λ i lt. elim (Bool-cases (i == 0)) [
            | inl e ↦ let first : i ≡ 0 = ground arith in rw (first, at) (ok.digit-is_digit n)
            | inr e ↦
                let place : out.length + i ≡ (next out n).length + (i - 1) =
                  ground (arith, longer) in
                rw place (p.digits (i - 1) (ground arith))
          ];
          low =
              rw
                (
                  at,
                  ok.digit_value-digit n,
                  low_value-ext k _ (λ i. after.str ((next out n).length + i)) p.count
                      (λ i lt. shift i),
                  p.low,
                )
                (add_comm (n % k.base) (n / k.base * k.base) ∙ div-add-mod' n k.base);
          leading =
              let place : out.length + (suc p.count - 1) ≡ (next out n).length + (p.count - 1) =
                omega (arith, longer, p.some_digit) in
              rw place p.leading;
          ended = p.ended;
          alloc = p.alloc;
          inside = p.inside;
        }

  pub put_digits-Put :
      (rounds : ℕ) (out : Str) (n : ℕ)
      → out.alloc_length ≡ 64
      → out.length + rounds < 63
      → 0 < n
      → n < k.base ^ rounds
      → Put k out n (put_digits k rounds fresh out n)
  unfolding put_digits
  put_digits-Put zero out n alloc room pos small = absurd (omega (arith, pow-zero k.base))
  put_digits-Put (suc rounds) out n alloc room pos small =
      let more : ltb 0 n ≡ true = ground arith in
      rw more (elim (Bool-cases (ltb 0 (n / k.base))) [
        | inl e ↦ one_more out n alloc (omega arith) pos _ (
            put_digits-Put rounds (next out n) (n / k.base)
              (next_alloc out n alloc (omega arith) pos)
              (omega (arith, (added out n alloc (omega arith) pos).longer)) (ground arith)
              ((div-lt_iff_lt-mul (omega (arith, ok.two_le))).1
                (rw (pow-suc k.base rounds) at small)))
        | inr e ↦
            let done : n / k.base ≡ 0 = ground (arith, e) in
            let low : n < k.base = grind (arith, div-add-mod' n k.base, mod-lt, ok.two_le, done) in
            rw (done, put_digits-zero k rounds fresh (next out n))
              (last_digit out n alloc (omega arith) pos low)
      ])
