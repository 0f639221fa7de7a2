-- ===== src/Log/Convert.antt =====
-- kernel/printk.c: what a conversion appends to the message.
use synos.Prelude.{
  ℕ, zero, suc, ◌+◌, ◌^◌, ◌≤◌, ◌<◌, ◌≡◌, refl, sym, ap, subst, ◌||◌, Option, none, some, List, [],
  ◌∷◌, ◌++◌, arith, ◌==◌, if◌then◌else◌, Bool-cases, inl, inr, Option-cases, some-injective,
}
use mathlib.Core.List.{append-nil}
use synos.Str.Append.{string_append-Joined}
use synos.Str.{string_append, strlen_from, c_str, hex_str, string_alloc_length}
use synos.Str.Sound.{Sound, string_append-Sound}
use synos.Str.Contents.{first, contents, contents-string_append}
use synos.Log.{
  Arg, number, chars, Printing, arg_number, arg_chars, int_to_size, append_text, lower_hex,
  convert_number, convert_chars, convert_octal, convert,
}

-- The bytes of a text, which ends within `length` bytes.
unfoldable pub text_of : Option (ℕ → ℕ) → ℕ → Option (List ℕ)
text_of none length = none
text_of (some text) length = elim (strlen_from length text 0) [
  | none ↦ none
  | some n ↦ some (first n text)
]

unfoldable pub with_args : List Arg → Option (List ℕ) → Option (List ℕ × List Arg)
with_args args none = none
with_args args (some text) = some (text, args)

-- What a number stands for.
unfoldable pub of_number : List Arg → (ℕ → Option (ℕ → ℕ)) → Option (List ℕ × List Arg)
of_number args text = elim (arg_number args) [
  | none ↦ none
  | some (n, rest) ↦ with_args rest (text_of (text n) string_alloc_length)
]

unfoldable pub of_chars : List Arg → Option (List ℕ × List Arg)
of_chars args = elim (arg_chars args) [
  | none ↦ none
  | some (bytes, length, rest) ↦ with_args rest (text_of (some bytes) length)
]

unfoldable pub of_octal : List Arg → Option (List ℕ × List Arg)
of_octal args = elim (arg_number args) [ none ↦ none | some (n, rest) ↦ some ([], rest) ]

-- What the character behind `%` stands for, with the arguments that are left.
unfoldable pub conversion : (ℕ → ℕ) → ℕ → List Arg → Option (List ℕ × List Arg)
conversion fresh c args =
    if c == 100 || c == 105
    then of_number args (λ n. c_str fresh (int_to_size n))
    else if c == 117
    then of_number args (c_str fresh)
    else if c == 111
    then of_octal args
    else if c == 120
    then of_number args (lower_hex fresh)
    else if c == 88
    then of_number args (hex_str fresh)
    else if c == 115
    then of_chars args
    else some (c ∷ [], args)

-- The most bytes that the arguments can turn into.
unfoldable pub weight : List Arg → ℕ
weight [] = 0
weight (number n ∷ args) = string_alloc_length + weight args
weight (chars bytes length ∷ args) = length + weight args

-- A string among the arguments ends within 65 bytes, so that it has at most STRING_ALLOC_LENGTH bytes.
unfoldable pub Short : List Arg → Type 0
Short [] = Unit
Short (number n ∷ args) = Short args
Short (chars bytes length ∷ args) = (length ≤ string_alloc_length + 1) × Short args

-- The message grows by the bytes of the conversion and stays within its memory, or both fail.
pub data Appends (p : Printing) : Option Printing → Option (List ℕ × List Arg) → Type 0 where
  both_fail : Appends p none none
  both_append :
      (p' : Printing) (text : List ℕ)
      → contents p'.lstr ≡ contents p.lstr ++ text
      → p'.lstart ≡ p.lstart
      → p'.lcpy ≡ p.lcpy
      → p'.lstr.length + weight p'.args ≤ p.lstr.length + weight p.args + 1
      → Sound p'.lstr
      → Short p'.args
      → Appends p (some p') (some (text, p'.args))

strlen_from-lt :
    (rounds : ℕ) (text : ℕ → ℕ) (i n : ℕ) → strlen_from rounds text i ≡ some n → n < i + rounds
unfolding strlen_from
strlen_from-lt zero text i n e = absurd (cc e)
strlen_from-lt (suc rounds) text i n e = elim (Bool-cases (text i == 0)) [
  | inl z ↦ omega (arith, some-injective _ _ (rw z at e))
  | inr z ↦ omega (arith, strlen_from-lt rounds text (i + 1) n (rw z at e))
]

-- A text is appended, and the arguments left weigh at least its length less.
append_text-Appends :
    (fresh : ℕ → ℕ) (p : Printing) (args : List Arg) (text : Option (ℕ → ℕ)) (length : ℕ)
    → p.lstr.length + length < 2 ^ 62
    → Sound p.lstr
    → Short args
    → length ≤ string_alloc_length + 1
    → length + weight args ≤ weight p.args
    → Appends p (append_text fresh p args text length) (with_args args (text_of text length))
unfolding append_text text_of with_args
append_text-Appends fresh p args none length small sound short few less = both_fail
append_text-Appends fresh p args (some text) length small sound short few less =
    elim (Option-cases (strlen_from length text 0)) [
      | inl e ↦ rw (e, with_args, append_text, text_of) both_fail
      | inr (n, e) ↦
          let lt : n < 0 + length = strlen_from-lt length text 0 n e in
          let small' : p.lstr.length + n < 2 ^ 63 = omega arith in
          let sound' = string_append-Sound fresh p.lstr text n sound (omega arith) (omega arith) in
          rw (e, with_args, append_text, text_of)
            (both_append (record p { lstr = string_append fresh p.lstr text n; args = args })
              (first n text) (contents-string_append fresh p.lstr text n small') refl refl
              (omega (arith, (string_append-Joined fresh p.lstr text n small').longer)) sound'
              short)
    ]

arg_number-weight :
    (args rest : List Arg) (n : ℕ)
    → arg_number args ≡ some (n, rest)
    → string_alloc_length + weight rest ≡ weight args
unfolding arg_number weight
arg_number-weight [] rest n e = absurd (cc e)
arg_number-weight (number m ∷ args) rest n e =
    ap (λ a. string_alloc_length + weight a.1) (sym (some-injective _ _ e))
arg_number-weight (chars bytes length ∷ args) rest n e = absurd (cc e)

arg_number-Short :
    (args rest : List Arg) (n : ℕ) → arg_number args ≡ some (n, rest) → Short args → Short rest
unfolding arg_number Short
arg_number-Short [] rest n e short = absurd (cc e)
arg_number-Short (number m ∷ args) rest n e short =
    subst Short (ap (λ a. a.1) (some-injective _ _ e)) short
arg_number-Short (chars bytes length ∷ args) rest n e short = absurd (cc e)

arg_chars-Short :
    (args rest : List Arg) (bytes : ℕ → ℕ) (length : ℕ)
    → arg_chars args ≡ some (bytes, length, rest)
    → Short args
    → (length ≤ string_alloc_length + 1) × Short rest
unfolding arg_chars Short
arg_chars-Short [] rest bytes length e short = absurd (cc e)
arg_chars-Short (number m ∷ args) rest bytes length e short = absurd (cc e)
arg_chars-Short (chars b l ∷ args) rest bytes length e short =
    subst (λ a. (a.1 ≤ string_alloc_length + 1) × Short a.2) (some-injective _ _ e) short

arg_chars-weight :
    (args rest : List Arg) (bytes : ℕ → ℕ) (length : ℕ)
    → arg_chars args ≡ some (bytes, length, rest)
    → length + weight rest ≡ weight args
unfolding arg_chars weight
arg_chars-weight [] rest bytes length e = absurd (cc e)
arg_chars-weight (number m ∷ args) rest bytes length e = absurd (cc e)
arg_chars-weight (chars b l ∷ args) rest bytes length e =
    ap (λ a. a.1 + weight a.2) (sym (some-injective _ _ e))

module _ (fresh : ℕ → ℕ) (p : Printing) (small : p.lstr.length + weight p.args + 1 < 2 ^ 62)
    (sound : Sound p.lstr) (short : Short p.args) where
  convert_number-Appends :
      (text : ℕ → Option (ℕ → ℕ)) → Appends p (convert_number fresh p text) (of_number p.args text)
  unfolding convert_number of_number
  convert_number-Appends text = elim (Option-cases (arg_number p.args)) [
    | inl e ↦ rw (e, convert_number, of_number) both_fail
    | inr ((n, rest), e) ↦
        let w : string_alloc_length + weight rest ≡ weight p.args =
          arg_number-weight p.args rest n e in
        rw (e, convert_number, of_number)
          (append_text-Appends fresh p rest (text n) string_alloc_length (omega (arith, w)) sound
            (arg_number-Short p.args rest n e short) (omega arith) (omega (arith, w)))
  ]

  convert_chars-Appends : Appends p (convert_chars fresh p) (of_chars p.args)
  unfolding convert_chars of_chars
  convert_chars-Appends = elim (Option-cases (arg_chars p.args)) [
    | inl e ↦ rw (e, convert_chars, of_chars) both_fail
    | inr ((bytes, length, rest), e) ↦
        let w : length + weight rest ≡ weight p.args =
          arg_chars-weight p.args rest bytes length e in
        let s = arg_chars-Short p.args rest bytes length e short in
        rw (e, convert_chars, of_chars)
          (append_text-Appends fresh p rest (some bytes) length (omega (arith, w)) sound s.1 s.0
            (omega (arith, w)))
  ]

  convert_octal-Appends : Appends p (convert_octal p) (of_octal p.args)
  unfolding convert_octal of_octal
  convert_octal-Appends = elim (Option-cases (arg_number p.args)) [
    | inl e ↦ rw (e, convert_octal, of_octal) both_fail
    | inr ((n, rest), e) ↦
        let w : string_alloc_length + weight rest ≡ weight p.args =
          arg_number-weight p.args rest n e in
        rw (e, convert_octal, of_octal)
          (both_append (record p { args = rest }) [] (sym (append-nil _)) refl refl
            (omega (arith, w)) sound (arg_number-Short p.args rest n e short))
  ]

  pub convert-Appends : (c : ℕ) → Appends p (convert fresh c p) (conversion fresh c p.args)
  unfolding convert conversion first
  convert-Appends c = elim (Bool-cases (c == 100 || c == 105)) [
    | inl e ↦ rw e (convert_number-Appends _)
    | inr e ↦ rw e (elim (Bool-cases (c == 117)) [
      | inl e ↦ rw e (convert_number-Appends _)
      | inr e ↦ rw e (elim (Bool-cases (c == 111)) [
        | inl e ↦ rw e convert_octal-Appends
        | inr e ↦ rw e (elim (Bool-cases (c == 120)) [
          | inl e ↦ rw e (convert_number-Appends _)
          | inr e ↦ rw e (elim (Bool-cases (c == 88)) [
            | inl e ↦ rw e (convert_number-Appends _)
            | inr e ↦ rw e (elim (Bool-cases (c == 115)) [
              | inl e ↦ rw e convert_chars-Appends
              | inr e ↦ rw e character
            ])
          ])
        ])
      ])
    ])
  ]
    where
      character :
          Appends p
            (some (record p { lstr = string_append fresh p.lstr (λ k. c) 1 }))
            (some (c ∷ [], p.args))
      character =
          both_append (record p { lstr = string_append fresh p.lstr (λ k. c) 1 }) (c ∷ [])
            (contents-string_append fresh p.lstr (λ k. c) 1 (omega arith)) refl refl
            (omega (arith, (string_append-Joined fresh p.lstr (λ k. c) 1 (omega arith)).longer))
            (string_append-Sound fresh p.lstr (λ k. c) 1 sound (omega arith) (omega arith)) short
