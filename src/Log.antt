-- ===== src/Log.antt =====
-- kernel/printk.c: messages of the kernel, with `struct LogEnt` of kernel/include/synos/synos.h. What new
-- memory holds is a parameter.
pub mod Convert
pub mod Expand
mod Tests
use synos.Prelude.{
  ℕ, zero, suc, ◌+◌, ◌-◌, ◌*◌, ◌^◌, Bool, true, false, ◌||◌, not, Option, none, some, List, [], ◌∷◌,
  ◌++◌, ltb, leb, ◌==◌, if◌then◌else◌, bytes_of,
}
use synos.Str.{
  Str, string_append, new_string, strlen_from, c_str, hex_str, to_lower, string_alloc_length,
}

-- An argument behind the format: a word of 32 bits, or the memory from a pointer on, with its length.
pub data Arg : Type 0 where
  number : ℕ → Arg
  chars : (ℕ → ℕ) → ℕ → Arg

-- `va_arg`; `none`: there is no argument left, or it is of the other kind.
unfoldable pub arg_number : List Arg → Option (ℕ × List Arg)
arg_number [] = none
arg_number (number n ∷ args) = some (n, args)
arg_number (chars bytes length ∷ args) = none

unfoldable pub arg_chars : List Arg → Option ((ℕ → ℕ) × ℕ × List Arg)
arg_chars [] = none
arg_chars (number n ∷ args) = none
arg_chars (chars bytes length ∷ args) = some (bytes, length, args)

-- An `int` as a `size_t`.
abbrev pub int_to_size : ℕ → ℕ
int_to_size n = if leb (2 ^ 31) n then n + (2 ^ 64 - 2 ^ 32) else n

-- `lstr`, the arguments left, `lstart` and `lcpy`.
pub record Printing : Type 0 where
  pub lstr : Str
  pub args : List Arg
  pub lstart : ℕ
  pub lcpy : ℕ

-- `lstr->append(lstr, tempStr, strlen(tempStr))`; `none`: the text does not end in its memory.
unfoldable pub append_text : (ℕ → ℕ) → Printing → List Arg → Option (ℕ → ℕ) → ℕ → Option Printing
append_text fresh p args none length = none
append_text fresh p args (some text) length = elim (strlen_from length text 0) [
  | none ↦ none
  | some n ↦ some (record p { lstr = string_append fresh p.lstr text n; args = args })
]

-- `toLower(hex_str(n))`
unfoldable pub lower_hex : (ℕ → ℕ) → ℕ → Option (ℕ → ℕ)
lower_hex fresh n = elim (hex_str fresh n) [
  | none ↦ none
  | some text ↦ elim (strlen_from string_alloc_length text 0) [
    | none ↦ none
    | some len ↦ some (to_lower text len)
  ]
]

-- A conversion of a number to text, given by the function that makes the text.
unfoldable pub convert_number : (ℕ → ℕ) → Printing → (ℕ → Option (ℕ → ℕ)) → Option Printing
unfolding arg_number append_text
convert_number fresh p text = elim (arg_number p.args) [
  | none ↦ none
  | some (n, args) ↦ append_text fresh p args (text n) string_alloc_length
]

unfoldable pub convert_chars : (ℕ → ℕ) → Printing → Option Printing
unfolding arg_chars append_text
convert_chars fresh p = elim (arg_chars p.args) [
  | none ↦ none
  | some (bytes, length, args) ↦ append_text fresh p args (some bytes) length
]

-- `%o` takes its argument and appends nothing.
unfoldable pub convert_octal : Printing → Option Printing
unfolding arg_number
convert_octal p = elim (arg_number p.args) [
  | none ↦ none
  | some (n, args) ↦ some (record p { args = args })
]

-- The switch on the character `c` behind `%`.
unfoldable pub convert : (ℕ → ℕ) → ℕ → Printing → Option Printing
unfolding convert_number convert_chars convert_octal lower_hex
convert fresh c p =
    if c == 100 || c == 105
    then convert_number fresh p (λ n. c_str fresh (int_to_size n))
    else if c == 117
    then convert_number fresh p (c_str fresh)
    else if c == 111
    then convert_octal p
    else if c == 120
    then convert_number fresh p (lower_hex fresh)
    else if c == 88
    then convert_number fresh p (hex_str fresh)
    else if c == 115
    then convert_chars fresh p
    else some (record p { lstr = string_append fresh p.lstr (λ k. c) 1 })

-- `lstr->append(lstr, &str[lstart], lcpy)`
abbrev pub flush : (ℕ → ℕ) → (ℕ → ℕ) → Printing → Printing
flush fresh str p = record p {
  lstr = string_append fresh p.lstr (λ k. str (p.lstart + k)) p.lcpy;
  lcpy = 0;
}

-- The loop from `i` on. Each turn moves `i` on, so that `orgLen` turns are enough.
unfoldable pub printk_loop : ℕ → (ℕ → ℕ) → (ℕ → ℕ) → ℕ → ℕ → Printing → Option Printing
printk_loop zero fresh str org_len i p = some p
printk_loop (suc rounds) fresh str org_len i p =
    let plain = printk_loop rounds fresh str org_len (i + 1) (record p { lcpy = p.lcpy + 1 }) in
    let percent_last = printk_loop rounds fresh str org_len (i + 1) p in
    let converted : Option Printing =
      elim (convert fresh (str (i + 1)) (record (flush fresh str p) { lstart = i + 2 })) [
        | none ↦ none
        | some p' ↦ printk_loop rounds fresh str org_len (i + 2) p'
      ] in
    if not (ltb i org_len)
    then some p
    else if not (str i == 37)
    then plain
    else if i == org_len - 1
    then percent_last
    else converted

-- What is left behind the last conversion.
unfoldable pub flush_rest : (ℕ → ℕ) → (ℕ → ℕ) → Printing → Str
flush_rest fresh str p = if ltb 0 p.lcpy then (flush fresh str p).lstr else p.lstr

-- The message.
unfoldable pub printk_message : (ℕ → ℕ) → (ℕ → ℕ) → ℕ → List Arg → Option Str
unfolding printk_loop flush_rest
printk_message fresh str org_len args =
    let start : Printing = record { lstr = new_string fresh; args = args; lstart = 0; lcpy = 0 } in
    elim (printk_loop org_len fresh str org_len 0 start) [
      | none ↦ none
      | some p ↦ some (flush_rest fresh str p)
    ]

-- `printk_enabled`, what is pushed to `logs`, and the calls of `arch_print` with their bytes and
-- lengths.
pub record Log : Type 0 where
  pub enabled : Bool
  pub logs : List ℕ
  pub printed : List ((ℕ → ℕ) × ℕ)

-- `org_len` is strlen(str), and `frame` the address of the local variable `log`, which is what
-- `logs->push(logs, (size_t)&log)` pushes.
unfoldable pub printk : (ℕ → ℕ) → ℕ → ℕ → ℕ → (ℕ → ℕ) → ℕ → List Arg → Log → Option Log
unfolding printk_message
printk fresh loglevel frame level str org_len args log =
    let message = printk_message fresh str org_len args in
    if not log.enabled then some log else elim message [
      | none ↦ none
      | some lstr ↦ some (record log {
        printed =
            if leb level loglevel
            then log.printed
              ++ ((bytes_of "[ 0.000000 ] ", 13) ∷ (lstr.str, lstr.length) ∷ (λ k. 10, 1) ∷ [])
            else log.printed;
        logs = log.logs ++ (frame ∷ []);
      })
    ]
