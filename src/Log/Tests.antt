-- ===== src/Log/Tests.antt =====
-- The theorem on `printk` applied to a format with a string and a `%` at its end.
use synos.Prelude.{ℕ, ◌≡◌, refl, List, [], ◌∷◌, some, bytes_of, arith}
use synos.Str.{strlen_from}
use synos.Str.Contents.{first}
use synos.Log.Convert.{weight, Short, conversion, of_chars, text_of, with_args}
use synos.Log.Expand.{message_of, intact, bytes_from, expand, prepend, printk_message-expand}
use synos.Log.{Arg, chars, printk_message, arg_chars}

-- What new memory holds.
abbrev garbage : ℕ → ℕ
garbage i = 0xCC

abbrev format : ℕ → ℕ
format = bytes_of "a%sb%"

abbrev arguments : List Arg
arguments = chars (bytes_of "xy") 3 ∷ []

-- The text "axyb".
expanded : expand garbage (bytes_from format 0 5) arguments ≡ some (97 ∷ 120 ∷ 121 ∷ 98 ∷ [])
unfolding expand bytes_from bytes_of conversion of_chars text_of with_args arg_chars strlen_from
    first prepend
expanded = refl

printk_message-expand_example :
    message_of (printk_message garbage format 5 arguments)
    ≡ intact (expand garbage (bytes_from format 0 5) arguments)
unfolding weight Short
printk_message-expand_example =
    printk_message-expand garbage format 5 arguments (omega arith) (omega arith, tt) (omega arith)
