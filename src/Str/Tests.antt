-- ===== src/Str/Tests.antt =====
-- Strings for mutils/impl/string.c and mutils/string.
use synos.Prelude.{ℕ, arith}
use synos.Str.{c_str, hex_str}
use synos.Str.Numerals.{Writes, decimal, hexadecimal}
use synos.Str.Digits.{c_str-hex_str}

-- What new memory holds.
abbrev garbage : ℕ → ℕ
garbage i = 0xCC

c_str-hex_str_example :
    Writes decimal 1024 (c_str garbage 1024) × Writes hexadecimal 1024 (hex_str garbage 1024)
c_str-hex_str_example = c_str-hex_str garbage 1024 (omega arith) (omega arith)
