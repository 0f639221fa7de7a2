-- ===== src/Prelude/Texts.antt =====
-- Texts as C holds them: bytes that end in a zero.
use Prim.Native.Nat.{ℕ, zero, suc}
use Prim.Native.Char.{code}
use Prim.Native.String.{String}

-- The bytes of a literal, which are its characters when the text is ASCII, and zeros behind them.
unfoldable pub bytes_of : String → ℕ → ℕ
bytes_of String.[] i = 0
bytes_of (String.◌∷◌ c s) zero = code c
bytes_of (String.◌∷◌ c s) (suc i) = bytes_of s i
