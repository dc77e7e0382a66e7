-- ===== src/Common/Text.antt =====
-- Byte string literals.
use Prim.Native.Char.{code}
use Prim.Native.String.{String}
use mathlib.Core.List.{[], ◌∷◌}
use rust_encryption.Common.Lists.{Bytes}

-- The bytes of an ASCII literal `b"..."`.
abbrev pub codes : String → Bytes
codes String.[] = []
codes (String.◌∷◌ c s) = code c ∷ codes s
