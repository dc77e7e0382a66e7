-- ===== src/Otp/Hex.antt =====
-- otp/src/lib.rs: `hex_encode`.
pub mod Decode
use rust_encryption.Common.{
  ℕ, ◌+◌, ◌*◌, ◌/◌, ◌%◌, ◌<◌, ◌≡◌, refl, ap, ◌∙◌, [], ◌∷◌, arith, Bytes, IsBytes, length, get_or,
  ltb, if◌then◌else◌,
}
use rust_encryption.Common.Text.{codes}

abbrev pub hex_digits : Bytes
hex_digits = codes "0123456789abcdef"

-- The code points of the text. `byte >> 4` and `byte & 0x0f` of a byte.
unfoldable pub hex_encode : Bytes → Bytes
hex_encode [] = []
hex_encode (b ∷ bs) = get_or hex_digits (b / 16) 0 ∷ get_or hex_digits (b % 16) 0 ∷ hex_encode bs
