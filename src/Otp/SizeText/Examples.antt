-- ===== src/Otp/SizeText/Examples.antt =====
-- The theorem on `parse_size` at one text.
use rust_encryption.Common.{◌≡◌, arith, [], ◌∷◌, ok}
use rust_encryption.Common.Text.{codes}
use rust_encryption.Otp.SizeText.{parse_size, value_from}
use rust_encryption.Otp.SizeText.Units.{mib, parse_size-size_of}

parse_size-size_of_example : parse_size (codes "10mib") ≡ ok 10485760
unfolding value_from
parse_size-size_of_example = parse_size-size_of 49 (48 ∷ []) mib (omega arith) (omega arith, tt)
