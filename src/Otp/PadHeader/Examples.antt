-- ===== src/Otp/PadHeader/Examples.antt =====
-- The theorems on the pad header at one header.
use rust_encryption.Common.{
  ◌≡◌, refl, arith, true, replicate, all_zero, bytes_eq, all_bytes→IsBytes, ok,
}
use rust_encryption.Otp.Role.{sender, role_byte}
use rust_encryption.Otp.PadHeader.{PadHeader, role_of, encode_pad_header, parse_pad_header}
use rust_encryption.Otp.PadHeader.Codec.{IsHeader, parse-encode_pad_header, encode-parse_pad_header}

abbrev sample : PadHeader
sample = record { id = replicate 32 5; capacity = 3; role = sender; consumed = true }

sample-IsHeader : IsHeader sample
unfolding all_zero
sample-IsHeader = record { id_size = refl; id_set = refl; capacity_fits = omega arith }

parse-encode_pad_header_example : parse_pad_header (encode_pad_header sample) ≡ ok sample
parse-encode_pad_header_example = parse-encode_pad_header sample sample-IsHeader

encode-parse_pad_header_example :
    IsHeader sample × (encode_pad_header sample ≡ encode_pad_header sample)
unfolding encode_pad_header parse_pad_header bytes_eq all_zero role_of role_byte
encode-parse_pad_header_example =
    encode-parse_pad_header (encode_pad_header sample) sample
      (all_bytes→IsBytes (encode_pad_header sample) refl) refl refl
