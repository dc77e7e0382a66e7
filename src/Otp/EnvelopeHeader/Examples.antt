-- ===== src/Otp/EnvelopeHeader/Examples.antt =====
-- The theorems on the envelope header at one header.
use rust_encryption.Common.{◌≡◌, refl, arith, replicate, all_zero, bytes_eq, all_bytes→IsBytes, ok}
use rust_encryption.Otp.EnvelopeHeader.{
  EnvelopeHeader, encode_envelope_header, parse_envelope_header,
}
use rust_encryption.Otp.EnvelopeHeader.Codec.{
  IsHeader, parse-encode_envelope_header, encode-parse_envelope_header,
}

abbrev sample : EnvelopeHeader
sample = record { id = replicate 32 5; plaintext_len = 3 }

sample-IsHeader : IsHeader sample
unfolding all_zero
sample-IsHeader = record { id_size = refl; id_set = refl; len_fits = omega arith }

parse-encode_envelope_header_example :
    parse_envelope_header (encode_envelope_header sample) ≡ ok sample
parse-encode_envelope_header_example = parse-encode_envelope_header sample sample-IsHeader

encode-parse_envelope_header_example :
    IsHeader sample × (encode_envelope_header sample ≡ encode_envelope_header sample)
unfolding encode_envelope_header parse_envelope_header bytes_eq all_zero
encode-parse_envelope_header_example =
    encode-parse_envelope_header (encode_envelope_header sample) sample
      (all_bytes→IsBytes (encode_envelope_header sample) refl) refl refl
