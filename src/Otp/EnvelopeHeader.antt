-- ===== src/Otp/EnvelopeHeader.antt =====
-- otp/src/lib.rs: `EnvelopeHeader`, `encode_envelope_header` and `parse_envelope_header`.
pub mod Codec
mod Examples
use rust_encryption.Common.{
  ℕ, ◌==◌, not, ◌||◌, bytes_eq, all_zero, Bytes, replicate, Result, ok, ◌>>=◌, ◌>>◌, fail_if,
}
use rust_encryption.Common.Words.{to_be_bytes, from_be_bytes}
use rust_encryption.Common.Slices.{slice, copy_at}
use rust_encryption.Otp.Error.{OtpError, invalid_envelope, text}
use rust_encryption.Otp.Size.{envelope_magic}

pub record EnvelopeHeader : Type 0 where
  pub id : Bytes
  pub plaintext_len : ℕ

unfoldable pub encode_envelope_header : EnvelopeHeader → Bytes
encode_envelope_header h =
    let bytes = copy_at 0 envelope_magic (replicate 64 0) in
    let bytes = copy_at 8 (to_be_bytes 2 1) bytes in
    let bytes = copy_at 10 (to_be_bytes 2 64) bytes in
    let bytes = copy_at 12 (to_be_bytes 2 1) bytes in
    let bytes = copy_at 14 (to_be_bytes 2 0) bytes in
    let bytes = copy_at 16 h.id bytes in copy_at 48 (to_be_bytes 8 h.plaintext_len) bytes

unfoldable pub parse_envelope_header : Bytes → Result OtpError EnvelopeHeader
parse_envelope_header bytes = do
  fail_if (not (bytes_eq (slice 0 8 bytes) envelope_magic))
      (invalid_envelope (text "unrecognized magic bytes"))
  fail_if (not (from_be_bytes (slice 8 10 bytes) == 1))
      (invalid_envelope (text "unsupported format version"))
  fail_if (not (from_be_bytes (slice 10 12 bytes) == 64))
      (invalid_envelope (text "invalid header length"))
  fail_if (not (from_be_bytes (slice 12 14 bytes) == 1))
      (invalid_envelope (text "unsupported algorithm suite"))
  fail_if (not (bytes_eq (slice 14 16 bytes) (replicate 2 0)) || not (all_zero (slice 56 64 bytes)))
      (invalid_envelope (text "reserved fields or flags are not zero"))
  fail_if (all_zero (slice 16 48 bytes)) (invalid_envelope (text "the pad identifier is all zero"))
  ok (record { id = slice 16 48 bytes; plaintext_len = from_be_bytes (slice 48 56 bytes) })
