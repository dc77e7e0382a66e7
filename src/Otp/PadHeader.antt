-- ===== src/Otp/PadHeader.antt =====
-- otp/src/lib.rs: `PadHeader`, `encode_pad_header` and `parse_pad_header`.
pub mod Codec
mod Examples
use rust_encryption.Common.{
  ℕ, ◌++◌, [], ◌∷◌, ◌==◌, not, ◌||◌, Bool, true, false, bytes_eq, all_zero, Bytes, replicate,
  get_or, Result, ok, err, ◌>>=◌, ◌>>◌, fail_if, if◌then◌else◌,
}
use rust_encryption.Common.Words.{to_be_bytes, from_be_bytes}
use rust_encryption.Common.Slices.{slice, copy_at}
use rust_encryption.Otp.Error.{OtpError, invalid_pad, text, unknown_role, unknown_state}
use rust_encryption.Otp.Role.{PadRole, sender, receiver, role_byte}
use rust_encryption.Otp.Size.{pad_magic}

pub record PadHeader : Type 0 where
  pub id : Bytes
  pub capacity : ℕ
  pub role : PadRole
  pub consumed : Bool

-- `u8::from(consumed)`
abbrev pub flag : Bool → ℕ
flag true = 1
flag false = 0

unfoldable pub encode_pad_header : PadHeader → Bytes
unfolding role_byte
encode_pad_header h =
    let bytes = copy_at 0 pad_magic (replicate 80 0) in
    let bytes = copy_at 8 (to_be_bytes 2 1) bytes in
    let bytes = copy_at 10 (to_be_bytes 2 80) bytes in
    let bytes = copy_at 12 (to_be_bytes 2 1) bytes in
    let bytes = copy_at 14 (to_be_bytes 2 0) bytes in
    let bytes = copy_at 16 (role_byte h.role ∷ []) bytes in
    let bytes = copy_at 17 (flag h.consumed ∷ []) bytes in
    let bytes = copy_at 24 h.id bytes in copy_at 56 (to_be_bytes 8 h.capacity) bytes

-- `PadRole::try_from`
unfoldable pub role_of : ℕ → Result OtpError PadRole
role_of value =
    if value == 1
    then ok sender
    else if value == 2
    then ok receiver
    else err (invalid_pad (unknown_role value))

abbrev pub consumed_of : ℕ → Result OtpError Bool
consumed_of value =
    if value == 0
    then ok false
    else if value == 1
    then ok true
    else err (invalid_pad (unknown_state value))

unfoldable pub parse_pad_header : Bytes → Result OtpError PadHeader
parse_pad_header bytes = do
  fail_if (not (bytes_eq (slice 0 8 bytes) pad_magic))
      (invalid_pad (text "unrecognized magic bytes"))
  fail_if (not (from_be_bytes (slice 8 10 bytes) == 1))
      (invalid_pad (text "unsupported format version"))
  fail_if (not (from_be_bytes (slice 10 12 bytes) == 80))
      (invalid_pad (text "invalid header length"))
  fail_if (not (from_be_bytes (slice 12 14 bytes) == 1))
      (invalid_pad (text "unsupported algorithm suite"))
  fail_if
      (not (bytes_eq (slice 14 16 bytes) (replicate 2 0))
        || (not (all_zero (slice 18 24 bytes)) || not (all_zero (slice 64 80 bytes))))
      (invalid_pad (text "reserved fields or flags are not zero"))
  consumed ← consumed_of (get_or bytes 17 0)
  role ← role_of (get_or bytes 16 0)
  fail_if (all_zero (slice 24 56 bytes)) (invalid_pad (text "the pad identifier is all zero"))
  ok (record {
    id = slice 24 56 bytes;
    capacity = from_be_bytes (slice 56 64 bytes);
    role = role;
    consumed = consumed;
  })
