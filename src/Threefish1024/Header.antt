-- ===== src/Threefish1024/Header.antt =====
-- threefish1024/src/lib.rs: `Header`, `encode` and `decode`.
pub mod Codec
use rust_encryption.Common.{
  ℕ, ◌++◌, [], ◌∷◌, ◌==◌, not, bytes_eq, Bytes, replicate, Result, ok, ◌>>=◌, ◌>>◌, fail_if,
}
use rust_encryption.Common.Words.{to_le_bytes, from_le_bytes}
use rust_encryption.Common.Slices.{slice, copy_at}
use rust_encryption.Threefish1024.Error.{
  Error, invalid_format, bad_magic, unsupported_version, unsupported_algorithm,
  unsupported_header_len, reserved_fields,
}

-- "TF1024\0\0"
abbrev pub magic : Bytes
magic = 84 ∷ 70 ∷ 49 ∷ 48 ∷ 50 ∷ 52 ∷ 0 ∷ 0 ∷ []

pub record Header : Type 0 where
  pub plaintext_len : ℕ
  pub salt : Bytes
  pub tweak : Bytes

unfoldable pub encode : Header → Bytes
encode h =
    let bytes = copy_at 0 magic (replicate 80 0) in
    let bytes = copy_at 8 (to_le_bytes 2 1) bytes in
    let bytes = copy_at 10 (to_le_bytes 2 1) bytes in
    let bytes = copy_at 12 (to_le_bytes 4 80) bytes in
    let bytes = copy_at 24 (to_le_bytes 8 h.plaintext_len) bytes in
    let bytes = copy_at 32 h.salt bytes in copy_at 64 h.tweak bytes

unfoldable pub decode : Bytes → Result Error Header
decode bytes = do
  fail_if (not (bytes_eq (slice 0 8 bytes) magic)) (invalid_format bad_magic)
  fail_if (not (from_le_bytes (slice 8 10 bytes) == 1)) (invalid_format unsupported_version)
  fail_if (not (from_le_bytes (slice 10 12 bytes) == 1)) (invalid_format unsupported_algorithm)
  fail_if (not (from_le_bytes (slice 12 16 bytes) == 80)) (invalid_format unsupported_header_len)
  fail_if (not (bytes_eq (slice 16 24 bytes) (replicate 8 0))) (invalid_format reserved_fields)
  ok (record {
    plaintext_len = from_le_bytes (slice 24 32 bytes);
    salt = slice 32 64 bytes;
    tweak = slice 64 80 bytes;
  })
