-- ===== src/Otp/Size.antt =====
-- otp/src/lib.rs: the constants of the two formats, and the sizes of their files.
use rust_encryption.Common.{ℕ, ◌+◌, Result, ok_or, Bytes, ◌++◌, [], ◌∷◌}
use rust_encryption.Common.Words.{checked_add}
use rust_encryption.Common.Text.{codes}
use rust_encryption.Otp.Error.{OtpError, invalid_pad, invalid_envelope, text}

abbrev pub pad_magic : Bytes
pad_magic = codes "OTPPAD01"

abbrev pub envelope_magic : Bytes
envelope_magic = codes "OTPENC01"

abbrev pub ledger_magic : Bytes
ledger_magic = codes "OTPUSE01"

abbrev pub pad_checksum_domain : Bytes
pad_checksum_domain = codes "otp/pad-checksum/v1" ++ 0 ∷ []

abbrev pub envelope_auth_domain : Bytes
envelope_auth_domain = codes "otp/envelope-auth/v1" ++ 0 ∷ []

abbrev pub io_buffer_size : ℕ
io_buffer_size = 65536

-- `PAD_FIXED_LEN` and `ENVELOPE_FIXED_LEN`
abbrev pub pad_fixed_len : ℕ
pad_fixed_len = 80 + 32 + 32

abbrev pub envelope_fixed_len : ℕ
envelope_fixed_len = 64 + 32

unfoldable pub checked_pad_file_len : ℕ → Result OtpError ℕ
checked_pad_file_len capacity =
    ok_or (checked_add pad_fixed_len capacity)
      (invalid_pad (text "declared capacity overflows the file size"))

unfoldable pub checked_envelope_file_len : ℕ → Result OtpError ℕ
checked_envelope_file_len plaintext_len =
    ok_or (checked_add envelope_fixed_len plaintext_len)
      (invalid_envelope (text "declared plaintext length overflows the file size"))
