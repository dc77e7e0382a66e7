-- ===== src/Threefish1024/Error.antt =====
-- threefish1024/src/lib.rs: the errors of the container and of the stream.

use rust_encryption.Common.{String}

-- The messages of `InvalidFormat`.
pub data FormatFault : Type 0 where
  bad_magic unsupported_version unsupported_algorithm unsupported_header_len reserved_fields :
      FormatFault
  length_overflow size_mismatch ciphertext_truncated file_truncated trailing_data : FormatFault

pub data Error : Type 0 where
  invalid_format : FormatFault → Error
  -- A read, a write or a flush that failed.
  io : String → Error
  random authentication_failed input_changed crypto_length : Error
