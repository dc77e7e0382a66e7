-- ===== src/Cascade/AppError.antt =====
-- cascade/src/error.rs: the errors of the envelope and of the suites.
use rust_encryption.Common.{ℕ, String}

pub data AppError : Type 0 where
  random encryption_failed decryption_failed invalid_format input_too_large allocation : AppError
  unsupported_version : ℕ → AppError
  algorithm_mismatch : String → String → AppError
