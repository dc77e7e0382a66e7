-- ===== src/Otp/Error.antt =====
-- otp/src/lib.rs: `OtpError`. The text of an operating-system error is not kept.
use rust_encryption.Common.{ℕ, String, Bytes}
use rust_encryption.Otp.Role.{PadRole}

-- The texts of `InvalidPad` and `InvalidEnvelope`, with the numbers that some of them show.
pub data Fault : Type 0 where
  text : String → Fault
  -- "{} path is not a regular file"
  not_regular : String → Fault
  unknown_role unknown_state : ℕ → Fault
  wrong_size : ℕ → ℕ → Fault

pub data OtpError : Type 0 where
  io : String → OtpError
  invalid_pad invalid_envelope : Fault → OtpError
  pad_already_used wrong_pad authentication_failed confirmation_required : OtpError
  state_directory_unavailable : OtpError
  wrong_pad_role : PadRole → PadRole → OtpError
  length_mismatch : ℕ → ℕ → OtpError
  output_exists : Bytes → OtpError
  partial_pad_pair : Bytes → OtpError → OtpError
  published_but_not_durable : Bytes → OtpError
  same_file random invalid_size cleanup : String → OtpError
