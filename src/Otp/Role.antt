-- ===== src/Otp/Role.antt =====
-- otp/src/lib.rs: `PadRole`.
use rust_encryption.Common.{ℕ, String}

pub data PadRole : Type 0 where
  sender receiver : PadRole

-- `role as u8`
unfoldable pub role_byte : PadRole → ℕ
role_byte sender = 1
role_byte receiver = 2

-- `Display`
unfoldable pub role_name : PadRole → String
role_name sender = "sender"
role_name receiver = "receiver"
