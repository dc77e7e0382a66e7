-- ===== src/Otp/StateDirectory.antt =====
-- otp/src/lib.rs: `default_state_directory`, on Unix, `encrypt_file` and `decrypt_file`.
use rust_encryption.Common.{Option, none, some, [], ◌∷◌, Bytes, Result, ok, err}
use rust_encryption.Common.Text.{codes}
use rust_encryption.Otp.Error.{OtpError, state_directory_unavailable}
use rust_encryption.Otp.Encrypt.{encrypt_file_with_state}
use rust_encryption.Otp.Decrypt.{decrypt_file_with_state}
use rust_encryption.Otp.World.{FilePath, Env, M, ◌>>=◌, lift, join}

abbrev pub from_home : Option Bytes → Result OtpError FilePath
from_home none = err state_directory_unavailable
from_home (some home) = ok (
    join (join (join (join home (codes ".local")) (codes "state")) (codes "otp"))
      (codes "state-v1"))

abbrev pub from_state_home : Option Bytes → Option Bytes → Result OtpError FilePath
from_state_home none home = from_home home
from_state_home (some base) home = ok (join (join base (codes "otp")) (codes "state-v1"))

-- The three variables in their order. An empty `OTP_STATE_DIR` counts as none.
abbrev pub from_variables : Option Bytes → Option Bytes → Option Bytes → Result OtpError FilePath
from_variables none state_home home = from_state_home state_home home
from_variables (some []) state_home home = from_state_home state_home home
from_variables (some (c ∷ cs)) state_home home = ok (c ∷ cs)

unfoldable pub default_state_directory : Env → Result OtpError FilePath
default_state_directory env =
    from_variables (env.variable "OTP_STATE_DIR") (env.variable "XDG_STATE_HOME")
      (env.variable "HOME")

module _ (env : Env) where
  unfoldable pub encrypt_file : FilePath → FilePath → FilePath → M (Unit {0})
  encrypt_file input_path pad_path output_path = do
    state_directory ← lift (default_state_directory env)
    encrypt_file_with_state env input_path pad_path output_path state_directory

  unfoldable pub decrypt_file : FilePath → FilePath → FilePath → M (Unit {0})
  decrypt_file input_path pad_path output_path = do
    state_directory ← lift (default_state_directory env)
    decrypt_file_with_state env input_path pad_path output_path state_directory
