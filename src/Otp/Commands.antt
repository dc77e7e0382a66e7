-- ===== src/Otp/Commands.antt =====
-- otp/src/main.rs: the commands and `run`; otp/src/lib.rs: `file_length`, `create_pad_pair`.
pub mod Safety
use rust_encryption.Common.{
  ℕ, Bool, true, false, not, ◌||◌, Option, none, some, List, [], ◌∷◌, Bytes, Result, ok, err,
  fail_if, length, if◌then◌else◌,
}
use rust_encryption.Otp.Error.{OtpError, io, confirmation_required}
use rust_encryption.Otp.Role.{PadRole}
use rust_encryption.Otp.Hex.{hex_encode}
use rust_encryption.Otp.StateDirectory.{default_state_directory}
use rust_encryption.Otp.Files.{is_regular}
use rust_encryption.Otp.Ledger.{is_reserved_in}
use rust_encryption.Otp.Pad.{PadInfo, inspect_pad, destroy_pad}
use rust_encryption.Otp.Create.{create_pad_pair_with_rng}
use rust_encryption.Otp.Encrypt.{encrypt_file_with_state}
use rust_encryption.Otp.Decrypt.{decrypt_file_with_state}
use rust_encryption.Otp.World.{FilePath, World, Env, M, ◌>>=◌, ◌>>◌, lift, pure, look, found, tick}

-- `--length` or `--for-file`, of which the parser lets exactly one pass.
pub data Capacity : Type 0 where
  length_of : ℕ → Capacity
  for_file : FilePath → Capacity

pub data PadCommand : Type 0 where
  create : Capacity → FilePath → FilePath → PadCommand
  info : FilePath → PadCommand
  destroy : FilePath → Bool → PadCommand

pub record FileCommand : Type 0 where
  pub input : FilePath
  pub pad : FilePath
  pub output : FilePath

pub data Command : Type 0 where
  pad_command : PadCommand → Command
  encrypt decrypt : FileCommand → Command

pub record Cli : Type 0 where
  pub state_dir : Option FilePath
  pub command : Command

-- "consumed" or "fresh"
pub data State : Type 0 where
  consumed fresh : State

-- What is written to the standard output: the values that the texts show.
pub data Report : Type 0 where
  created : ℕ → FilePath → FilePath → Report
  information : Bytes → PadRole → State → ℕ → Report
  destroyed : FilePath → Report
  encrypted decrypted : FilePath → FilePath → Report

module _ (env : Env) where
  unfoldable pub file_length : FilePath → M ℕ
  file_length path = do
    tick env "reading file metadata"
    there ← look (env.resolve path)
    node ← found (io "reading file metadata") there
    lift (fail_if (not (is_regular node.kind)) (io "reading file metadata"))
    pure (length node.bytes)

  -- With the random source of the operating system.
  unfoldable pub create_pad_pair : ℕ → FilePath → FilePath → M (Unit {0})
  create_pad_pair capacity sender_path receiver_path =
      create_pad_pair_with_rng env capacity sender_path receiver_path

  unfoldable pub resolve_state_directory : Option FilePath → Result OtpError FilePath
  resolve_state_directory none = default_state_directory env
  resolve_state_directory (some path) = ok path

  abbrev pub capacity_of : Capacity → M ℕ
  capacity_of (length_of n) = pure n
  capacity_of (for_file path) = file_length path

  unfoldable pub run_pad : Option FilePath → PadCommand → M Report
  run_pad state_dir (create source sender receiver) = do
    capacity ← capacity_of source
    create_pad_pair capacity sender receiver
    tick env "writing status"
    pure (created capacity sender receiver)
  run_pad state_dir (info pad) = do
    found_info ← inspect_pad env pad
    state_directory ← lift (resolve_state_directory state_dir)
    reserved ← is_reserved_in env state_directory found_info.id found_info.role
    let state = if found_info.consumed || reserved then consumed else fresh
    tick env "writing pad information"
    pure (information (hex_encode found_info.id) found_info.role state found_info.capacity)
  run_pad state_dir (destroy pad yes_given) = do
    lift (fail_if (not yes_given) confirmation_required)
    destroy_pad env pad
    tick env "writing status"
    pure (destroyed pad)

  abbrev pub run_command : Option FilePath → Command → M Report
  run_command state_dir (pad_command command) = run_pad state_dir command
  run_command state_dir (encrypt arguments) = do
    state_directory ← lift (resolve_state_directory state_dir)
    encrypt_file_with_state env arguments.input arguments.pad arguments.output state_directory
    tick env "writing status"
    pure (encrypted arguments.input arguments.output)
  run_command state_dir (decrypt arguments) = do
    state_directory ← lift (resolve_state_directory state_dir)
    decrypt_file_with_state env arguments.input arguments.pad arguments.output state_directory
    tick env "writing status"
    pure (decrypted arguments.input arguments.output)

  unfoldable pub run : Cli → M Report
  run cli = run_command cli.state_dir cli.command

  -- The program, called several times one after the other, whatever each call ends with.
  unfoldable pub run_all : List Cli → World → World
  run_all [] w = w
  run_all (cli ∷ rest) w = run_all rest (run cli w).1
