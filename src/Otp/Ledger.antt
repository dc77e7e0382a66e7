-- ===== src/Otp/Ledger.antt =====
-- otp/src/lib.rs: the ledger of used pads, one file for each identifier and role.
pub mod Paths
use rust_encryption.Common.{
  ℕ, Bool, true, false, not, Option, none, some, ◌++◌, [], ◌∷◌, Bytes, replicate, Result, ok, err,
  fail_if, length,
}
use rust_encryption.Common.Words.{to_be_bytes}
use rust_encryption.Common.Slices.{copy_at}
use rust_encryption.Common.Text.{codes}
use rust_encryption.Otp.Error.{OtpError, io, pad_already_used}
use rust_encryption.Otp.Role.{PadRole, role_byte, role_name}
use rust_encryption.Otp.Size.{ledger_magic}
use rust_encryption.Otp.Hex.{hex_encode}
use rust_encryption.Otp.Files.{is_regular, is_directory, vacant, sync_parent}
use rust_encryption.Otp.World.{
  FilePath, join, Kind, regular, directory, Node, Env, M, ◌>>=◌, ◌>>◌, lift, pure, look, put, tick,
  symlink_metadata, found,
}

-- `state_directory.join("{id}-{role}.used")`
unfoldable pub ledger_path : FilePath → Bytes → PadRole → FilePath
unfolding role_name
ledger_path state_directory id role =
    join state_directory (hex_encode id ++ (codes "-" ++ (codes (role_name role) ++ codes ".used")))

unfoldable pub usage_record : Bytes → PadRole → Bytes
unfolding role_byte
usage_record id role =
    let bytes = copy_at 0 ledger_magic (replicate 48 0) in
    let bytes = copy_at 8 (to_be_bytes 2 1) bytes in
    let bytes = copy_at 10 (role_byte role ∷ []) bytes in copy_at 16 id bytes

-- `create_dir_all`: a directory that is there stays, and a file is an error. The parents that it
-- makes as well are no files of the model.
abbrev pub made_directory : FilePath → Option Node → M Node
made_directory path none =
    put path (record { kind = directory; mode = 493; bytes = [] })
    >> pure (record { kind = directory; mode = 493; bytes = [] })
made_directory path (some node) =
    lift (fail_if (is_regular node.kind) (io "creating usage-state directory")) >> pure node

module _ (env : Env) where
  unfoldable pub ensure_state_directory : FilePath → M (Unit {0})
  ensure_state_directory path = do
    tick env "creating usage-state directory"
    there ← look path
    node ← made_directory path there
    tick env "checking usage-state directory"
    lift (fail_if (not (is_directory node.kind)) (io "checking usage-state directory"))
    tick env "securing usage-state directory"
    put path (record node { mode = 448 })

  -- `secure_create_new`
  unfoldable pub create_new : FilePath → M (Unit {0})
  create_new path = do
    tick env "reserving pad usage"
    there ← look path
    vacant pad_already_used there
    put path (record { kind = regular; mode = 384; bytes = [] })

  unfoldable pub reserve_usage : FilePath → Bytes → PadRole → M (Unit {0})
  reserve_usage state_directory id role = do
    ensure_state_directory state_directory
    create_new (ledger_path state_directory id role)
    tick env "persisting pad usage reservation"
    put (ledger_path state_directory id role)
        (record { kind = regular; mode = 384; bytes = usage_record id role })
    tick env "persisting pad usage reservation"
    sync_parent env (io "synchronizing usage-state directory")

  abbrev pub is_there : Option Node → M Bool
  is_there none = pure false
  is_there (some node) = pure true

  abbrev pub in_directory : FilePath → Option Node → M Bool
  in_directory path none = pure false
  in_directory path (some node) = do
    lift (fail_if (not (is_directory node.kind)) (io "checking pad usage-state directory"))
    there ← symlink_metadata env "checking pad usage reservation" path
    is_there there

  -- Whether the ledger has a file for the pad.
  unfoldable pub is_reserved_in : FilePath → Bytes → PadRole → M Bool
  is_reserved_in state_directory id role = do
    there ← symlink_metadata env "checking pad usage-state directory" state_directory
    in_directory (ledger_path state_directory id role) there
