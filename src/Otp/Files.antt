-- ===== src/Otp/Files.antt =====
-- otp/src/lib.rs: opening files, `ensure_distinct`, and `OutputTransaction`.
use rust_encryption.Common.{
  ◌%◌, Bool, true, false, not, Option, none, some, String, ◌++◌, [], ◌==◌, Bytes, bytes_eq, err,
  fail_if,
}
use rust_encryption.Otp.Error.{
  OtpError, invalid_pad, invalid_envelope, text, not_regular, io, same_file, output_exists,
  published_but_not_durable,
}
use rust_encryption.Otp.World.{
  FilePath, Kind, regular, directory, symlink, Node, Env, M, Handle, ◌>>=◌, ◌>>◌, lift, pure, look,
  put, attempt, tick, symlink_metadata, open_file, metadata, found,
}

abbrev pub is_regular : Kind → Bool
is_regular regular = true
is_regular directory = false
is_regular symlink = false

abbrev pub is_directory : Kind → Bool
is_directory regular = false
is_directory directory = true
is_directory symlink = false

abbrev pub is_symlink : Kind → Bool
is_symlink regular = false
is_symlink directory = false
is_symlink symlink = true

-- The descriptions that the callers pass.
pub data Description : Type 0 where
  pad plaintext encrypted_input : Description

abbrev pub not_regular_error : Description → OtpError
not_regular_error pad = invalid_pad (text "path is not a regular file")
not_regular_error plaintext = invalid_envelope (not_regular "plaintext")
not_regular_error encrypted_input = invalid_envelope (not_regular "encrypted input")

-- The temporary file of an output, which no path leads to before `commit`.
pub record OutputTransaction : Type 0 where
  pub destination : FilePath
  pub bytes : Bytes

-- No node at the destination, or the node that is there.
abbrev pub vacant : OtpError → Option Node → M (Unit {0})
vacant failure none = pure tt
vacant failure (some node) = lift (err failure)

module _ (env : Env) where
  unfoldable pub open_regular : FilePath → Description → M Handle
  open_regular path description = do
    handle ← open_file env "opening file" path
    node ← metadata env "reading file metadata" handle
    lift (fail_if (not (is_regular node.kind)) (not_regular_error description))
    pure handle

  -- `mode & 0o077` are the six lowest bits.
  unfoldable pub open_pad : FilePath → M Handle
  open_pad path = do
    there ← symlink_metadata env "checking pad path" path
    node ← found (io "checking pad path") there
    lift (
        fail_if (is_symlink node.kind) (
          invalid_pad
            (text "symbolic links and reparse-point aliases are not accepted as pad paths")))
    lift (
        fail_if (not (node.mode % 64 == 0)) (
          invalid_pad
            (text "permissions are too broad; restrict the pad to its owner (chmod 600)")))
    open_regular path pad

  -- `same_file::is_same_file`, which opens both files
  unfoldable pub ensure_distinct : FilePath → FilePath → String → M (Unit {0})
  ensure_distinct first second description = do
    tick env "comparing file identities"
    one ← look (env.resolve first)
    _ ← found (io "comparing file identities") one
    other ← look (env.resolve second)
    _ ← found (io "comparing file identities") other
    lift (fail_if (bytes_eq (env.resolve first) (env.resolve second)) (same_file description))

  unfoldable pub new_transaction : FilePath → M OutputTransaction
  new_transaction destination = do
    there ← symlink_metadata env "checking output destination" destination
    vacant (output_exists destination) there
    lift (fail_if (not (env.has_file_name destination)) (io "creating output"))
    tick env "creating temporary output"
    pure (record { destination = destination; bytes = [] })

  unfoldable pub write_temp : String → Bytes → OutputTransaction → M OutputTransaction
  write_temp action bytes t = do tick env action; pure (record t { bytes = t.bytes ++ bytes })

  unfoldable pub sync_transaction : M (Unit {0})
  sync_transaction = tick env "synchronizing temporary output"

  -- `sync_parent` opens the directory and synchronizes it.
  unfoldable pub sync_parent : OtpError → M (Unit {0})
  sync_parent failure = do
    opened ← attempt env
    lift (fail_if (not opened) failure)
    synced ← attempt env
    lift (fail_if (not synced) failure)

  -- `persist_noclobber`, and the directory.
  unfoldable pub commit : OutputTransaction → M (Unit {0})
  commit t = do
    tick env "committing output"
    there ← look t.destination
    vacant (output_exists t.destination) there
    put t.destination (record { kind = regular; mode = 384; bytes = t.bytes })
    sync_parent (published_but_not_durable t.destination)
