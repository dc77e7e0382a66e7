-- ===== src/Otp/Pad.antt =====
-- otp/src/lib.rs: pad files, and what is done to one.
use rust_encryption.Common.{
  ℕ, ◌+◌, Bool, not, ◌++◌, List, [], ◌∷◌, ◌==◌, Bytes, bytes_eq, replicate, length, Result, ok, err,
  fail_if, if◌then◌else◌,
}
use rust_encryption.Common.Slices.{copy_at}
use rust_encryption.Otp.Error.{
  OtpError, invalid_pad, text, wrong_size, io, cleanup, pad_already_used, wrong_pad_role,
}
use rust_encryption.Otp.Role.{PadRole, role_byte}
use rust_encryption.Otp.Size.{checked_pad_file_len, pad_checksum_domain}
use rust_encryption.Otp.Chunks.{amounts}
use rust_encryption.Otp.PadHeader.{PadHeader, parse_pad_header}
use rust_encryption.Otp.Files.{open_pad}
use rust_encryption.Otp.World.{
  FilePath, World, Env, M, Handle, ◌>>=◌, ◌>>◌, lift, pure, put, tick, metadata, seek, read_exact,
  write_all,
}

pub record PadInfo : Type 0 where
  pub id : Bytes
  pub capacity : ℕ
  pub role : PadRole
  pub consumed : Bool

-- `normalized[PAD_STATE_OFFSET] = 0`
unfoldable pub normalized_header_for_checksum : Bytes → Bytes
normalized_header_for_checksum header_bytes = copy_at 17 (0 ∷ []) header_bytes

-- What `begin_pad_checksum` has fed to the digest.
unfoldable pub begin_pad_checksum : Bytes → Bytes → Bytes
unfolding normalized_header_for_checksum
begin_pad_checksum header_bytes authentication_key =
    pad_checksum_domain ++ (normalized_header_for_checksum header_bytes ++ authentication_key)

unfoldable pub require_fresh_role : PadHeader → PadRole → Result OtpError (Unit {0})
unfolding role_byte
require_fresh_role header expected =
    if not (role_byte header.role == role_byte expected)
    then err (wrong_pad_role expected header.role)
    else fail_if header.consumed pad_already_used

-- An error on the way of `wipe_pad` is a failure of the cleanup, whose text is not kept.
abbrev pub as_cleanup : {A : Type 0} → Result OtpError A × World → Result OtpError A × World
as_cleanup (ok value, w) = (ok value, w)
as_cleanup (err failure, w) = (err (cleanup "could not overwrite the pad"), w)

unfoldable pub in_cleanup : {A : Type 0} → M A → M A
in_cleanup m w = as_cleanup (m w)

module _ (env : Env) where
  unfoldable pub verify_exact_pad_checksum : Bytes → Bytes → Result OtpError (Unit {0})
  verify_exact_pad_checksum digest expected =
      fail_if (not (bytes_eq (env.sha256 digest) expected))
        (invalid_pad (text "pad material changed while it was being used"))

  unfoldable pub read_pad_header : Handle → M (Bytes × PadHeader × Handle)
  read_pad_header file = do
    file ← seek env "seeking pad" 0 file
    got ← read_exact env (invalid_pad (text "truncated header")) "reading pad header" 80 file
    header ← lift (parse_pad_header got.0)
    pure (got.0, header, got.1)

  -- The loops that read: what was fed to the digest, and what the rounds read.
  unfoldable pub digest_loop : List ℕ → Bytes → Handle → M (Bytes × Handle)
  digest_loop [] digest file = pure (digest, file)
  digest_loop (amount ∷ rest) digest file = do
    got ← read_exact env (io "reading pad material") "reading pad material" amount file
    digest_loop rest (digest ++ got.0) got.1

  unfoldable pub validate_pad : Handle → Bytes → PadHeader → M (Bytes × Handle)
  validate_pad file header_bytes header = do
    node ← metadata env "reading pad metadata" file
    expected_len ← lift (checked_pad_file_len header.capacity)
    lift (
        fail_if (not (length node.bytes == expected_len))
          (invalid_pad (wrong_size (length node.bytes) expected_len)))
    file ← seek env "seeking pad" 80 file
    digest ←
        digest_loop (amounts (32 + header.capacity))
          (pad_checksum_domain ++ normalized_header_for_checksum header_bytes) file
    stored ← read_exact env (io "reading pad checksum") "reading pad checksum" 32 digest.1
    lift (
        fail_if (not (bytes_eq (env.sha256 digest.0) stored.0))
          (invalid_pad (text "secret-material checksum does not match")))
    pure stored

  unfoldable pub read_authentication_key : Handle → M (Bytes × Handle)
  read_authentication_key file = do
    file ← seek env "seeking authentication key" 80 file
    read_exact env (io "reading authentication key") "reading authentication key" 32 file

  unfoldable pub mark_pad_consumed : Handle → M Handle
  mark_pad_consumed file = do
    file ← seek env "seeking pad state" 17 file
    file ← write_all env "persisting consumed-pad state" (1 ∷ []) file
    tick env "persisting consumed-pad state"
    tick env "persisting consumed-pad state"
    pure file

  unfoldable pub inspect_pad : FilePath → M PadInfo
  inspect_pad path = do
    file ← open_pad env path
    tick env "locking pad"
    got ← read_pad_header file
    _ ← validate_pad got.2 got.0 got.1
    pure (record {
      id = got.1.id;
      capacity = got.1.capacity;
      role = got.1.role;
      consumed = got.1.consumed;
    })

  unfoldable pub zero_loop : List ℕ → Handle → M Handle
  zero_loop [] file = pure file
  zero_loop (amount ∷ rest) file = do
    file ← write_all env "overwriting" (replicate amount 0) file
    zero_loop rest file

  -- `set_len(0)`
  unfoldable pub truncate : Handle → M (Unit {0})
  truncate file = do
    node ← metadata env "truncating" file
    put file.node (record node { bytes = [] })

  unfoldable pub wipe_pad : Handle → M (Unit {0})
  wipe_pad file = in_cleanup (do
    node ← metadata env "reading pad metadata" file
    file ← seek env "overwriting" 0 file
    file ← zero_loop (amounts (length node.bytes)) file
    tick env "overwriting"
    tick env "overwriting"
    truncate file
    tick env "overwriting")

  unfoldable pub destroy_pad : FilePath → M (Unit {0})
  destroy_pad path = do
    file ← open_pad env path
    tick env "locking pad"
    got ← read_pad_header file
    checked ← validate_pad got.2 got.0 got.1
    wipe_pad checked.1
