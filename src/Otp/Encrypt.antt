-- ===== src/Otp/Encrypt.antt =====
-- otp/src/lib.rs: `xor_exact` and `encrypt_file_with_state`.
use rust_encryption.Common.{
  ℕ, ◌+◌, ◌-◌, not, String, ◌++◌, List, [], ◌∷◌, ◌==◌, min, Bytes, length, Result, ok, err, fail_if,
  if◌then◌else◌, take, drop,
}
use rust_encryption.Common.Words.{word_mod}
use rust_encryption.Common.Xor.{xor_zip}
use rust_encryption.Otp.Error.{OtpError, io, length_mismatch}
use rust_encryption.Otp.Role.{sender}
use rust_encryption.Otp.Size.{envelope_auth_domain}
use rust_encryption.Otp.Chunks.{amounts}
use rust_encryption.Otp.EnvelopeHeader.{encode_envelope_header}
use rust_encryption.Otp.Files.{
  OutputTransaction, plaintext, open_regular, open_pad, ensure_distinct, new_transaction,
  write_temp, sync_transaction, commit,
}
use rust_encryption.Otp.Ledger.{reserve_usage}
use rust_encryption.Otp.Pad.{
  begin_pad_checksum, require_fresh_role, verify_exact_pad_checksum, read_pad_header, validate_pad,
  read_authentication_key, mark_pad_consumed,
}
use rust_encryption.Otp.World.{
  FilePath, Env, M, Handle, ◌>>=◌, ◌>>◌, lift, pure, tick, metadata, seek, read_exact,
}

unfoldable pub xor_exact : Bytes → Bytes → Result OtpError Bytes
xor_exact input pad =
    if not (length input == length pad)
    then err (length_mismatch (length pad) (length input))
    else ok (xor_zip input pad)

-- What the loops carry: the input, the pad, the output, and what the MAC and the digest were fed.
pub record Streams : Type 0 where
  pub input : Handle
  pub pad : Handle
  pub output : OutputTransaction
  pub mac : Bytes
  pub digest : Bytes

module _ (env : Env) where
  -- `read` into one byte: none at the end of the file.
  unfoldable pub read_byte : String → Handle → M Bytes
  read_byte action handle = do
    node ← metadata env action handle
    pure (take 1 (drop handle.pos node.bytes))

  unfoldable pub encrypt_loop : List ℕ → Streams → M Streams
  encrypt_loop [] s = pure s
  encrypt_loop (amount ∷ rest) s = do
    text ← read_exact env (io "reading plaintext") "reading plaintext" amount s.input
    key ← read_exact env (io "reading pad material") "reading pad material" amount s.pad
    output ← write_temp env "writing ciphertext" (xor_zip text.0 key.0) s.output
    encrypt_loop rest (record {
      input = text.1;
      pad = key.1;
      output = output;
      mac = s.mac ++ xor_zip text.0 key.0;
      digest = s.digest ++ key.0;
    })

  -- The closure, after the pad is reserved and marked.
  unfoldable pub write_envelope :
      Handle → Handle → OutputTransaction → Bytes → Bytes → Bytes → Bytes → ℕ → M (Unit {0})
  write_envelope input pad transaction header_bytes key pad_header_bytes expected capacity = do
    input ← seek env "seeking input" 0 input
    pad ← seek env "seeking pad material" 112 pad
    transaction ← write_temp env "writing encrypted-file header" header_bytes transaction
    s ← encrypt_loop (amounts capacity) (record {
      input = input;
      pad = pad;
      output = transaction;
      mac = envelope_auth_domain ++ header_bytes;
      digest = begin_pad_checksum pad_header_bytes key;
    })
    extra ← read_byte "checking plaintext length" s.input
    lift (
        fail_if (not (length extra == 0))
          (length_mismatch capacity (min (capacity + 1) (word_mod - 1))))
    lift (verify_exact_pad_checksum env s.digest expected)
    transaction ← write_temp env "writing authentication tag" (env.hmac key s.mac) s.output
    sync_transaction env
    commit env transaction

  unfoldable pub encrypt_file_with_state : FilePath → FilePath → FilePath → FilePath → M (Unit {0})
  encrypt_file_with_state input_path pad_path output_path state_directory = do
    ensure_distinct env input_path pad_path "input and pad"
    input ← open_regular env input_path plaintext
    node ← metadata env "reading input metadata" input
    let input_len = length node.bytes
    pad ← open_pad env pad_path
    tick env "locking pad"
    got ← read_pad_header env pad
    checked ← validate_pad env got.2 got.0 got.1
    lift (require_fresh_role got.1 sender)
    lift (fail_if (not (got.1.capacity == input_len)) (length_mismatch got.1.capacity input_len))
    transaction ← new_transaction env output_path
    key ← read_authentication_key env checked.1
    let header_bytes = encode_envelope_header (record { id = got.1.id; plaintext_len = input_len })
    reserve_usage env state_directory got.1.id sender
    pad ← mark_pad_consumed env key.1
    write_envelope input pad transaction header_bytes key.0 got.0 checked.0 input_len
