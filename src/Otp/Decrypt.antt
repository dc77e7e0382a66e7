-- ===== src/Otp/Decrypt.antt =====
-- otp/src/lib.rs: `authenticate_envelope` and `decrypt_file_with_state`.
use rust_encryption.Common.{ℕ, not, ◌++◌, List, [], ◌∷◌, ◌==◌, Bytes, bytes_eq, length, fail_if}
use rust_encryption.Common.Xor.{xor_zip}
use rust_encryption.Otp.Error.{
  io, invalid_envelope, text, wrong_size, wrong_pad, length_mismatch, authentication_failed,
}
use rust_encryption.Otp.Role.{receiver}
use rust_encryption.Otp.Size.{checked_envelope_file_len, envelope_auth_domain}
use rust_encryption.Otp.Chunks.{amounts}
use rust_encryption.Otp.EnvelopeHeader.{EnvelopeHeader, parse_envelope_header}
use rust_encryption.Otp.Files.{
  OutputTransaction, encrypted_input, open_regular, open_pad, ensure_distinct, new_transaction,
  write_temp, sync_transaction, commit,
}
use rust_encryption.Otp.Ledger.{reserve_usage}
use rust_encryption.Otp.Pad.{
  begin_pad_checksum, require_fresh_role, verify_exact_pad_checksum, read_pad_header, validate_pad,
  read_authentication_key, mark_pad_consumed,
}
use rust_encryption.Otp.Encrypt.{Streams}
use rust_encryption.Otp.World.{
  FilePath, Env, M, Handle, ◌>>=◌, ◌>>◌, lift, pure, tick, metadata, seek, read_exact,
}

module _ (env : Env) where
  unfoldable pub read_envelope_header : Handle → M (Bytes × EnvelopeHeader × Handle)
  read_envelope_header file = do
    file ← seek env "seeking encrypted file" 0 file
    got ←
        read_exact env (invalid_envelope (text "truncated header")) "reading encrypted-file header"
          64 file
    header ← lift (parse_envelope_header got.0)
    pure (got.0, header, got.1)

  unfoldable pub mac_loop : List ℕ → Bytes → Handle → M (Bytes × Handle)
  mac_loop [] mac file = pure (mac, file)
  mac_loop (amount ∷ rest) mac file = do
    got ←
        read_exact env (invalid_envelope (text "truncated ciphertext")) "reading ciphertext" amount
          file
    mac_loop rest (mac ++ got.0) got.1

  -- The tag behind the ciphertext, against the MAC of what was fed.
  unfoldable pub check_tag : Bytes → Bytes → Handle → M (Unit {0})
  check_tag key mac file = do
    tag ←
        read_exact env (invalid_envelope (text "truncated authentication tag"))
          "reading authentication tag" 32 file
    lift (fail_if (not (bytes_eq tag.0 (env.hmac key mac))) authentication_failed)

  unfoldable pub authenticate_envelope : Handle → Bytes → EnvelopeHeader → Bytes → M (Unit {0})
  authenticate_envelope encrypted header_bytes header key = do
    file ← seek env "seeking ciphertext" 64 encrypted
    fed ← mac_loop (amounts header.plaintext_len) (envelope_auth_domain ++ header_bytes) file
    check_tag key fed.0 fed.1

  unfoldable pub decrypt_file_region : List ℕ → Streams → M Streams
  decrypt_file_region [] s = pure s
  decrypt_file_region (amount ∷ rest) s = do
    cipher ← read_exact env (io "reading input") "reading input" amount s.input
    key ← read_exact env (io "reading pad material") "reading pad material" amount s.pad
    output ← write_temp env "writing temporary output" (xor_zip cipher.0 key.0) s.output
    decrypt_file_region rest (record {
      input = cipher.1;
      pad = key.1;
      output = output;
      mac = s.mac ++ cipher.0;
      digest = s.digest ++ key.0;
    })

  -- The end of `decrypt_file_with_state`, after the pad is reserved and marked.
  unfoldable pub write_plaintext :
      Handle → Handle → OutputTransaction → Bytes → Bytes → Bytes → Bytes → ℕ → M (Unit {0})
  write_plaintext encrypted pad transaction header_bytes key pad_header_bytes expected len = do
    encrypted ← seek env "seeking ciphertext" 64 encrypted
    pad ← seek env "seeking pad material" 112 pad
    s ← decrypt_file_region (amounts len) (record {
      input = encrypted;
      pad = pad;
      output = transaction;
      mac = envelope_auth_domain ++ header_bytes;
      digest = begin_pad_checksum pad_header_bytes key;
    })
    check_tag key s.mac s.input
    lift (verify_exact_pad_checksum env s.digest expected)
    sync_transaction env
    commit env s.output

  unfoldable pub decrypt_file_with_state : FilePath → FilePath → FilePath → FilePath → M (Unit {0})
  decrypt_file_with_state input_path pad_path output_path state_directory = do
    ensure_distinct env input_path pad_path "encrypted input and pad"
    encrypted ← open_regular env input_path encrypted_input
    node ← metadata env "reading encrypted-file metadata" encrypted
    envelope ← read_envelope_header encrypted
    expected_len ← lift (checked_envelope_file_len envelope.1.plaintext_len)
    lift (
        fail_if (not (length node.bytes == expected_len))
          (invalid_envelope (wrong_size (length node.bytes) expected_len)))
    pad ← open_pad env pad_path
    tick env "locking pad"
    got ← read_pad_header env pad
    checked ← validate_pad env got.2 got.0 got.1
    lift (require_fresh_role got.1 receiver)
    lift (fail_if (not (bytes_eq envelope.1.id got.1.id)) wrong_pad)
    lift (
        fail_if (not (envelope.1.plaintext_len == got.1.capacity))
          (length_mismatch got.1.capacity envelope.1.plaintext_len))
    key ← read_authentication_key env checked.1
    authenticate_envelope envelope.2 envelope.0 envelope.1 key.0
    transaction ← new_transaction env output_path
    reserve_usage env state_directory got.1.id receiver
    pad ← mark_pad_consumed env key.1
    write_plaintext envelope.2 pad transaction envelope.0 key.0 got.0 checked.0
        envelope.1.plaintext_len
