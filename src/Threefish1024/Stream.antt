-- ===== src/Threefish1024/Stream.antt =====
-- threefish1024/src/lib.rs: the streaming parts of `encrypt_file` and `decrypt_file`, from the open
-- input to the content of the temporary output, and `verify_ciphertext`. Each loop runs on fuel.
pub mod Verify
pub mod Decrypt
pub mod Encrypt
pub mod Ends
pub mod StableFile
pub mod RoundTrip
pub mod Tests
use rust_encryption.Common.{
  ℕ, zero, suc, ◌+◌, ◌-◌, ◌<◌, ◌==◌, min, not, ltb, if◌then◌else◌, Option, none, some, [], ◌∷◌,
  ◌++◌, Bytes, length, Result, ok, err, ◌>>=◌, ◌>>◌, fail_if, ok_or, Run, run_then, or_err,
}
use rust_encryption.Common.Words.{checked_add}
use rust_encryption.Common.Text.{codes}
use rust_encryption.Threefish1024.Error.{
  Error, FormatFault, random, invalid_format, io, authentication_failed, input_changed,
  crypto_length, ciphertext_truncated, file_truncated, trailing_data, length_overflow,
  size_mismatch,
}
use rust_encryption.Threefish1024.Header.{Header, encode, decode}
use rust_encryption.Threefish1024.Ctr.{ThreefishCtr, new, apply_keystream}
use rust_encryption.Threefish1024.Deps.{Deps, Exact, filled, unexpected_eof, failed}

abbrev pub io_buffer_len : ℕ
io_buffer_len = 65536

abbrev pub authentication_domain : Bytes
authentication_domain = codes "threefish1024/v1/auth" ++ 0 ∷ []

pub record DerivedKeys : Type 0 where
  pub encryption : Bytes
  pub authentication : Bytes

module _ (d : Deps) where
  unfoldable pub derive_keys : Bytes → Bytes → Result Error DerivedKeys
  derive_keys master salt = do
    encryption ←
        ok_or (d.hkdf_expand salt master (codes "threefish1024/v1/threefish-1024-ctr") 128)
          crypto_length
    authentication ←
        ok_or (d.hkdf_expand salt master (codes "threefish1024/v1/hmac-sha512") 64) crypto_length
    ok (record { encryption = encryption; authentication = authentication })

  abbrev pub new_mac : Bytes → Result Error d.Mac
  new_mac key = ok_or (d.mac_new key) crypto_length

  abbrev pub read : ℕ → d.Source → Result Error (d.Source × Bytes)
  read n source = ok_or (d.read n source) (io "read")

  abbrev pub exact_format : Exact d.Source → Result Error (d.Source × Bytes)
  exact_format (filled source bytes) = ok (source, bytes)
  exact_format unexpected_eof = err (invalid_format file_truncated)
  exact_format failed = err (io "read")

  abbrev pub read_exact_format : ℕ → d.Source → Result Error (d.Source × Bytes)
  read_exact_format n source = exact_format (d.read_exact n source)

  abbrev pub write_all : Bytes → Bytes → Result Error Bytes
  write_all out bytes = if d.can_write (out ++ bytes) then ok (out ++ bytes) else err (io "write")

  -- The MAC over the domain and the header.
  unfoldable pub start_mac : Bytes → Bytes → Result Error d.Mac
  start_mac header authentication_key = do
    mac ← new_mac authentication_key
    ok (d.mac_update (d.mac_update mac authentication_domain) header)

  -- `while remaining != 0`. `read` returns no more bytes than it was asked for, so that the
  -- subtraction does not wrap.
  unfoldable pub verify_loop : ℕ → d.Source → d.Mac → ℕ → Run Error (d.Source × d.Mac)
  verify_loop fuel source mac zero = some (ok (source, mac))
  verify_loop zero source mac (suc n) = none
  verify_loop (suc fuel) source mac (suc n) =
      run_then (some (read (min (suc n) io_buffer_len) source)) λ (source, bytes).
        run_then (some (fail_if (length bytes == 0) (invalid_format ciphertext_truncated)))
          λ _. verify_loop fuel source (d.mac_update mac bytes) (suc n - length bytes)

  -- The tag, the end of the file, and the comparison.
  unfoldable pub check_tag : d.Source → d.Mac → Result Error d.Source
  check_tag source mac = do
    supplied ← read_exact_format 64 source
    trailing ← read 1 supplied.0
    fail_if (not (length trailing.1 == 0)) (invalid_format trailing_data)
    fail_if (not (d.mac_verify mac supplied.1)) authentication_failed
    ok trailing.0

  -- Each round takes a byte at least.
  unfoldable pub verify_ciphertext : d.Source → ℕ → Bytes → Bytes → Run Error d.Source
  verify_ciphertext source ciphertext_len header authentication_key =
      run_then (some (start_mac header authentication_key)) λ mac.
        run_then (verify_loop ciphertext_len source mac ciphertext_len)
          λ (source, mac). some (check_tag source mac)

  unfoldable pub decrypt_loop :
      ℕ → d.Source → d.Mac → ThreefishCtr → Bytes → ℕ → Run Error (d.Source × d.Mac × Bytes)
  decrypt_loop fuel source mac ctr out zero = some (ok (source, mac, out))
  decrypt_loop zero source mac ctr out (suc n) = none
  decrypt_loop (suc fuel) source mac ctr out (suc n) =
      run_then (some (read (min (suc n) io_buffer_len) source)) λ (source, bytes).
        run_then (some (fail_if (length bytes == 0) (invalid_format ciphertext_truncated))) λ _.
          run_then (apply_keystream ctr bytes) λ (ctr, plain).
            run_then (some (write_all out plain)) λ out.
              decrypt_loop fuel source (d.mac_update mac bytes) ctr out (suc n - length bytes)

  -- The closure `operation` of `decrypt_file`, on the input behind the header and an empty output.
  unfoldable pub decrypt_operation : d.Source → Header → Bytes → DerivedKeys → Run Error Bytes
  decrypt_operation source header header_bytes keys =
      run_then (some (start_mac header_bytes keys.authentication)) λ mac.
        let ctr = new d.new_with_tweak_u64 keys.encryption header.tweak in
        run_then (decrypt_loop header.plaintext_len source mac ctr [] header.plaintext_len)
          λ (source, mac, out).
            some
              (do end ← check_tag source mac; fail_if (not (d.can_flush out)) (io "flush"); ok out)

  -- The body of the loop of `encrypt_file`, past the read of `bytes`; `again` is the next round.
  abbrev pub encrypt_bytes :
      (d.Source → d.Mac → ThreefishCtr → Bytes → ℕ → Run Error (d.Mac × Bytes × ℕ))
      → d.Source
      → d.Mac
      → ThreefishCtr
      → Bytes
      → ℕ
      → ℕ
      → Bytes
      → Run Error (d.Mac × Bytes × ℕ)
  encrypt_bytes again source mac ctr out processed plaintext_len [] =
      some (ok (mac, out, processed))
  encrypt_bytes again source mac ctr out processed plaintext_len (b ∷ bs) =
      run_then (some (ok_or (checked_add processed (length (b ∷ bs))) crypto_length)) λ processed.
        run_then (some (fail_if (ltb plaintext_len processed) input_changed)) λ _.
          run_then (apply_keystream ctr (b ∷ bs)) λ (ctr, sealed).
            run_then (some (write_all out sealed))
              λ out. again source (d.mac_update mac sealed) ctr out processed

  -- `loop` of `encrypt_file`, which ends at the end of the input.
  unfoldable pub encrypt_loop :
      ℕ → ℕ → d.Source → d.Mac → ThreefishCtr → Bytes → ℕ → Run Error (d.Mac × Bytes × ℕ)
  encrypt_loop plaintext_len zero source mac ctr out processed = none
  encrypt_loop plaintext_len (suc fuel) source mac ctr out processed =
      run_then (some (read io_buffer_len source)) λ (source, bytes).
        encrypt_bytes (encrypt_loop plaintext_len fuel) source mac ctr out processed plaintext_len
          bytes

  -- The closure `operation` of `encrypt_file`. A round that goes on counts a byte at least, and
  -- `processed` does not pass `plaintext_len`.
  unfoldable pub encrypt_operation : d.Source → Header → DerivedKeys → Run Error Bytes
  encrypt_operation source header keys =
      run_then (some (start_mac (encode header) keys.authentication)) λ mac.
        run_then (some (write_all [] (encode header))) λ out.
          let ctr = new d.new_with_tweak_u64 keys.encryption header.tweak in
          run_then
            (encrypt_loop header.plaintext_len (suc header.plaintext_len) source mac ctr out 0)
            λ (mac, out, processed). some (do
              fail_if (not (processed == header.plaintext_len)) input_changed
              out ← write_all out (d.mac_finalize mac)
              fail_if (not (d.can_flush out)) (io "flush")
              ok out)

  -- `decrypt_file` from the open input, whose metadata state `encrypted_len`, to the content of the
  -- output. The input is authenticated, sought back, and authenticated again while it is decrypted.
  unfoldable pub decrypt_stream : Bytes → d.Source → ℕ → Run Error Bytes
  decrypt_stream master source encrypted_len =
      run_then (some (read_exact_format 80 source)) λ (source, header_bytes).
        run_then (some (decode header_bytes)) λ header.
          run_then
            (some
              (ok_or (checked_add (80 + 64) header.plaintext_len) (invalid_format length_overflow)))
            λ expected_len.
              run_then
                (some
                  (fail_if (not (encrypted_len == expected_len)) (invalid_format size_mismatch)))
                λ _. run_then (some (derive_keys master header.salt)) λ keys.
                  run_then
                    (verify_ciphertext source header.plaintext_len header_bytes keys.authentication)
                    λ source.
                      run_then (some (ok_or (d.seek 80 source) (io "seek")))
                        λ source. decrypt_operation source header header_bytes keys

  -- `encrypt_file` from the open input, whose metadata state `plaintext_len`, to the content of the
  -- output.
  unfoldable pub encrypt_stream : Bytes → d.Source → ℕ → Run Error Bytes
  encrypt_stream master source plaintext_len = run_then (some (ok_or (d.fill 0 32) random)) λ salt.
      run_then (some (ok_or (d.fill 1 16) random)) λ tweak.
        let header : Header = record {
          plaintext_len = plaintext_len;
          salt = salt;
          tweak = tweak;
        } in
        run_then (some (derive_keys master salt)) λ keys. encrypt_operation source header keys
