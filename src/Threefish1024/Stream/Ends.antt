-- ===== src/Threefish1024/Stream/Ends.antt =====
-- The loops of the streaming code end: the fuel is enough.
use mathlib.Core.Path.{subst}
use rust_encryption.Common.{
  ℕ, zero, suc, ◌+◌, ◌-◌, ◌*◌, ◌^◌, ◌≤◌, ◌<◌, ◌≡◌, refl, sym, not, min, some, ok, [], ◌∷◌, arith,
  Bytes, length, run_then, run_then-some, ◌==◌, fail_if, some-run-injective, ltb, ok_or-eq-ok,
  ok_or, Result, Run,
}
use rust_encryption.Common.Words.{checked_add}
use rust_encryption.Threefish1024.Error.{
  Error, invalid_format, io, random, input_changed, crypto_length, ciphertext_truncated,
  length_overflow, size_mismatch,
}
use rust_encryption.Threefish1024.Header.{Header, encode, decode}
use rust_encryption.Threefish1024.Ctr.{ThreefishCtr, new, apply_keystream}
use rust_encryption.Threefish1024.Ctr.Stream.{IsCipher}
use rust_encryption.Threefish1024.Ctr.State.{IsAt, new-IsAt}
use rust_encryption.Threefish1024.Ctr.Apply.{apply_keystream-xor_stream, apply_keystream-eq-ok}
use rust_encryption.Threefish1024.Deps.{Deps, DepsLaws}
use rust_encryption.Threefish1024.Stream.{
  io_buffer_len, DerivedKeys, read, write_all, start_mac, verify_loop, verify_ciphertext,
  decrypt_loop, decrypt_operation, decrypt_stream, encrypt_bytes, encrypt_loop, encrypt_operation,
  encrypt_stream, derive_keys, read_exact_format,
}
use rust_encryption.Threefish1024.Stream.Decrypt.{new-IsCipher}
use rust_encryption.Threefish1024.Stream.Encrypt.{within}

-- A run that has a result.
abbrev pub Ends : {A : Type 0} → Run Error A → Type 0
Ends {A} r = (q : Result Error A) × (r ≡ some q)

then-Ends :
    {A B : Type 0} (first : Result Error A) (next : A → Run Error B)
    → ((value : A) → first ≡ ok value → Ends (next value))
    → Ends (run_then (some first) next)
then-Ends first next k =
    run_then-some (some first) next first refl (λ v e. k v (some-run-injective e))

not_empty : (n : ℕ) → fail_if (n == 0) (invalid_format ciphertext_truncated) ≡ ok tt → 0 < n
not_empty n h = ground arith

module _ (d : Deps) (l : DepsLaws d) where
  verify_loop-Ends :
      (fuel : ℕ) (s : d.Source) (mac : d.Mac) (n : ℕ) → n ≤ fuel → Ends (verify_loop d fuel s mac n)
  unfolding verify_loop
  verify_loop-Ends fuel s mac zero h = (ok (s, mac), refl)
  verify_loop-Ends zero s mac (suc n) h = absurd (omega arith)
  verify_loop-Ends (suc fuel) s mac (suc n) h =
      then-Ends (read d (min (suc n) io_buffer_len) s) _ λ got e1.
        then-Ends (fail_if (length got.1 == 0) (invalid_format ciphertext_truncated)) _ λ _ e2.
          let some_read = not_empty (length got.1) e2 in
          verify_loop-Ends fuel got.0 (d.mac_update mac got.1) (suc n - length got.1) (omega arith)

  verify_ciphertext-Ends :
      (s : d.Source) (n : ℕ) (header key : Bytes) → Ends (verify_ciphertext d s n header key)
  unfolding verify_ciphertext
  verify_ciphertext-Ends s n header key = then-Ends (start_mac d header key) _ λ mac _.
      let (q, e) = verify_loop-Ends n s mac n (omega arith) in
      run_then-some (verify_loop d n s mac n) _ q e λ r _. (_, refl)

  decrypt_loop-Ends :
      (fuel pos : ℕ) (s : d.Source) (mac : d.Mac) (ctr : ThreefishCtr) (out : Bytes) (n : ℕ)
      → IsCipher ctr.cipher
      → IsAt pos ctr
      → pos + n ≤ (2 ^ 64 - 1) * 128
      → n ≤ fuel
      → Ends (decrypt_loop d fuel s mac ctr out n)
  unfolding decrypt_loop
  decrypt_loop-Ends fuel pos s mac ctr out zero hc at room h = (ok (s, mac, out), refl)
  decrypt_loop-Ends zero pos s mac ctr out (suc n) hc at room h = absurd (omega arith)
  decrypt_loop-Ends (suc fuel) pos s mac ctr out (suc n) hc at room h =
      then-Ends (read d (min (suc n) io_buffer_len) s) _ λ got e1.
        then-Ends (fail_if (length got.1 == 0) (invalid_format ciphertext_truncated)) _ λ _ e2.
          let some_read = not_empty (length got.1) e2 in
          let fits =
            (l.read_content (min (suc n) io_buffer_len) s got.0 got.1 (ok_or-eq-ok _ _ e1)).1 in
          let (c', run, at', same) = apply_keystream-xor_stream pos ctr got.1 hc at (omega arith) in
          run_then-some (apply_keystream ctr got.1) _ _ run λ plain e3.
            let (_, at2, same2) =
              apply_keystream-eq-ok pos ctr plain.0 got.1 plain.1 hc at (omega arith) e3 in
            then-Ends (write_all d out plain.1) _ λ out' _.
              decrypt_loop-Ends fuel (pos + length got.1) got.0 (d.mac_update mac got.1) plain.0
                out' (suc n - length got.1) (rw same2 hc) at2 (omega arith) (omega arith)

  decrypt_operation-Ends :
      (s : d.Source) (header : Header) (header_bytes : Bytes) (keys : DerivedKeys)
      → header.plaintext_len < 2 ^ 64
      → Ends (decrypt_operation d s header header_bytes keys)
  unfolding decrypt_operation
  decrypt_operation-Ends s header header_bytes keys small =
      let n = header.plaintext_len in
      let ctr = new d.new_with_tweak_u64 keys.encryption header.tweak in
      then-Ends (start_mac d header_bytes keys.authentication) _ λ mac _.
        let (q, e) =
          decrypt_loop-Ends n 0 s mac ctr [] n (new-IsCipher d l keys.encryption header.tweak)
            (new-IsAt d.new_with_tweak_u64 keys.encryption header.tweak) (omega arith)
            (omega arith) in
        run_then-some (decrypt_loop d n s mac ctr [] n) _ q e λ r _. (_, refl)

  -- Where the parameters keep their documented laws, `decrypt_file` returns on every input, with an
  -- output or an error: the fuel of its loops is enough.
  pub decrypt_stream-Ends :
      (master : Bytes) (source : d.Source) (encrypted_len : ℕ)
      → Ends (decrypt_stream d master source encrypted_len)
  unfolding decrypt_stream
  decrypt_stream-Ends master source encrypted_len =
      then-Ends (read_exact_format d 80 source) _ λ r _. then-Ends (decode r.1) _ λ header _.
        then-Ends
          (ok_or (checked_add (80 + 64) header.plaintext_len) (invalid_format length_overflow)) _
          λ total e.
            then-Ends (fail_if (not (encrypted_len == total)) (invalid_format size_mismatch)) _
              λ _ _. then-Ends (derive_keys d master header.salt) _ λ keys _.
                let n = header.plaintext_len in
                let (q, run) = verify_ciphertext-Ends r.0 n r.1 keys.authentication in
                run_then-some (verify_ciphertext d r.0 n r.1 keys.authentication) _ q run λ after _.
                  then-Ends (ok_or (d.seek 80 after) (io "seek")) _ λ s _.
                    decrypt_operation-Ends s header r.1 keys (small n total (ok_or-eq-ok _ _ e))
    where
      small : (n total : ℕ) → checked_add (80 + 64) n ≡ some total → n < 2 ^ 64
      small n total h = ground arith

  encrypt_bytes-Ends :
      (again : d.Source → d.Mac → ThreefishCtr → Bytes → ℕ → Run Error (d.Mac × Bytes × ℕ))
      (n processed : ℕ) (s : d.Source) (mac : d.Mac) (ctr : ThreefishCtr) (out : Bytes)
      → ((s : d.Source) (mac : d.Mac) (ctr : ThreefishCtr) (out : Bytes) (total : ℕ)
          → IsCipher ctr.cipher
          → IsAt total ctr
          → processed < total
          → total ≤ n
          → Ends (again s mac ctr out total))
      → (bytes : Bytes) → IsCipher ctr.cipher
      → IsAt processed ctr
      → n < 2 ^ 64
      → Ends (encrypt_bytes d again s mac ctr out processed n bytes)
  encrypt_bytes-Ends again n processed s mac ctr out ih [] hc at small =
      (ok (mac, out, processed), refl)
  encrypt_bytes-Ends again n processed s mac ctr out ih (b ∷ bs) hc at small =
      then-Ends (ok_or (checked_add processed (length (b ∷ bs))) crypto_length) _ λ total e2.
        then-Ends (fail_if (ltb n total) input_changed) _ λ _ e3.
          let (sum, fits) = within processed n (length (b ∷ bs)) total (ok_or-eq-ok _ _ e2) e3 in
          let (c', run, at', same) =
            apply_keystream-xor_stream processed ctr (b ∷ bs) hc at (omega arith) in
          run_then-some (apply_keystream ctr (b ∷ bs)) _ _ run λ sealed e4.
            let (_, at2, same2) =
              apply_keystream-eq-ok processed ctr sealed.0 (b ∷ bs) sealed.1 hc at (omega arith)
                e4 in
            then-Ends (write_all d out sealed.1) _ λ out' _.
              ih s (d.mac_update mac sealed.1) sealed.0 out' total (rw same2 hc)
                (subst (λ (t : ℕ). IsAt t sealed.0) (sym sum) at2) (omega arith) fits

  encrypt_loop-Ends :
      (n fuel processed : ℕ) (s : d.Source) (mac : d.Mac) (ctr : ThreefishCtr) (out : Bytes)
      → IsCipher ctr.cipher
      → IsAt processed ctr
      → n < 2 ^ 64
      → n < processed + fuel
      → processed ≤ n
      → Ends (encrypt_loop d n fuel s mac ctr out processed)
  unfolding encrypt_loop
  encrypt_loop-Ends n zero processed s mac ctr out hc at small enough h = absurd (omega arith)
  encrypt_loop-Ends n (suc fuel) processed s mac ctr out hc at small enough h =
      then-Ends (read d io_buffer_len s) _ λ got _.
        encrypt_bytes-Ends (encrypt_loop d n fuel) n processed got.0 mac ctr out
          (λ s mac ctr out total hc at more fits.
            encrypt_loop-Ends n fuel total s mac ctr out hc at small (omega arith) fits)
          got.1 hc at small

  encrypt_operation-Ends :
      (s : d.Source) (header : Header) (keys : DerivedKeys)
      → header.plaintext_len < 2 ^ 64
      → Ends (encrypt_operation d s header keys)
  unfolding encrypt_operation
  encrypt_operation-Ends s header keys small =
      let n = header.plaintext_len in
      let ctr = new d.new_with_tweak_u64 keys.encryption header.tweak in
      then-Ends (start_mac d (encode header) keys.authentication) _ λ mac _.
        then-Ends (write_all d [] (encode header)) _ λ out _.
          let (q, e) =
            encrypt_loop-Ends n (suc n) 0 s mac ctr out
              (new-IsCipher d l keys.encryption header.tweak)
              (new-IsAt d.new_with_tweak_u64 keys.encryption header.tweak) small (omega arith)
              (omega arith) in
          run_then-some (encrypt_loop d n (suc n) s mac ctr out 0) _ q e λ r _. (_, refl)

  -- Where the parameters keep their documented laws, and for a stated length of 64 bits,
  -- `encrypt_file` returns on every input, with an output or an error: the fuel of its loop is
  -- enough, also for an input that grows while it is read.
  pub encrypt_stream-Ends :
      (master : Bytes) (source : d.Source) (plaintext_len : ℕ)
      → plaintext_len < 2 ^ 64
      → Ends (encrypt_stream d master source plaintext_len)
  unfolding encrypt_stream
  encrypt_stream-Ends master source plaintext_len small =
      then-Ends (ok_or (d.fill 0 32) random) _ λ salt _.
        then-Ends (ok_or (d.fill 1 16) random) _ λ tweak _.
          then-Ends (derive_keys d master salt) _ λ keys _.
            encrypt_operation-Ends source
              (record { plaintext_len = plaintext_len; salt = salt; tweak = tweak }) keys small
