-- ===== src/Threefish1024/Stream/Decrypt.antt =====
-- What the second pass has authenticated and written when `decrypt_file` comes to publish it.
use rust_encryption.Common.{
  ℕ, zero, suc, ◌+◌, ◌-◌, ◌*◌, ◌^◌, ◌≤◌, ◌<◌, ◌≡◌, refl, sym, ap, ◌∙◌, true, false, not, min, some,
  ok, err, [], ◌++◌, arith, Bytes, length, append_assoc, append-nil, length-append, fail_if-passed,
  >>=-eq-ok, run_then-passed, run-injective, ◌==◌, fail_if, some-run-injective, run_some-passed,
  Bool, if◌then◌else◌, ok-injective, ok_or-eq-ok, ok_or,
}
use rust_encryption.Common.Words.{checked_add}
use rust_encryption.Threefish1024.Error.{
  invalid_format, io, ciphertext_truncated, length_overflow, size_mismatch,
}
use rust_encryption.Threefish1024.Header.{Header, decode}
use rust_encryption.Threefish1024.Ctr.{Cipher, ThreefishCtr, new, apply_keystream}
use rust_encryption.Threefish1024.Ctr.Stream.{IsCipher, xor_stream, xor_stream-append}
use rust_encryption.Threefish1024.Ctr.State.{IsAt, new-IsAt}
use rust_encryption.Threefish1024.Ctr.Apply.{apply_keystream-eq-ok}
use rust_encryption.Threefish1024.Deps.{Deps, DepsLaws}
use rust_encryption.Threefish1024.Stream.{
  io_buffer_len, DerivedKeys, read, write_all, start_mac, check_tag, decrypt_loop,
  decrypt_operation, decrypt_stream, derive_keys, verify_ciphertext, read_exact_format,
}
use rust_encryption.Threefish1024.Stream.Verify.{
  IsSealed, sealed, verify_ciphertext-IsSealed, exact-content,
}

-- The bytes written before and in one round, and those of the later rounds.
pub joined :
    (out xs c : Bytes) (pos : ℕ) (f : Cipher) {out' plain r : Bytes} {g : Cipher}
    → out' ≡ out ++ plain
    → plain ≡ xor_stream f pos xs
    → g ≡ f
    → r ≡ out' ++ xor_stream g (pos + length xs) c
    → r ≡ out ++ xor_stream f pos (xs ++ c)
joined out xs c pos f wrote xored same rest =
    rest
    ∙ rw (wrote, xored, same, xor_stream-append f pos xs c)
        (append_assoc out (xor_stream f pos xs) (xor_stream f (pos + length xs) c))

module _ (d : Deps) (l : DepsLaws d) where
  pub write_all-eq-ok :
      (out bytes out' : Bytes) → write_all d out bytes ≡ ok out' → out' ≡ out ++ bytes
  write_all-eq-ok out bytes out' h = go (d.can_write (out ++ bytes)) h
    where
      go :
          (b : Bool)
          → (if b then ok (out ++ bytes) else err (io "write")) ≡ ok out'
          → out' ≡ out ++ bytes
      go true h = sym (ok-injective h)
      go false h = cc

  -- What the loop has read, fed to the MAC and written from position `pos` on.
  abbrev Decrypted :
      ℕ → d.Source → d.Mac → ThreefishCtr → Bytes → ℕ → d.Source × d.Mac × Bytes → Type 0
  Decrypted pos s mac ctr out n r =
      (c : Bytes) × (l.content s ≡ c ++ l.content r.0)
      × (length c ≡ n)
      × (r.1 ≡ d.mac_update mac c)
      × (r.2 ≡ out ++ xor_stream ctr.cipher pos c)

  Decrypted-round :
      (pos : ℕ) (s s' : d.Source) (mac : d.Mac) (ctr ctr' : ThreefishCtr)
      (out out' plain bytes : Bytes) (n k : ℕ) (r : d.Source × d.Mac × Bytes)
      → l.content s ≡ bytes ++ l.content s'
      → out' ≡ out ++ plain
      → plain ≡ xor_stream ctr.cipher pos bytes
      → ctr'.cipher ≡ ctr.cipher
      → length bytes + k ≡ n
      → Decrypted (pos + length bytes) s' (d.mac_update mac bytes) ctr' out' k r
      → Decrypted pos s mac ctr out n r
  Decrypted-round pos s s' mac ctr ctr' out out' plain bytes n k r here wrote xored same total
        (c, whole, rest, fed, written) =
      (
        bytes ++ c,
        here ∙ ap (λ (t : Bytes). bytes ++ t) whole ∙ sym (append_assoc bytes c (l.content r.0)),
        length-append bytes c ∙ omega arith,
        fed ∙ l.update_update mac bytes c,
        joined out bytes c pos ctr.cipher wrote xored same written,
      )

  decrypt_loop-content :
      (fuel pos : ℕ) (s : d.Source) (mac : d.Mac) (ctr : ThreefishCtr) (out : Bytes) (n : ℕ)
      (r : d.Source × d.Mac × Bytes)
      → IsCipher ctr.cipher
      → IsAt pos ctr
      → pos + n ≤ (2 ^ 64 - 1) * 128
      → decrypt_loop d fuel s mac ctr out n ≡ some (ok r)
      → Decrypted pos s mac ctr out n r
  unfolding decrypt_loop
  decrypt_loop-content fuel pos s mac ctr out zero r hc at room h =
      let p = run-injective h in
      (
        [],
        ap (λ (q : d.Source × d.Mac × Bytes). l.content q.0) p,
        refl,
        sym (ap (λ (q : d.Source × d.Mac × Bytes). q.1) p) ∙ sym (l.update_nil mac),
        sym (ap (λ (q : d.Source × d.Mac × Bytes). q.2) p) ∙ sym (append-nil out),
      )
  decrypt_loop-content zero pos s mac ctr out (suc n) r hc at room h = cc
  decrypt_loop-content (suc fuel) pos s mac ctr out (suc n) r hc at room h =
      let (got, e1, h1) = run_some-passed (read d (min (suc n) io_buffer_len) s) _ h in
      let (_, e2, h2) =
        run_some-passed (fail_if (length got.1 == 0) (invalid_format ciphertext_truncated)) _ h1 in
      let (plain, e3, h3) = run_then-passed (apply_keystream ctr got.1) _ h2 in
      let (out', e4, h4) = run_some-passed (write_all d out plain.1) _ h3 in
      let (here, size) =
        l.read_content (min (suc n) io_buffer_len) s got.0 got.1 (ok_or-eq-ok _ _ e1) in
      let (xored, at', same) =
        apply_keystream-eq-ok pos ctr plain.0 got.1 plain.1 hc at (omega arith) e3 in
      Decrypted-round pos s got.0 mac ctr plain.0 out out' plain.1 got.1 (suc n)
        (suc n - length got.1) r here (write_all-eq-ok out plain.1 out' e4) xored same (omega arith)
        (decrypt_loop-content fuel (pos + length got.1) got.0 (d.mac_update mac got.1) plain.0 out'
          (suc n - length got.1) r (rw same hc) at' (omega arith) h4)

  -- The output is the plaintext of a ciphertext that the input holds, sealed under the key.
  abbrev pub IsDecryption : Bytes → Header → Bytes → DerivedKeys → Bytes → Type 0
  IsDecryption content header header_bytes keys out =
      (c : Bytes) × IsSealed d l content header_bytes keys.authentication c
      × (length c ≡ header.plaintext_len)
      × (out ≡ xor_stream (new d.new_with_tweak_u64 keys.encryption header.tweak).cipher 0 c)

  pub new-IsCipher : (key tweak : Bytes) → IsCipher (new d.new_with_tweak_u64 key tweak).cipher
  unfolding new
  new-IsCipher key tweak = l.cipher_size _ _

  pub decrypt_operation-IsDecryption :
      (s : d.Source) (header : Header) (header_bytes : Bytes) (keys : DerivedKeys) (out : Bytes)
      → header.plaintext_len < 2 ^ 64
      → decrypt_operation d s header header_bytes keys ≡ some (ok out)
      → IsDecryption (l.content s) header header_bytes keys out
  unfolding decrypt_operation
  decrypt_operation-IsDecryption s header header_bytes keys out small h =
      let ctr = new d.new_with_tweak_u64 keys.encryption header.tweak in
      let n = header.plaintext_len in
      let (mac, started, h1) = run_some-passed (start_mac d header_bytes keys.authentication) _ h in
      let (r, looped, h2) = run_then-passed (decrypt_loop d n s mac ctr [] n) _ h1 in
      let (end, checked, h3) = >>=-eq-ok (check_tag d r.0 r.1) _ (some-run-injective h2) in
      let (_, h4) = fail_if-passed (not (d.can_flush r.2)) (io "flush") _ h3 in
      let (c, whole, size, fed, written) =
        decrypt_loop-content n 0 s mac ctr [] n r (new-IsCipher keys.encryption header.tweak)
          (new-IsAt d.new_with_tweak_u64 keys.encryption header.tweak) (omega arith) looped in
      (
        c,
        sealed d l header_bytes keys.authentication c s r.0 end mac started whole
            (ap (check_tag d r.0) (sym fed) ∙ checked),
        size,
        sym (ok-injective h4) ∙ written,
      )

  -- Where the parameters keep their documented laws: what `decrypt_file` comes to publish is the
  -- plaintext of a sealed ciphertext. The header of the input decodes; the file has the size that it
  -- states; the keys are derived from its salt; behind it stood, in the first pass, a ciphertext and
  -- its MAC; and the second pass read, from where it sought to, a ciphertext of the stated length and
  -- its MAC, and the output is that ciphertext xored with the key stream of the tweak.
  pub decrypt_stream-IsDecryption :
      (master : Bytes) (source : d.Source) (encrypted_len : ℕ) (out : Bytes)
      → decrypt_stream d master source encrypted_len ≡ some (ok out)
      → (header : Header) × (header_bytes : Bytes) × (keys : DerivedKeys) × (first after
          second : d.Source)
        × (read_exact_format d 80 source ≡ ok (first, header_bytes))
        × (l.content source ≡ header_bytes ++ l.content first)
        × (length header_bytes ≡ 80)
        × (decode header_bytes ≡ ok header)
        × (encrypted_len ≡ 144 + header.plaintext_len)
        × (derive_keys d master header.salt ≡ ok keys)
        × (verify_ciphertext d first header.plaintext_len header_bytes keys.authentication
            ≡ some (ok after))
        × ((c : Bytes) × IsSealed d l (l.content first) header_bytes keys.authentication c
            × (length c ≡ header.plaintext_len))
        × (d.seek 80 after ≡ some second)
        × IsDecryption (l.content second) header header_bytes keys out
  unfolding decrypt_stream
  decrypt_stream-IsDecryption master source encrypted_len out h =
      let (r, e1, h1) = run_some-passed (read_exact_format d 80 source) _ h in
      let (header, e2, h2) = run_some-passed (decode r.1) _ h1 in
      let (total, e3, h3) =
        run_some-passed
          (ok_or (checked_add (80 + 64) header.plaintext_len) (invalid_format length_overflow)) _
          h2 in
      let (_, e4, h4) =
        run_some-passed (fail_if (not (encrypted_len == total)) (invalid_format size_mismatch)) _
          h3 in
      let (keys, e5, h5) = run_some-passed (derive_keys d master header.salt) _ h4 in
      let (after, e6, h6) =
        run_then-passed (verify_ciphertext d r.0 header.plaintext_len r.1 keys.authentication) _
          h5 in
      let (second, e7, h7) = run_some-passed (ok_or (d.seek 80 after) (io "seek")) _ h6 in
      let (sum, small) = checked_total header.plaintext_len total (ok_or-eq-ok _ _ e3) in
      (
        header,
        r.1,
        keys,
        r.0,
        after,
        second,
        e1,
        (exact-content d l 80 source r.0 r.1 e1).0,
        (exact-content d l 80 source r.0 r.1 e1).1,
        e2,
        same_size encrypted_len total e4 ∙ sum,
        e5,
        e6,
        verify_ciphertext-IsSealed d l r.0 after header.plaintext_len r.1 keys.authentication e6,
        ok_or-eq-ok _ _ e7,
        decrypt_operation-IsDecryption second header r.1 keys out small h7,
      )
    where
      checked_total :
          (n total : ℕ) → checked_add (80 + 64) n ≡ some total → (total ≡ 144 + n) × (n < 2 ^ 64)
      checked_total n total h = (ground arith, ground arith)

      same_size : (a b : ℕ) → fail_if (not (a == b)) (invalid_format size_mismatch) ≡ ok tt → a ≡ b
      same_size a b h = ground arith
