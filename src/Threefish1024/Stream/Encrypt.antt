-- ===== src/Threefish1024/Stream/Encrypt.antt =====
-- What `encrypt_file` has written when it comes to publish it.
use mathlib.Core.Path.{subst}
use rust_encryption.Common.{
  ℕ, zero, suc, ◌+◌, ◌^◌, ◌≤◌, ◌<◌, ◌≡◌, refl, sym, ap, ◌∙◌, not, some, ok, [], ◌∷◌, ◌++◌, arith,
  Bytes, length, append_assoc, append-nil, length-append, fail_if-passed, >>=-eq-ok,
  run_then-passed, run-injective, ◌==◌, fail_if, some-run-injective, run_some-passed, ltb,
  not_ne→eq, ok-injective, ok_or-eq-ok, ok_or, Run,
}
use rust_encryption.Common.Words.{checked_add}
use rust_encryption.Threefish1024.Error.{Error, io, random, input_changed, crypto_length}
use rust_encryption.Threefish1024.Header.{Header, encode}
use rust_encryption.Threefish1024.Ctr.{Cipher, ThreefishCtr, new, apply_keystream}
use rust_encryption.Threefish1024.Ctr.Stream.{IsCipher, xor_stream, xor_stream-append}
use rust_encryption.Threefish1024.Ctr.State.{IsAt, new-IsAt}
use rust_encryption.Threefish1024.Ctr.Apply.{apply_keystream-eq-ok}
use rust_encryption.Threefish1024.Deps.{Deps, DepsLaws}
use rust_encryption.Threefish1024.Stream.{
  io_buffer_len, authentication_domain, DerivedKeys, read, write_all, start_mac, encrypt_bytes,
  encrypt_loop, encrypt_operation, encrypt_stream, derive_keys,
}
use rust_encryption.Threefish1024.Stream.Verify.{start_mac-eq-ok}
use rust_encryption.Threefish1024.Stream.Decrypt.{joined, write_all-eq-ok, new-IsCipher}

pub within :
    (n k size total : ℕ)
    → checked_add n size ≡ some total
    → fail_if (ltb k total) input_changed ≡ ok tt
    → (total ≡ n + size) × (total ≤ k)
within n k size total added fits = (ground arith, ground arith)

module _ (d : Deps) (l : DepsLaws d) where
  -- The rest of the input was encrypted from position `processed` on, fed to the MAC and written.
  abbrev Encrypted : d.Source → d.Mac → ThreefishCtr → Bytes → ℕ → d.Mac × Bytes × ℕ → Type 0
  Encrypted s mac ctr out processed r =
      (r.0 ≡ d.mac_update mac (xor_stream ctr.cipher processed (l.content s)))
      × (r.1 ≡ out ++ xor_stream ctr.cipher processed (l.content s))
      × (r.2 ≡ processed + length (l.content s))

  Encrypted-round :
      (s s' : d.Source) (mac : d.Mac) (ctr ctr' : ThreefishCtr) (out out' sealed bytes : Bytes)
      (processed total : ℕ) (r : d.Mac × Bytes × ℕ)
      → l.content s ≡ bytes ++ l.content s'
      → out' ≡ out ++ sealed
      → sealed ≡ xor_stream ctr.cipher processed bytes
      → ctr'.cipher ≡ ctr.cipher
      → total ≡ processed + length bytes
      → Encrypted s' (d.mac_update mac sealed) ctr' out' total r
      → Encrypted s mac ctr out processed r
  Encrypted-round s s' mac ctr ctr' out out' sealed bytes processed total r here wrote xored same
        sum (fed, written, count) =
      let rest = l.content s' in
      let f = ctr.cipher in
      let cut : xor_stream f processed (l.content s)
          ≡ xor_stream f processed bytes ++ xor_stream f (processed + length bytes) rest =
        ap (xor_stream f processed) here ∙ xor_stream-append f processed bytes rest in
      let later : xor_stream ctr'.cipher total rest ≡ xor_stream f (processed + length bytes) rest =
        ap (λ (g : Cipher). xor_stream g total rest) same
        ∙ ap (λ (t : ℕ). xor_stream f t rest) sum in
      (
        fed
            ∙ l.update_update mac sealed (xor_stream ctr'.cipher total rest)
            ∙ ap (d.mac_update mac) (
                ap (λ (t : Bytes). t ++ xor_stream ctr'.cipher total rest) xored
                ∙ ap (λ (t : Bytes). xor_stream f processed bytes ++ t) later
                ∙ sym cut),
        joined out bytes rest processed f wrote xored same
              (written ∙ ap (λ (t : ℕ). out' ++ xor_stream ctr'.cipher t rest) sum)
            ∙ ap (λ (t : Bytes). out ++ xor_stream f processed t) (sym here),
        count ∙ omega (arith, sum, length-append bytes rest, ap length here),
      )

  abbrev Again : Type 0
  Again = d.Source → d.Mac → ThreefishCtr → Bytes → ℕ → Run Error (d.Mac × Bytes × ℕ)

  -- A round, where the later rounds do what they should.
  encrypt_bytes-content :
      (again : Again)
      → ((s : d.Source) (mac : d.Mac) (ctr : ThreefishCtr) (out : Bytes) (processed : ℕ)
            (r : d.Mac × Bytes × ℕ)
          → IsCipher ctr.cipher
          → IsAt processed ctr
          → again s mac ctr out processed ≡ some (ok r)
          → Encrypted s mac ctr out processed r)
      → (n : ℕ) (s s' : d.Source) (mac : d.Mac) (ctr : ThreefishCtr) (out : Bytes) (processed : ℕ)
        (r : d.Mac × Bytes × ℕ) (bytes : Bytes)
      → IsCipher ctr.cipher
      → IsAt processed ctr
      → n < 2 ^ 64
      → d.read io_buffer_len s ≡ some (s', bytes)
      → encrypt_bytes d again s' mac ctr out processed n bytes ≡ some (ok r)
      → Encrypted s mac ctr out processed r
  encrypt_bytes-content again ih n s s' mac ctr out processed r [] hc at small e h =
      let p = run-injective h in
      let empty = l.read_end io_buffer_len s s' (omega arith) e in
      (
        sym (ap (λ (q : d.Mac × Bytes × ℕ). q.0) p)
            ∙ sym (l.update_nil mac)
            ∙ ap (λ (t : Bytes). d.mac_update mac (xor_stream ctr.cipher processed t)) (sym empty),
        sym (ap (λ (q : d.Mac × Bytes × ℕ). q.1) p)
            ∙ sym (append-nil out)
            ∙ ap (λ (t : Bytes). out ++ xor_stream ctr.cipher processed t) (sym empty),
        sym (ap (λ (q : d.Mac × Bytes × ℕ). q.2) p) ∙ omega (arith, ap length empty),
      )
  encrypt_bytes-content again ih n s s' mac ctr out processed r (b ∷ bs) hc at small e h =
      let (total, e2, h2) =
        run_some-passed (ok_or (checked_add processed (length (b ∷ bs))) crypto_length) _ h in
      let (_, e3, h3) = run_some-passed (fail_if (ltb n total) input_changed) _ h2 in
      let (sealed, e4, h4) = run_then-passed (apply_keystream ctr (b ∷ bs)) _ h3 in
      let (out', e5, h5) = run_some-passed (write_all d out sealed.1) _ h4 in
      let (sum, fits) = within processed n (length (b ∷ bs)) total (ok_or-eq-ok _ _ e2) e3 in
      let (xored, at', same) =
        apply_keystream-eq-ok processed ctr sealed.0 (b ∷ bs) sealed.1 hc at (omega arith) e4 in
      Encrypted-round s s' mac ctr sealed.0 out out' sealed.1 (b ∷ bs) processed total r
        (l.read_content io_buffer_len s s' (b ∷ bs) e).0 (write_all-eq-ok d l out sealed.1 out' e5)
        xored same sum
        (ih s' (d.mac_update mac sealed.1) sealed.0 out' total r (rw same hc)
          (subst (λ (t : ℕ). IsAt t sealed.0) (sym sum) at') h5)

  encrypt_loop-content :
      (n fuel : ℕ) (s : d.Source) (mac : d.Mac) (ctr : ThreefishCtr) (out : Bytes) (processed : ℕ)
      (r : d.Mac × Bytes × ℕ)
      → n < 2 ^ 64
      → IsCipher ctr.cipher
      → IsAt processed ctr
      → encrypt_loop d n fuel s mac ctr out processed ≡ some (ok r)
      → Encrypted s mac ctr out processed r
  unfolding encrypt_loop
  encrypt_loop-content n zero s mac ctr out processed r small hc at h = cc
  encrypt_loop-content n (suc fuel) s mac ctr out processed r small hc at h =
      let (got, e1, h1) = run_some-passed (read d io_buffer_len s) _ h in
      encrypt_bytes-content (encrypt_loop d n fuel)
        (λ s mac ctr out processed r. encrypt_loop-content n fuel s mac ctr out processed r small) n
        s got.0 mac ctr out processed r got.1 hc at small (ok_or-eq-ok _ _ e1) h1

  -- The header, the text xored with the key stream of the tweak, and the MAC over the domain, the
  -- header and that ciphertext.
  abbrev pub IsEncryption : Bytes → Header → DerivedKeys → Bytes → Type 0
  IsEncryption text header keys out =
      (m : d.Mac) × (d.mac_new keys.authentication ≡ some m)
      × (c : Bytes) × (c
          ≡ xor_stream (new d.new_with_tweak_u64 keys.encryption header.tweak).cipher 0 text)
      × (out
          ≡ encode header
            ++ (c
                ++ d.mac_finalize (d.mac_update m (authentication_domain ++ (encode header ++ c)))))

  encrypt_operation-IsEncryption :
      (s : d.Source) (header : Header) (keys : DerivedKeys) (out : Bytes)
      → header.plaintext_len < 2 ^ 64
      → encrypt_operation d s header keys ≡ some (ok out)
      → IsEncryption (l.content s) header keys out × (length (l.content s) ≡ header.plaintext_len)
  unfolding encrypt_operation
  encrypt_operation-IsEncryption s header keys out small h =
      let n = header.plaintext_len in
      let ctr = new d.new_with_tweak_u64 keys.encryption header.tweak in
      let c = xor_stream ctr.cipher 0 (l.content s) in
      let (mac, started, h1) =
        run_some-passed (start_mac d (encode header) keys.authentication) _ h in
      let (head, e2, h2) = run_some-passed (write_all d [] (encode header)) _ h1 in
      let (r, looped, h3) = run_then-passed (encrypt_loop d n (suc n) s mac ctr head 0) _ h2 in
      let (full, h4) = fail_if-passed (not (r.2 == n)) input_changed _ (some-run-injective h3) in
      let (whole, e5, h5) = >>=-eq-ok (write_all d r.1 (d.mac_finalize r.0)) _ h4 in
      let (_, h6) = fail_if-passed (not (d.can_flush whole)) (io "flush") _ h5 in
      let (fed, written, count) =
        encrypt_loop-content n (suc n) s mac ctr head 0 r small
          (new-IsCipher d l keys.encryption header.tweak)
          (new-IsAt d.new_with_tweak_u64 keys.encryption header.tweak) looped in
      let (m, made, primed) = start_mac-eq-ok d l (encode header) keys.authentication mac started in
      let all : r.0 ≡ d.mac_update m (authentication_domain ++ (encode header ++ c)) =
        fed
        ∙ ap (λ (t : d.Mac). d.mac_update t c) primed
        ∙ l.update_update m (authentication_domain ++ encode header) c
        ∙ ap (d.mac_update m) (append_assoc authentication_domain (encode header) c) in
      (
        (
          m,
          made,
          c,
          refl,
          sym (ok-injective h6)
              ∙ write_all-eq-ok d l r.1 (d.mac_finalize r.0) whole e5
              ∙ ap (λ (t : Bytes). t ++ d.mac_finalize r.0)
                  (written
                    ∙ ap (λ (t : Bytes). t ++ c) (write_all-eq-ok d l [] (encode header) head e2))
              ∙ append_assoc (encode header) c (d.mac_finalize r.0)
              ∙ ap (λ (t : d.Mac). encode header ++ (c ++ d.mac_finalize t)) all,
        ),
        omega (arith, not_ne→eq _ _ full, count),
      )

  -- Where the parameters keep their documented laws, and for a stated length of 64 bits: what
  -- `encrypt_file` comes to publish is the encoding of a header with that length, the salt and the
  -- tweak that were drawn, then the whole input xored with the key stream of the tweak, then the MAC;
  -- the input has the stated length; and the keys are derived from the salt.
  pub encrypt_stream-IsEncryption :
      (master : Bytes) (source : d.Source) (plaintext_len : ℕ) (out : Bytes)
      → plaintext_len < 2 ^ 64
      → encrypt_stream d master source plaintext_len ≡ some (ok out)
      → (header : Header) × (keys : DerivedKeys) × (header.plaintext_len ≡ plaintext_len)
        × (d.fill 0 32 ≡ some header.salt)
        × (d.fill 1 16 ≡ some header.tweak)
        × (derive_keys d master header.salt ≡ ok keys)
        × IsEncryption (l.content source) header keys out
        × (length (l.content source) ≡ plaintext_len)
  unfolding encrypt_stream
  encrypt_stream-IsEncryption master source plaintext_len out small h =
      let (salt, e1, h1) = run_some-passed (ok_or (d.fill 0 32) random) _ h in
      let (tweak, e2, h2) = run_some-passed (ok_or (d.fill 1 16) random) _ h1 in
      let (keys, e3, h3) = run_some-passed (derive_keys d master salt) _ h2 in
      let header : Header = record { plaintext_len = plaintext_len; salt = salt; tweak = tweak } in
      let (made, size) = encrypt_operation-IsEncryption source header keys out small h3 in
      (header, keys, refl, ok_or-eq-ok _ _ e1, ok_or-eq-ok _ _ e2, e3, made, size)
