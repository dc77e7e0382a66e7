-- ===== src/Otp/Content/Untouched.antt =====
-- otp/src/lib.rs: what is checked before the first file changes.
use rust_encryption.Common.{
  ◌+◌, ◌≡◌, ◌⊎◌, inl, inr, refl, sym, ap, ◌∙◌, ◌++◌, Bytes, length, take, not_ne→eq, not_false→true,
  false, some, ok, err, Result, bytes_eq→eq,
}
use rust_encryption.Otp.Error.{OtpError}
use rust_encryption.Otp.Size.{envelope_auth_domain}
use rust_encryption.Otp.Chunks.{amounts, sum-amounts}
use rust_encryption.Otp.Role.{sender, receiver}
use rust_encryption.Otp.PadHeader.{PadHeader, parse_pad_header}
use rust_encryption.Otp.EnvelopeHeader.{EnvelopeHeader}
use rust_encryption.Otp.Encrypt.{encrypt_file_with_state}
use rust_encryption.Otp.Decrypt.{authenticate_envelope, decrypt_file_with_state}
use rust_encryption.Otp.World.{FilePath, Node, World, Env, M, Handle, after, ◌>>=◌}
use rust_encryption.Otp.World.Rules.{Files, Reads, Reads-lift, Reads-tick, Reads-metadata}
use rust_encryption.Otp.World.Passed.{by_seek, by_knowing, lift-passed, metadata-passed}
use rust_encryption.Otp.Reading.{
  Reads-open_regular, Reads-open_pad, Reads-ensure_distinct, Reads-read_pad_header,
  Reads-validate_pad, Reads-read_authentication_key, Reads-read_envelope_header,
  Reads-authenticate_envelope, Reads-mac_loop,
}
use rust_encryption.Otp.Content.{part, mac_loop-part}
use rust_encryption.Otp.Content.Publish.{fail_if-false, check_tag-passed, node_eq}
use rust_encryption.Otp.Content.Opening.{
  open_regular-opens, open_pad-opens, read_pad_header-reads, read_envelope_header-reads,
  validate_pad-node, read_authentication_key-reads, require_fresh_role-passed,
}
use rust_encryption.Otp.Content.Decryption.{IsGenuine}

-- A program that only reads, and the rest after it, where it succeeds.
after-untouched :
    {A B G : Type 0} (r : Result OtpError A × World) (f : A → M B) (base : Files)
    → r.1.files ≡ base
    → ((a : A) (w1 : World) → r ≡ (ok a, w1) → ((f a w1).1.files ≡ base) ⊎ G)
    → ((after r f).1.files ≡ base) ⊎ G
after-untouched (ok a, w) f base same rest = rest a w refl
after-untouched (err failure, w) f base same rest = inl same

by_trying :
    {A B G : Type 0} {m : M A} (f : A → M B) (w : World) {base : Files}
    → Reads m
    → w.files ≡ base
    → ((a : A) (w1 : World) → m w ≡ (ok a, w1) → w1.files ≡ base → ((f a w1).1.files ≡ base) ⊎ G)
    → (((m >>= f) w).1.files ≡ base) ⊎ G
unfolding ◌>>=◌
by_trying {m} f w {base} reads same rest =
    after-untouched (m w) f base (reads.files_eq w ∙ same) (λ a w1 ran.
      rest a w1 ran
        (ap (λ (r : Result OtpError _ × World). r.1.files) (sym ran) ∙ (reads.files_eq w ∙ same)))

-- A pad that can encrypt a text.
pub record IsUsable (pad text : Bytes) : Type 0 where
  pub header : PadHeader
  pub parses : parse_pad_header (take 80 pad) ≡ ok header
  pub role_is : header.role ≡ sender
  pub unused : header.consumed ≡ false
  pub size_is : header.capacity ≡ length text

module _ (env : Env) where
  authenticate_envelope-passed :
      (file : Handle) (header_bytes : Bytes) (header : EnvelopeHeader) (key : Bytes) (w : World)
      (base : Files) (node : Node) {u : Unit {0}} {w1 : World}
      → w.files ≡ base
      → base file.node ≡ some node
      → authenticate_envelope env file header_bytes header key w ≡ (ok u, w1)
      → part (64 + header.plaintext_len) 32 node.bytes
        ≡ env.hmac key
            (envelope_auth_domain ++ header_bytes ++ part 64 header.plaintext_len node.bytes)
  unfolding authenticate_envelope
  authenticate_envelope-passed file header_bytes header key w base node same there h =
      let n = header.plaintext_len in
      by_seek env _ _ _ _ _ same h λ w2 same h.
        by_knowing _ w2
          (
            envelope_auth_domain ++ header_bytes ++ part 64 n node.bytes,
            record file { pos = 64 + n },
          )
          (Reads-mac_loop env _ _ _)
          (λ got w3 ran.
            mac_loop-part env (amounts n) _ (record file { pos = 64 }) w2 base node got w3 same
              there ran
            ∙ ap
                (λ k. (
                  envelope_auth_domain ++ header_bytes ++ part 64 k node.bytes,
                  record file { pos = 64 + k },
                ))
                (sum-amounts n))
          same h
          λ w3 same h.
            check_tag-passed env key _ (record file { pos = 64 + n }) w3 base node same there h

  -- A decryption, however it ends, leaves every file as it is, unless envelope and pad have headers
  -- that parse, of one identifier and one size, the pad is an unused pad of a receiver, and the
  -- tag of the envelope is the MAC under the key of the pad.
  pub decrypt_file_with_state_untouched :
      (input_path pad_path output_path dir : FilePath) (w : World) (envelope pad : Node)
      → w.files (env.resolve input_path) ≡ some envelope
      → w.files (env.resolve pad_path) ≡ some pad
      → ((decrypt_file_with_state env input_path pad_path output_path dir w).1.files ≡ w.files)
        ⊎ IsGenuine env envelope.bytes pad.bytes
  unfolding decrypt_file_with_state
  decrypt_file_with_state_untouched input_path pad_path output_path dir w envelope pad ht hp =
      by_trying _ w (Reads-ensure_distinct env _ _ _) refl λ _ w1 _ same.
        by_trying _ w1 (Reads-open_regular env _ _) same λ input w2 opened same'.
          let i = open_regular-opens env input_path _ w1 w.files same opened in
          let input_there = ap w.files i.1 ∙ ht in
          by_trying _ w2 (Reads-metadata env _ _) same' λ node w3 _ same3.
            by_trying _ w3 (Reads-read_envelope_header env _) same3 λ front w4 read same.
              let header =
                read_envelope_header-reads env input w3 w.files envelope front same3 input_there
                  read in
              by_trying _ w4 (Reads-lift _) same λ expected w5 _ same.
                by_trying _ w5 (Reads-lift _) same λ _ w6 _ same.
                  by_trying _ w6 (Reads-open_pad env _) same λ file w7 opened same'.
                    let p = open_pad-opens env pad_path w6 w.files same opened in
                    by_trying _ w7 (Reads-tick env _) same' λ _ w8 _ same8.
                      by_trying _ w8 (Reads-read_pad_header env _) same8 λ got w9 read same.
                        let pad_header =
                          read_pad_header-reads env file w8 w.files pad got same8
                            (ap w.files p.1 ∙ hp) read in
                        by_trying _ w9 (Reads-validate_pad env _ _ _) same
                          λ checked w10 validated same.
                            by_trying _ w10 (Reads-lift _) same λ _ w11 role same.
                              by_trying _ w11 (Reads-lift _) same λ _ w12 right same.
                                by_trying _ w12 (Reads-lift _) same λ _ w13 fits same13.
                                  by_trying _ w13 (Reads-read_authentication_key env _) same13
                                    λ key w14 keyed same14.
                                      let key_node =
                                        validate_pad-node env got.2 _ _ w9 checked validated
                                        ∙ (pad_header.2 ∙ p.1) in
                                      let key_read =
                                        read_authentication_key-reads env checked.1 w13 w.files pad
                                          key same13 (ap w.files key_node ∙ hp) keyed in
                                      by_trying _ w14 (Reads-authenticate_envelope env _ _ _ _)
                                        same14
                                        λ _ w15 passed _.
                                          let input_node = header.2 ∙ i.1 in
                                          let tag =
                                            authenticate_envelope-passed front.2 front.0 front.1
                                              key.0 w14 w.files envelope same14
                                              (ap w.files input_node ∙ ht) passed in
                                          let rest = part 64 front.1.plaintext_len envelope.bytes in
                                          inr (record {
                                            envelope_header = front.1;
                                            pad_header = got.1;
                                            parses_envelope = header.1;
                                            parses_pad = pad_header.1;
                                            ids = bytes_eq→eq front.1.id got.1.id (
                                                not_false→true _
                                                  (fail_if-false _ _ (lift-passed _ w11 right).0));
                                            role_is =
                                                (require_fresh_role-passed got.1 receiver
                                                  (lift-passed _ w10 role).0).0;
                                            unused =
                                                (require_fresh_role-passed got.1 receiver
                                                  (lift-passed _ w10 role).0).1;
                                            sizes =
                                                not_ne→eq front.1.plaintext_len got.1.capacity
                                                  (fail_if-false _ _ (lift-passed _ w12 fits).0);
                                            tag =
                                                tag
                                                ∙ ap
                                                    (λ k.
                                                      env.hmac k
                                                        (envelope_auth_domain ++ front.0 ++ rest))
                                                    key_read.0
                                                ∙ ap
                                                    (λ b.
                                                      env.hmac (part 80 32 pad.bytes)
                                                        (envelope_auth_domain ++ b ++ rest))
                                                    header.0;
                                          })

  -- An encryption, however it ends, leaves every file as it is, unless the header of the pad parses
  -- and says that it is an unused pad of a sender, of the size of the input.
  pub encrypt_file_with_state_untouched :
      (input_path pad_path output_path dir : FilePath) (w : World) (text pad : Node)
      → w.files (env.resolve input_path) ≡ some text
      → w.files (env.resolve pad_path) ≡ some pad
      → ((encrypt_file_with_state env input_path pad_path output_path dir w).1.files ≡ w.files)
        ⊎ IsUsable pad.bytes text.bytes
  unfolding encrypt_file_with_state
  encrypt_file_with_state_untouched input_path pad_path output_path dir w text pad ht hp =
      by_trying _ w (Reads-ensure_distinct env _ _ _) refl λ _ w1 _ same.
        by_trying _ w1 (Reads-open_regular env _ _) same λ input w2 opened same2.
          let i = open_regular-opens env input_path _ w1 w.files same opened in
          by_trying _ w2 (Reads-metadata env _ _) same2 λ node w3 measured same.
            let node_is = node_eq node text (
              sym (metadata-passed env _ input w2 measured)
              ∙ (ap (λ (fs : Files). fs input.node) same2 ∙ (ap w.files i.1 ∙ ht))) in
            by_trying _ w3 (Reads-open_pad env _) same λ file w4 opened same'.
              let p = open_pad-opens env pad_path w3 w.files same opened in
              by_trying _ w4 (Reads-tick env _) same' λ _ w5 _ same5.
                by_trying _ w5 (Reads-read_pad_header env _) same5 λ got w6 read same.
                  let header =
                    read_pad_header-reads env file w5 w.files pad got same5 (ap w.files p.1 ∙ hp)
                      read in
                  by_trying _ w6 (Reads-validate_pad env _ _ _) same λ checked w7 _ same.
                    by_trying _ w7 (Reads-lift _) same λ _ w8 role same.
                      by_trying _ w8 (Reads-lift _) same λ _ w9 fits _. inr (record {
                        header = got.1;
                        parses = header.1;
                        role_is =
                            (require_fresh_role-passed got.1 sender (lift-passed _ w7 role).0).0;
                        unused =
                            (require_fresh_role-passed got.1 sender (lift-passed _ w7 role).0).1;
                        size_is =
                            not_ne→eq got.1.capacity (length node.bytes)
                              (fail_if-false _ _ (lift-passed _ w8 fits).0)
                            ∙ ap (λ (n : Node). length n.bytes) node_is;
                      })
