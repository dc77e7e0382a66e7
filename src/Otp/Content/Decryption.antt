-- ===== src/Otp/Content/Decryption.antt =====
-- otp/src/lib.rs: what a whole `decrypt_file_with_state` checks and writes.
use rust_encryption.Common.{
  ◌+◌, ◌≡◌, refl, ap, ◌∙◌, ◌++◌, arith, Bytes, take, not_ne→eq, not_false→true, some, none, ok,
  bytes_eq→eq, false,
}
use rust_encryption.Common.Xor.{xor_zip}
use rust_encryption.Otp.Size.{envelope_auth_domain}
use rust_encryption.Otp.Role.{receiver}
use rust_encryption.Otp.PadHeader.{PadHeader, parse_pad_header}
use rust_encryption.Otp.EnvelopeHeader.{EnvelopeHeader, parse_envelope_header}
use rust_encryption.Otp.Decrypt.{decrypt_file_with_state}
use rust_encryption.Otp.World.{FilePath, Node, World, Env}
use rust_encryption.Otp.World.Rules.{Reads-tick, Reads-metadata}
use rust_encryption.Otp.World.Passed.{by_reading, by_checking, by_value}
use rust_encryption.Otp.Reading.{
  Reads-open_regular, Reads-open_pad, Reads-ensure_distinct, Reads-read_pad_header,
  Reads-validate_pad, Reads-read_authentication_key, Reads-read_envelope_header,
  Reads-authenticate_envelope,
}
use rust_encryption.Otp.Content.{part}
use rust_encryption.Otp.Content.Publish.{published, write_plaintext-published}
use rust_encryption.Otp.Content.Marking.{is_regular_at, other, by_spending}
use rust_encryption.Otp.Content.Opening.{
  open_regular-opens, open_pad-opens, ensure_distinct-differ, read_pad_header-reads,
  read_envelope_header-reads, validate_pad-node, read_authentication_key-reads, by_new_transaction,
  part-marked, require_fresh_role-passed,
}

-- An envelope and a pad file that belong together, with the MAC under the key of the pad.
pub record IsGenuine (env : Env) (envelope pad : Bytes) : Type 0 where
  pub envelope_header : EnvelopeHeader
  pub pad_header : PadHeader
  pub parses_envelope : parse_envelope_header (take 64 envelope) ≡ ok envelope_header
  pub parses_pad : parse_pad_header (take 80 pad) ≡ ok pad_header
  pub ids : envelope_header.id ≡ pad_header.id
  pub role_is : pad_header.role ≡ receiver
  pub unused : pad_header.consumed ≡ false
  pub sizes : envelope_header.plaintext_len ≡ pad_header.capacity
  pub tag :
      part (64 + envelope_header.plaintext_len) 32 envelope
      ≡ env.hmac (part 80 32 pad) (
          envelope_auth_domain
          ++ take 64 envelope
          ++ part 64 envelope_header.plaintext_len envelope)

module _ (env : Env) where
  -- Where a decryption succeeds, envelope and pad have headers that parse, of one identifier and
  -- one size, the pad was an unused pad of a receiver, the tag of the envelope is the MAC of its
  -- header and ciphertext under the key of the pad, nothing was at the output path before the call,
  -- and a private file with the xor of the ciphertext with the pad material is there after it. The
  -- envelope and the pad of this statement are the two files as they stood before the call.
  pub decrypt_file_with_state-IsGenuine :
      (input_path pad_path output_path dir : FilePath) (w w' : World) (envelope pad : Node)
      → w.files (env.resolve input_path) ≡ some envelope
      → w.files (env.resolve pad_path) ≡ some pad
      → decrypt_file_with_state env input_path pad_path output_path dir w ≡ (ok tt, w')
      → (genuine : IsGenuine env envelope.bytes pad.bytes) × (w'.files output_path
          ≡ some (
              published (
                xor_zip
                  (part 64 genuine.envelope_header.plaintext_len envelope.bytes)
                  (part 112 genuine.envelope_header.plaintext_len pad.bytes))))
        × (w.files output_path ≡ none)
  unfolding decrypt_file_with_state
  decrypt_file_with_state-IsGenuine input_path pad_path output_path dir w w' envelope pad ht hp h =
      by_reading (Reads-ensure_distinct env _ _ _) refl h λ _ w1 distinct same h.
        by_reading (Reads-open_regular env _ _) same h λ input w2 opened same' h.
          let i = open_regular-opens env input_path _ w1 w.files same opened in
          let input_there = ap w.files i.1 ∙ ht in
          by_reading (Reads-metadata env _ _) same' h λ node w3 _ same3 h.
            by_reading (Reads-read_envelope_header env _) same3 h λ front w4 read same h.
              let header =
                read_envelope_header-reads env input w3 w.files envelope front same3 input_there
                  read in
              by_value _ h λ expected _ h. by_checking _ _ h λ _ h.
                by_reading (Reads-open_pad env _) same h λ file w5 opened same' h.
                  let p = open_pad-opens env pad_path w4 w.files same opened in
                  by_reading (Reads-tick env _) same' h λ _ w6 _ locked h.
                    by_reading (Reads-read_pad_header env _) locked h λ got w7 read same h.
                      let pad_header =
                        read_pad_header-reads env file w6 w.files pad got locked
                          (ap w.files p.1 ∙ hp) read in
                      by_reading (Reads-validate_pad env _ _ _) same h
                        λ checked w8 validated same8 h. by_value _ h λ _ role h.
                          by_checking _ _ h λ right h. by_checking _ _ h λ fits h.
                            by_reading (Reads-read_authentication_key env _) same8 h
                              λ key w9 keyed same h.
                                let key_node =
                                  validate_pad-node env got.2 _ _ w7 checked validated
                                  ∙ (pad_header.2 ∙ p.1) in
                                let key_read =
                                  read_authentication_key-reads env checked.1 w8 w.files pad key
                                    same8 (ap w.files key_node ∙ hp) keyed in
                                let key_node = key_read.1 ∙ key_node in
                                by_reading (Reads-authenticate_envelope env _ _ _ _) same h
                                  λ _ w10 _ same h.
                                    by_new_transaction env _ output_path w10 same h
                                      λ w11 vacancy same11 h.
                                        let input_node = header.2 ∙ i.1 in
                                        by_spending env _ _ _ _ _ front.2 w11 w.files envelope pad
                                          same11
                                          (
                                            ap w.files input_node ∙ ht,
                                            is_regular_at envelope i.0 ht i.2 i.3,
                                          )
                                          (
                                            ap w.files key_node ∙ hp,
                                            is_regular_at pad p.0 hp p.2 p.3,
                                          )
                                          (other (env.resolve input_path) (env.resolve pad_path)
                                            front.2.node key.1.node input_node key_node
                                            (ensure_distinct-differ env input_path pad_path _ w
                                              distinct))
                                          h
                                          λ file w12 input_there pad_there h.
                                            let result =
                                              write_plaintext-published env front.2 file _ front.0
                                                key.0 got.0 checked.0 front.1.plaintext_len w12 w'
                                                w12.files envelope _ refl input_there pad_there h in
                                            (
                                              record {
                                                envelope_header = front.1;
                                                pad_header = got.1;
                                                parses_envelope = header.1;
                                                parses_pad = pad_header.1;
                                                ids =
                                                    bytes_eq→eq front.1.id got.1.id
                                                      (not_false→true _ right);
                                                role_is =
                                                    (require_fresh_role-passed got.1 receiver
                                                      role).0;
                                                unused =
                                                    (require_fresh_role-passed got.1 receiver
                                                      role).1;
                                                sizes =
                                                    not_ne→eq front.1.plaintext_len got.1.capacity
                                                      fits;
                                                tag =
                                                    result.1
                                                    ∙ ap
                                                        (λ k. env.hmac k (
                                                          envelope_auth_domain
                                                          ++ front.0
                                                          ++ part 64 front.1.plaintext_len
                                                            envelope.bytes))
                                                        key_read.0
                                                    ∙ ap
                                                        (λ b. env.hmac (part 80 32 pad.bytes) (
                                                          envelope_auth_domain
                                                          ++ b
                                                          ++ part 64 front.1.plaintext_len
                                                            envelope.bytes))
                                                        header.0;
                                              },
                                              result.0
                                                  ∙ ap
                                                      (λ k. some (
                                                        published (
                                                          xor_zip
                                                            (part 64 front.1.plaintext_len
                                                            envelope.bytes)
                                                            k)))
                                                      (part-marked 112 front.1.plaintext_len
                                                        pad.bytes (omega arith) pad_header.3),
                                              vacancy,
                                            )
