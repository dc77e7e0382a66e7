-- ===== src/Otp/Content/Encryption.antt =====
-- otp/src/lib.rs: what a whole `encrypt_file_with_state` writes.
use rust_encryption.Common.{
  ◌≡◌, refl, sym, ap, ◌∙◌, ◌++◌, arith, Bytes, length, take, take_all, not_ne→eq, some, none, ok,
}
use rust_encryption.Common.Xor.{xor_zip}
use rust_encryption.Otp.Size.{envelope_auth_domain}
use rust_encryption.Otp.PadHeader.{PadHeader, parse_pad_header}
use rust_encryption.Otp.EnvelopeHeader.{encode_envelope_header}
use rust_encryption.Otp.Encrypt.{encrypt_file_with_state}
use rust_encryption.Otp.World.{FilePath, Node, World, Env}
use rust_encryption.Otp.World.Rules.{Files, Reads-tick, Reads-metadata}
use rust_encryption.Otp.World.Passed.{
  by_reading, by_knowing, by_checking, by_value, metadata-passed,
}
use rust_encryption.Otp.Reading.{
  Reads-open_regular, Reads-open_pad, Reads-ensure_distinct, Reads-read_pad_header,
  Reads-validate_pad, Reads-read_authentication_key,
}
use rust_encryption.Otp.Content.{part}
use rust_encryption.Otp.Content.Publish.{published, node_eq, write_envelope-published}
use rust_encryption.Otp.Content.Marking.{is_regular_at, other, by_spending}
use rust_encryption.Otp.Content.Opening.{
  open_regular-opens, open_pad-opens, ensure_distinct-differ, read_pad_header-reads,
  validate_pad-node, read_authentication_key-reads, by_new_transaction, part-marked,
}

-- A header, a text under a pad, and the MAC of both.
abbrev pub sealed : Env → Bytes → Bytes → Bytes → Bytes → Bytes
sealed env header_bytes key text pad =
    header_bytes
    ++ xor_zip text pad
    ++ env.hmac key (envelope_auth_domain ++ header_bytes ++ xor_zip text pad)

-- The envelope of a plaintext under a pad file with such a header.
abbrev pub envelope_of : Env → PadHeader → Bytes → Bytes → Bytes
envelope_of env header pad text =
    sealed env (encode_envelope_header (record { id = header.id; plaintext_len = length text }))
      (part 80 32 pad) text (part 112 (length text) pad)

sealed-eq :
    (env : Env) (header_bytes : Bytes) {key key' text text' pad pad' : Bytes}
    → key ≡ key'
    → text ≡ text'
    → pad ≡ pad'
    → sealed env header_bytes key text pad ≡ sealed env header_bytes key' text' pad'
sealed-eq env header_bytes {key'} {text} {text'} {pad} ek et ep =
    ap (λ x. sealed env header_bytes x text pad) ek
    ∙ (ap (λ x. sealed env header_bytes key' x pad) et
        ∙ ap (λ x. sealed env header_bytes key' text' x) ep)

module _ (env : Env) where
  -- Where an encryption succeeds, the header of the pad parses, its capacity is the size of the
  -- input, nothing was at the output path before the call, and a private file is there after it: the
  -- header of the envelope with the identifier of the pad and the size, the xor of the whole input
  -- with the pad material, and the MAC of both under the key of the pad. The input and the pad of
  -- this statement are the two files as they stood before the call.
  pub encrypt_file_with_state-envelope_of :
      (input_path pad_path output_path dir : FilePath) (w w' : World) (text pad : Node)
      → w.files (env.resolve input_path) ≡ some text
      → w.files (env.resolve pad_path) ≡ some pad
      → encrypt_file_with_state env input_path pad_path output_path dir w ≡ (ok tt, w')
      → (header : PadHeader) × (parse_pad_header (take 80 pad.bytes) ≡ ok header)
        × (header.capacity ≡ length text.bytes)
        × (w'.files output_path ≡ some (published (envelope_of env header pad.bytes text.bytes)))
        × (w.files output_path ≡ none)
  unfolding encrypt_file_with_state
  encrypt_file_with_state-envelope_of input_path pad_path output_path dir w w' text pad ht hp h =
      by_reading (Reads-ensure_distinct env _ _ _) refl h λ _ w1 distinct same h.
        by_reading (Reads-open_regular env _ _) same h λ input w2 opened same' h.
          let i = open_regular-opens env input_path _ w1 w.files same opened in
          let text_there = ap w.files i.1 ∙ ht in
          by_knowing _ w2 text (Reads-metadata env _ _)
            (λ node w3 measured. node_eq node text (
              sym (metadata-passed env _ input w2 measured)
              ∙ (ap (λ (fs : Files). fs input.node) same' ∙ text_there)))
            same' h
            λ w3 same h. by_reading (Reads-open_pad env _) same h λ file w4 opened same' h.
              let p = open_pad-opens env pad_path w3 w.files same opened in
              by_reading (Reads-tick env _) same' h λ _ w5 _ locked h.
                by_reading (Reads-read_pad_header env _) locked h λ got w6 read same h.
                  let pad_there = ap w.files p.1 ∙ hp in
                  let header =
                    read_pad_header-reads env file w5 w.files pad got locked pad_there read in
                  by_reading (Reads-validate_pad env _ _ _) same h λ checked w7 validated same h.
                    by_value _ h λ _ _ h. by_checking _ _ h λ fits h.
                      by_new_transaction env _ output_path w7 same h λ w8 vacancy same h.
                        by_reading (Reads-read_authentication_key env _) same h
                          λ key w9 keyed same9 h.
                            let key_node =
                              validate_pad-node env got.2 _ _ w6 checked validated ∙ header.2 in
                            let key_there = ap w.files key_node ∙ pad_there in
                            let key_read =
                              read_authentication_key-reads env checked.1 w8 w.files pad key same
                                key_there keyed in
                            let key_node = key_read.1 ∙ (key_node ∙ p.1) in
                            by_spending env _ _ _ _ _ input w9 w.files text pad same9
                              (text_there, is_regular_at text i.0 ht i.2 i.3)
                              (ap w.files key_node ∙ hp, is_regular_at pad p.0 hp p.2 p.3)
                              (other (env.resolve input_path) (env.resolve pad_path) input.node
                                key.1.node i.1 key_node
                                (ensure_distinct-differ env input_path pad_path _ w distinct))
                              h
                              λ file w10 text_there pad_there h.
                                let result =
                                  write_envelope-published env input file _ _ key.0 got.0 checked.0
                                    (length text.bytes) w10 w' w10.files text _ refl text_there
                                    pad_there h in
                                (
                                  got.1,
                                  header.1,
                                  not_ne→eq got.1.capacity (length text.bytes) fits,
                                  result.0
                                      ∙ ap (λ bytes. some (published bytes))
                                          (sealed-eq env _ key_read.0
                                            (take_all (length text.bytes) text.bytes (omega arith))
                                            (part-marked 112 (length text.bytes) pad.bytes
                                              (omega arith) header.3)),
                                  vacancy,
                                )
