-- ===== src/Otp/Content/RoundTrip.antt =====
-- otp/src/lib.rs: a file that was encrypted and then decrypted is what it was.
use rust_encryption.Common.{
  ℕ, ◌≤◌, ◌≡◌, refl, sym, ap, ◌∙◌, ◌++◌, append_assoc, arith, Bytes, IsBytes, All-take, All-drop,
  length, take, drop, take-append, drop-append, length-take, some, ok, ok-injective,
}
use rust_encryption.Common.Xor.{xor_zip, length-xor_zip, xor_zip-xor_zip}
use rust_encryption.Otp.PadHeader.{PadHeader, parse_pad_header}
use rust_encryption.Otp.PadHeader.Codec.{encode-parse_pad_header}
use rust_encryption.Otp.EnvelopeHeader.{
  EnvelopeHeader, encode_envelope_header, parse_envelope_header,
}
use rust_encryption.Otp.EnvelopeHeader.Codec.{
  IsHeader, length-encode_envelope_header, parse-encode_envelope_header,
}
use rust_encryption.Otp.Encrypt.{encrypt_file_with_state}
use rust_encryption.Otp.Decrypt.{decrypt_file_with_state}
use rust_encryption.Otp.World.{FilePath, Node, World, Env}
use rust_encryption.Otp.Content.{part}
use rust_encryption.Otp.Content.Publish.{published}
use rust_encryption.Otp.Content.Encryption.{envelope_of, encrypt_file_with_state-envelope_of}
use rust_encryption.Otp.Content.Decryption.{decrypt_file_with_state-IsGenuine}

-- The header of an envelope that `encrypt_file_with_state` writes.
IsHeader-fits :
    (pad : Bytes) (header : PadHeader) (n : ℕ)
    → IsBytes pad
    → 80 ≤ length pad
    → parse_pad_header (take 80 pad) ≡ ok header
    → header.capacity ≡ n
    → IsHeader (record { id = header.id; plaintext_len = n })
IsHeader-fits pad header n bytes size parses fits =
    let v =
      (encode-parse_pad_header (take 80 pad) header (All-take _ 80 pad bytes)
        (omega (arith, size, length-take 80 pad)) parses).0 in
    record {
      id_size = v.id_size;
      id_set = v.id_set;
      len_fits = omega (arith, fits, v.capacity_fits);
    }

-- The two parts of an envelope.
parts :
    (front body tag : Bytes)
    → length front ≡ 64
    → (take 64 (front ++ body ++ tag) ≡ front)
      × (part 64 (length body) (front ++ body ++ tag) ≡ body)
parts front body tag h =
    let whole = append_assoc front body tag in
    (
      ap (take 64) whole ∙ take-append 64 front (body ++ tag) h,
      ap (part 64 (length body)) whole
          ∙ (ap (take (length body)) (drop-append 64 front (body ++ tag) h)
              ∙ take-append (length body) body tag refl),
    )

module _ (env : Env) where
  -- Where a file of bytes is encrypted with a pad file of at least 80 bytes, the output is
  -- decrypted, at whatever path and among whatever other files, with a pad of the same material, and
  -- both calls succeed, then the output of the decryption has the bytes of the file.
  pub decrypt_file_with_state-encrypt_file_with_state :
      (input_path pad_path output_path dir : FilePath) (w w1 : World) (text pad : Node)
      (input_path' pad_path' output_path' dir' : FilePath) (v v1 : World) (pad' : Node)
      → IsBytes text.bytes
      → IsBytes pad.bytes
      → 80 ≤ length pad.bytes
      → part 112 (length text.bytes) pad'.bytes ≡ part 112 (length text.bytes) pad.bytes
      → w.files (env.resolve input_path) ≡ some text
      → w.files (env.resolve pad_path) ≡ some pad
      → v.files (env.resolve input_path') ≡ w1.files output_path
      → v.files (env.resolve pad_path') ≡ some pad'
      → encrypt_file_with_state env input_path pad_path output_path dir w ≡ (ok tt, w1)
      → decrypt_file_with_state env input_path' pad_path' output_path' dir' v ≡ (ok tt, v1)
      → v1.files output_path' ≡ some (published text.bytes)
  decrypt_file_with_state-encrypt_file_with_state input_path pad_path output_path dir w w1 text pad
        input_path' pad_path' output_path' dir' v v1 pad' text_bytes pad_bytes size same_pad ht hp
        sent hp' e d =
      let encrypted =
        encrypt_file_with_state-envelope_of env input_path pad_path output_path dir w w1 text pad ht
          hp e in
      let n = length text.bytes in
      let k = part 112 n pad.bytes in
      let front : EnvelopeHeader = record { id = encrypted.0.id; plaintext_len = n } in
      let fits = IsHeader-fits pad.bytes encrypted.0 n pad_bytes size encrypted.1 encrypted.2 in
      let envelope = envelope_of env encrypted.0 pad.bytes text.bytes in
      let decrypted =
        decrypt_file_with_state-IsGenuine env input_path' pad_path' output_path' dir' v v1
          (published envelope) pad' (sent ∙ encrypted.3) hp' d in
      let split =
        parts (encode_envelope_header front) (xor_zip text.bytes k) _
          (length-encode_envelope_header front fits) in
      let len : decrypted.0.envelope_header.plaintext_len ≡ n =
        ap (λ (h : EnvelopeHeader). h.plaintext_len)
          (ok-injective (
            sym decrypted.0.parses_envelope
            ∙ (ap parse_envelope_header split.0 ∙ parse-encode_envelope_header front fits))) in
      let body : part 64 n envelope ≡ xor_zip text.bytes k =
        ap (λ m. part 64 m envelope) (sym (length-xor_zip text.bytes k)) ∙ split.1 in
      decrypted.1
      ∙ ap (λ bytes. some (published bytes))
          (ap (λ m. xor_zip (part 64 m envelope) (part 112 m pad'.bytes)) len
            ∙ (ap (λ c. xor_zip c (part 112 n pad'.bytes)) body
                ∙ (ap (xor_zip (xor_zip text.bytes k)) same_pad
                    ∙ xor_zip-xor_zip text.bytes k text_bytes
                        (All-take _ n (drop 112 pad.bytes) (All-drop _ 112 pad.bytes pad_bytes)))))
