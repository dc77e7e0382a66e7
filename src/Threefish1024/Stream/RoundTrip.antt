-- ===== src/Threefish1024/Stream/RoundTrip.antt =====
-- `decrypt_file` on what `encrypt_file` wrote.
use rust_encryption.Common.{
  ℕ, ◌^◌, ◌<◌, ◌≡◌, refl, sym, ap, ◌∙◌, some, ok, ◌++◌, Bytes, IsBytes, length, take, drop,
  take-append, drop-append, ok-injective,
}
use rust_encryption.Threefish1024.Header.{Header, encode, decode}
use rust_encryption.Threefish1024.Header.Codec.{IsHeader, length-encode, decode-encode}
use rust_encryption.Threefish1024.Ctr.{new}
use rust_encryption.Threefish1024.Ctr.Stream.{xor_stream, xor_stream-xor_stream, length-xor_stream}
use rust_encryption.Threefish1024.Deps.{Deps, DepsLaws}
use rust_encryption.Threefish1024.Stream.{DerivedKeys, derive_keys, encrypt_stream, decrypt_stream}
use rust_encryption.Threefish1024.Stream.Decrypt.{IsDecryption, decrypt_stream-IsDecryption}
use rust_encryption.Threefish1024.Stream.StableFile.{
  StableFile, read_exact_format-file, verify_ciphertext-file,
}
use rust_encryption.Threefish1024.Stream.Encrypt.{encrypt_stream-IsEncryption}

-- Two byte strings with fronts of one size have one front and one rest.
same_front : (xs ys us vs : Bytes) → length xs ≡ length us → xs ++ ys ≡ us ++ vs → xs ≡ us
same_front xs ys us vs size h =
    sym (take-append (length us) xs ys size)
    ∙ ap (take (length us)) h
    ∙ take-append (length us) us vs refl

module _ (d : Deps) (l : DepsLaws d) where
  -- The output for one header and one pair of keys.
  same_text :
      (text content rest c out header_bytes : Bytes) (header : Header) (keys : DerivedKeys)
      → IsBytes text
      → length text ≡ header.plaintext_len
      → c ≡ xor_stream (new d.new_with_tweak_u64 keys.encryption header.tweak).cipher 0 text
      → content ≡ c ++ rest
      → IsDecryption d l content header header_bytes keys out
      → out ≡ text
  same_text text content rest c out header_bytes header keys hb size made whole
        (c', (m, _, sealed, _), size', opened) =
      let f = (new d.new_with_tweak_u64 keys.encryption header.tweak).cipher in
      let sizes : length c' ≡ length c =
        size' ∙ sym (ap length made ∙ length-xor_stream f 0 text ∙ size) in
      let one : c' ≡ c = same_front c' _ c rest sizes (sym sealed ∙ whole) in
      opened ∙ ap (xor_stream f 0) (one ∙ made) ∙ xor_stream-xor_stream f 0 text hb

  -- Where the parameters keep their documented laws, nobody changes the input of the decryption, and
  -- the length given for the encryption has 64 bits: if `encrypt_file` comes to publish `sealed` for
  -- an input of bytes, and `decrypt_file` under the same master key comes to publish a text for a
  -- file that holds `sealed` and is read from its start, then the text is the first input.
  pub decrypt_stream-encrypt_stream :
      (f : StableFile d l) (master : Bytes) (source input : d.Source)
      (plaintext_len encrypted_len : ℕ) (sealed text : Bytes)
      → plaintext_len < 2 ^ 64
      → IsBytes (l.content source)
      → encrypt_stream d master source plaintext_len ≡ some (ok sealed)
      → l.content input ≡ sealed
      → f.file input ≡ sealed
      → decrypt_stream d master input encrypted_len ≡ some (ok text)
      → text ≡ l.content source
  decrypt_stream-encrypt_stream f master source input plaintext_len encrypted_len sealed text small
        hb encrypted held same_file decrypted =
      let (header, keys, len, salt, tweak, derived, (m, _, c, made, layout), size) =
        encrypt_stream-IsEncryption d l master source plaintext_len sealed small encrypted in
      let (
        header', header_bytes, keys', first, after, second, head_read, whole, head_size, decoded, _,
        derived', passed, _, sought, opened,
      ) =
        decrypt_stream-IsDecryption d l master input encrypted_len text decrypted in
      let is_header : IsHeader header = record {
        salt_size = l.fill_size 0 32 header.salt salt;
        tweak_size = l.fill_size 1 16 header.tweak tweak;
        len_fits = rw len small;
      } in
      let head : header_bytes ≡ encode header =
        same_front header_bytes _ (encode header) _
          (head_size ∙ sym (length-encode header is_header)) (sym whole ∙ held ∙ layout) in
      let same_header : header' ≡ header =
        ok-injective (sym decoded ∙ ap decode head ∙ decode-encode header is_header) in
      let same_keys : keys' ≡ keys =
        ok-injective
          (sym derived' ∙ ap (λ (h : Header). derive_keys d master h.salt) same_header ∙ derived) in
      same_text (l.content source) (l.content second) _ c text header_bytes header' keys' hb
        (size ∙ sym len ∙ sym (ap (λ (h : Header). h.plaintext_len) same_header))
        (made
          ∙ ap
              (λ (t : Bytes).
                xor_stream (new d.new_with_tweak_u64 keys.encryption t).cipher 0 (l.content source))
              (sym (ap (λ (h : Header). h.tweak) same_header))
          ∙ ap
              (λ (t : Bytes).
                xor_stream (new d.new_with_tweak_u64 t header'.tweak).cipher 0 (l.content source))
              (sym (ap (λ (k : DerivedKeys). k.encryption) same_keys)))
        (f.seek_content 80 after second sought
          ∙ ap (drop 80) (
              verify_ciphertext-file d l f first after header'.plaintext_len header_bytes
                keys'.authentication passed
              ∙ read_exact_format-file d l f 80 input first header_bytes head_read
              ∙ same_file
              ∙ layout)
          ∙ drop-append 80 (encode header) _ (length-encode header is_header))
        opened
