-- ===== src/Cascade/Tests.antt =====
-- Runs of the code on small inputs, and the theorems at such inputs.
use rust_encryption.Common.{
  ℕ, ◌+◌, ◌%◌, ◌≤◌, ◌<◌, ◌≡◌, ◌≢◌, ◌↔◌, refl, some, ◌++◌, [], ◌∷◌, arith, bytes_eq, Bytes, length,
  replicate, take, drop, ok, err,
}
use rust_encryption.Common.Words.{word_mod}
use rust_encryption.Cascade.AppError.{
  AppError, algorithm_mismatch, decryption_failed, invalid_format, unsupported_version,
}
use rust_encryption.Cascade.Algorithm.{
  serpent256, threefish1024, from_id, from_id_iff, id, suite_id, name, key_len, nonce_len, tag_len,
  padded_len, padded_len_iff, expected_ciphertext_len,
}
use rust_encryption.Cascade.Cbc
use rust_encryption.Cascade.Cbc.{DerivedKeys}
use rust_encryption.Cascade.Serpent
use rust_encryption.Cascade.Dispatch
use rust_encryption.Cascade.Dispatch.RoundTrip.{open_sealed_error}
use rust_encryption.Cascade.Container.{
  encrypted_len, encrypt_with_material, build_header, fixed_header, magic, parse, parse_fixed,
  parse_rest, decrypt, ParsedEnvelope,
}
use rust_encryption.Cascade.Container.Layout.{header_of}
use rust_encryption.Cascade.Container.Sizes.{encrypted_len_bounds}
use rust_encryption.Cascade.Container.RoundTrip.{decrypt-encrypt, decrypt-encrypt_other}
use rust_encryption.Cascade.Container.Authentic.{IsCanonical, parse-IsCanonical}
use rust_encryption.Cascade.Container.Tamper.{decrypt-authentic}
use rust_encryption.Cascade.Sample.{sample, sample_laws, sample_memory}

abbrev key : Bytes
key = replicate 32 1

abbrev salt : Bytes
salt = replicate 32 2

abbrev nonce : Bytes
nonce = replicate 16 3

abbrev text : Bytes
text = 104 ∷ 105 ∷ 33 ∷ []

text_size : encrypted_len serpent256 3 ≡ ok 160
unfolding encrypted_len expected_ciphertext_len nonce_len tag_len
text_size = refl

key_size : length key ≡ key_len serpent256
unfolding key_len
key_size = refl

nonce_size : length nonce ≡ nonce_len serpent256
unfolding nonce_len
nonce_size = refl

decrypt-encrypt_example :
    (input : Bytes) × (encrypt_with_material sample serpent256 key text salt nonce ≡ ok input)
    × (length input ≡ 160)
    × (decrypt sample serpent256 key input ≡ ok text)
decrypt-encrypt_example =
    decrypt-encrypt sample sample_laws serpent256 key text salt nonce 160 (sample_memory 160)
      key_size refl nonce_size (omega arith) (omega arith) text_size

-- The envelope of `text` under the sample primitives.
abbrev envelope : Bytes
envelope =
    magic
    ++ (1 ∷ 3 ∷ 33 ∷ 0 ∷ 0 ∷ 80 ∷ 0 ∷ 16 ∷ 0 ∷ 0 ∷ 0 ∷ 0 ∷ 0 ∷ 0 ∷ 0 ∷ 3 ∷ replicate 8 0
        ++ (salt ++ (nonce ++ (text ++ (replicate 13 13 ++ (170 ∷ replicate 63 0))))))

sealed : encrypt_with_material sample serpent256 key text salt nonce ≡ ok envelope
unfolding encrypt_with_material build_header fixed_header encrypted_len Dispatch.seal Cbc.seal
    Cbc.derive_keys Cbc.make_tag Cbc.mac_for padded_len expected_ciphertext_len nonce_len tag_len
    key_len id suite_id
sealed = refl

abbrev parts : ParsedEnvelope
parts = record {
  algorithm = serpent256;
  plaintext_len = 3;
  salt = salt;
  nonce = nonce;
  header = take 80 envelope;
  ciphertext = text ++ replicate 13 13;
  tag = 170 ∷ replicate 63 0;
}

parsed : parse envelope ≡ ok parts
unfolding parse parse_fixed parse_rest from_id bytes_eq suite_id nonce_len tag_len
    expected_ciphertext_len
parsed = refl

opened : decrypt sample serpent256 key envelope ≡ ok text
unfolding decrypt parse parse_fixed parse_rest from_id bytes_eq suite_id nonce_len tag_len
    expected_ciphertext_len key_len id Dispatch.open_sealed Cbc.open_sealed Cbc.derive_keys
    Cbc.verify_tag Cbc.mac_for
opened = refl

wrong_version : parse (magic ++ 2 ∷ drop 9 envelope) ≡ err (unsupported_version 2)
unfolding parse parse_fixed bytes_eq
wrong_version = refl

-- Cut off by one byte, the ciphertext no longer has the size that the header states.
truncated : parse (take 159 envelope) ≡ err invalid_format
unfolding parse parse_fixed parse_rest from_id bytes_eq suite_id nonce_len tag_len
    expected_ciphertext_len
truncated = refl

abbrev other_key : Bytes
other_key = replicate 128 1

decrypt-encrypt_other_example :
    decrypt sample threefish1024 other_key envelope
    ≡ err (algorithm_mismatch (name threefish1024) (name serpent256))
decrypt-encrypt_other_example =
    decrypt-encrypt_other sample serpent256 key text salt nonce refl threefish1024 other_key
      envelope (omega arith) other other_size sealed
  where
    other : threefish1024 ≢ serpent256
    other e = cc

    other_size : length other_key ≡ key_len threefish1024
    other_size = unfold key_len in refl

parse-IsCanonical_example : IsCanonical envelope parts
parse-IsCanonical_example = parse-IsCanonical envelope parts (omega arith) parsed

decrypt-authentic_example :
    (salt' nonce' c : Bytes) × (keys : DerivedKeys) × (Cbc.derive_keys sample Serpent.suite key
        salt'
      ≡ ok keys)
    × (envelope
        ≡ header_of serpent256 3 salt' nonce'
          ++ (c
              ++ sample.hmac_tag keys.authentication (
                  Serpent.suite.mac_domain
                  ++ (nonce' ++ (header_of serpent256 3 salt' nonce' ++ c)))))
    × (sample.serpent.decrypt_padded keys.encryption nonce' c ≡ some text)
decrypt-authentic_example =
    decrypt-authentic sample sample_laws serpent256 Serpent.suite key envelope text refl
      (omega arith) opened

encrypted_len_bounds_example :
    (size : ℕ) × (encrypted_len threefish1024 1000 ≡ ok size) × (1092 ≤ size) × (size ≤ 1384)
encrypted_len_bounds_example = encrypted_len_bounds threefish1024 1000 (omega arith)

padded_len_iff_example :
    (padded_len 16 16 ≡ some 32) ↔ ((16 < 32) × (32 ≤ 16 + 16) × (32 % 16 ≡ 0) × (32 < word_mod))
padded_len_iff_example = padded_len_iff 16 16 32 (omega arith) (omega arith)

from_id_iff_example : (from_id 3 ≡ some serpent256) ↔ (id serpent256 ≡ 3)
from_id_iff_example = from_id_iff 3 serpent256

bad_key : Dispatch.open_sealed sample serpent256 [] salt nonce [] [] [] ≡ err decryption_failed
unfolding Dispatch.open_sealed Cbc.open_sealed
bad_key = refl

open_sealed_error_example : ◌≡◌ {A = AppError} decryption_failed decryption_failed
open_sealed_error_example =
    open_sealed_error sample serpent256 [] salt nonce [] [] [] decryption_failed bad_key
