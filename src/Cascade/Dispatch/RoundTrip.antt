-- ===== src/Cascade/Dispatch/RoundTrip.antt =====
-- Each suite opens what it sealed, and the sizes are those that the envelope computes with.
use rust_encryption.Common.{
  ℕ, ◌+◌, ◌-◌, ◌≤◌, ◌<◌, ◌≡◌, refl, sym, some, arith, Bytes, IsBytes, length, ok, err,
}
use mathlib.Core.Path.{subst}
use rust_encryption.Common.Words.{word_mod}
use rust_encryption.Cascade.AppError.{AppError, decryption_failed}
use rust_encryption.Cascade.Algorithm.{
  Algorithm, aes256_gcm_siv, xchacha20_poly1305, serpent256, threefish1024, key_len, nonce_len,
  tag_len, padded_len_lem, expected_ciphertext_len,
}
use rust_encryption.Cascade.Primitives.{
  Primitives, PrimitiveLaws, HasMemory, aes_gcm_siv_max, xchacha_max, slice_max,
}
use rust_encryption.Cascade.Cbc
use rust_encryption.Cascade.Cbc.{CbcSuite}
use rust_encryption.Cascade.Detached
use rust_encryption.Cascade.Detached.{AeadSuite}
use rust_encryption.Cascade.Serpent
use rust_encryption.Cascade.Threefish
use rust_encryption.Cascade.Aes
use rust_encryption.Cascade.Xchacha
use rust_encryption.Cascade.Dispatch.{seal, open_sealed}

-- The texts that the crate behind a suite takes; under CBC, those with room for a block of padding.
abbrev pub text_max : Algorithm → ℕ
text_max aes256_gcm_siv = aes_gcm_siv_max
text_max xchacha20_poly1305 = xchacha_max
text_max serpent256 = slice_max - 128
text_max threefish1024 = slice_max - 128

pub text_max-lt : (a : Algorithm) → text_max a < word_mod
text_max-lt aes256_gcm_siv = omega arith
text_max-lt xchacha20_poly1305 = omega arith
text_max-lt serpent256 = omega arith
text_max-lt threefish1024 = omega arith

module _ (p : Primitives) (laws : PrimitiveLaws p) (room : ℕ) (memory : HasMemory p room) where
  serpent-Fits : Cbc.RoundTrip.Fits p Serpent.suite
  serpent-Fits = record {
    mode_laws = laws.serpent_laws;
    iv_is_block = refl;
    block_pos = omega arith;
    encryption_key_fits = omega arith;
    authentication_key_fits = omega arith;
    tag_is_hmac = refl;
  }

  threefish-Fits : Cbc.RoundTrip.Fits p Threefish.suite
  threefish-Fits = record {
    mode_laws = laws.threefish_laws;
    iv_is_block = refl;
    block_pos = omega arith;
    encryption_key_fits = omega arith;
    authentication_key_fits = omega arith;
    tag_is_hmac = refl;
  }

  aes-Fits : Detached.RoundTrip.Fits p Aes.suite aes_gcm_siv_max
  aes-Fits = record { aead_laws = laws.aes_gcm_siv_laws; file_key_is_32 = refl; tag_is_16 = refl }

  xchacha-Fits : Detached.RoundTrip.Fits p Xchacha.suite xchacha_max
  xchacha-Fits = record { aead_laws = laws.xchacha_laws; file_key_is_32 = refl; tag_is_16 = refl }

  -- The size that the envelope expects is the size that `seal` makes.
  abbrev pub Opens : Algorithm → Bytes → Bytes → Bytes → Bytes → Bytes → ℕ → Type 0
  Opens a master_key salt nonce header plaintext size =
      (c tag : Bytes) × (seal p a master_key salt nonce header plaintext ≡ ok (c, tag))
      × (length c ≡ size)
      × (length tag ≡ tag_len a)
      × IsBytes c
      × IsBytes tag
      × (open_sealed p a master_key salt nonce header c tag ≡ ok plaintext)

  pub open_sealed-seal :
      (a : Algorithm) (master_key salt nonce header plaintext : Bytes) (size : ℕ)
      → length master_key ≡ key_len a
      → length nonce ≡ nonce_len a
      → IsBytes plaintext
      → length header ≤ 256
      → length plaintext < word_mod
      → length plaintext ≤ text_max a
      → size + 64 ≤ room
      → expected_ciphertext_len a (length plaintext) ≡ some size
      → Opens a master_key salt nonce header plaintext size
  unfolding seal open_sealed key_len nonce_len tag_len expected_ciphertext_len
  open_sealed-seal aes256_gcm_siv k s n h t size hk hn hb hh small ht fit e =
      subst (Opens aes256_gcm_siv k s n h t) (ground arith) (
        Detached.RoundTrip.open_sealed-seal p laws room memory Aes.suite aes_gcm_siv_max aes-Fits k
          s n h t hk hn hb (omega (arith, hh)) ht (ground arith))
  open_sealed-seal xchacha20_poly1305 k s n h t size hk hn hb hh small ht fit e =
      subst (Opens xchacha20_poly1305 k s n h t) (ground arith) (
        Detached.RoundTrip.open_sealed-seal p laws room memory Xchacha.suite xchacha_max
          xchacha-Fits k s n h t hk hn hb (omega (arith, hh)) ht (ground arith))
  open_sealed-seal serpent256 k s n h t size hk hn hb hh small ht fit e =
      let size_eq = (padded_len_lem (length t) 16 (omega arith) small size).0 e in
      subst (Opens serpent256 k s n h t) (sym size_eq.0) (
        Cbc.RoundTrip.open_sealed-seal p laws room memory (omega (arith, fit)) Serpent.suite
          serpent-Fits k s n h t hk hn hb small (omega (arith, ht)) (omega (arith, size_eq.0, fit)))
  open_sealed-seal threefish1024 k s n h t size hk hn hb hh small ht fit e =
      let size_eq = (padded_len_lem (length t) 128 (omega arith) small size).0 e in
      subst (Opens threefish1024 k s n h t) (sym size_eq.0) (
        Cbc.RoundTrip.open_sealed-seal p laws room memory (omega (arith, fit)) Threefish.suite
          threefish-Fits k s n h t hk hn hb small (omega (arith, ht))
          (omega (arith, size_eq.0, fit)))

-- Whichever suite opens, every error that it returns is `DecryptionFailed`: the caller cannot tell a
-- bad size, a tag that does not verify and bad padding apart.
pub open_sealed_error :
    (p : Primitives) (a : Algorithm) (master_key salt nonce header ciphertext tag : Bytes)
    (e : AppError)
    → open_sealed p a master_key salt nonce header ciphertext tag ≡ err e
    → e ≡ decryption_failed
unfolding open_sealed
open_sealed_error p aes256_gcm_siv = Detached.RoundTrip.open_sealed_error p Aes.suite
open_sealed_error p xchacha20_poly1305 = Detached.RoundTrip.open_sealed_error p Xchacha.suite
open_sealed_error p serpent256 = Cbc.Authentic.open_sealed_error p Serpent.suite
open_sealed_error p threefish1024 = Cbc.Authentic.open_sealed_error p Threefish.suite
