-- ===== src/Cascade/Detached/RoundTrip.antt =====
-- Sealing and opening under an AEAD with a detached tag are inverse.
use rust_encryption.Common.{
  ℕ, ◌+◌, ◌*◌, ◌≤◌, ◌≡◌, sym, ◌∙◌, true, some, arith, Bytes, IsBytes, length, eq→==, ok, err,
}
use rust_encryption.Cascade.AppError.{AppError, decryption_failed}
use rust_encryption.Cascade.Primitives.{Primitives, PrimitiveLaws, AeadLaws, HasMemory}
use rust_encryption.Cascade.Detached.{AeadSuite, derive_file_key, seal, open_sealed}

-- The constants of a suite fit one another and the primitives, which take texts up to `text_max`.
pub record Fits (p : Primitives) (s : AeadSuite) (text_max : ℕ) : Type 0 where
  pub aead_laws : AeadLaws (s.aead p) s.nonce_len text_max
  pub file_key_is_32 : s.file_key_len ≡ 32
  pub tag_is_16 : s.tag_len ≡ 16

module _ (p : Primitives) (laws : PrimitiveLaws p) (room : ℕ) (memory : HasMemory p room)
    (s : AeadSuite) (text_max : ℕ) (fits : Fits p s text_max) where
  derive_file_key_total :
      (master_key salt : Bytes)
      → length master_key ≡ s.master_key_len
      → (k : Bytes) × (derive_file_key p s master_key salt ≡ ok k) × (length k ≡ 32)
  unfolding derive_file_key
  derive_file_key_total master_key salt h =
      let size : s.file_key_len ≤ 255 * 64 = omega (arith, fits.file_key_is_32) in
      let e = laws.hkdf_expands salt master_key s.hkdf_info s.file_key_len size in
      (e.0, rw (eq→== _ _ h, e.1), e.2 ∙ fits.file_key_is_32)

  -- `seal` and `open`, once each callee has succeeded.
  seal_step :
      (master_key salt nonce header plaintext k c tag : Bytes)
      → length master_key ≡ s.master_key_len
      → length nonce ≡ s.nonce_len
      → (s.aead p).accepts_nonce nonce ≡ true
      → derive_file_key p s master_key salt ≡ ok k
      → (s.aead p).accepts_key k ≡ true
      → p.reserve (length plaintext) ≡ true
      → (s.aead p).encrypt_detached k nonce header plaintext ≡ some (c, tag)
      → p.reserve s.tag_len ≡ true
      → seal p s master_key salt nonce header plaintext ≡ ok (c, tag)
  unfolding seal
  seal_step master_key salt nonce header plaintext k c tag hk hn ha hd hk' hr he ht =
      rw (eq→== _ _ hk, eq→== _ _ hn, ha, hd, hk', hr, he, ht)

  open_step :
      (master_key salt nonce header plaintext k c tag : Bytes)
      → length master_key ≡ s.master_key_len
      → length nonce ≡ s.nonce_len
      → length tag ≡ s.tag_len
      → (s.aead p).accepts_nonce nonce ≡ true
      → (s.aead p).accepts_tag tag ≡ true
      → derive_file_key p s master_key salt ≡ ok k
      → (s.aead p).accepts_key k ≡ true
      → p.reserve (length c) ≡ true
      → (s.aead p).decrypt_detached k nonce header c tag ≡ some plaintext
      → open_sealed p s master_key salt nonce header c tag ≡ ok plaintext
  unfolding open_sealed
  open_step master_key salt nonce header plaintext k c tag hk hn ht ha hg hd hk' hr he =
      rw (eq→== _ _ hk, eq→== _ _ hn, eq→== _ _ ht, ha, hg, hd, hk', hr, he)

  pub open_sealed-seal :
      (master_key salt nonce header plaintext : Bytes)
      → length master_key ≡ s.master_key_len
      → length nonce ≡ s.nonce_len
      → IsBytes plaintext
      → length header ≤ text_max
      → length plaintext ≤ text_max
      → length plaintext + 64 ≤ room
      → (c tag : Bytes) × (seal p s master_key salt nonce header plaintext ≡ ok (c, tag))
        × (length c ≡ length plaintext)
        × (length tag ≡ s.tag_len)
        × IsBytes c
        × IsBytes tag
        × (open_sealed p s master_key salt nonce header c tag ≡ ok plaintext)
  open_sealed-seal master_key salt nonce header plaintext hk hn hb hh ht fit =
      let key = derive_file_key_total master_key salt hk in
      let law = fits.aead_laws.decrypt-encrypt key.0 nonce header plaintext key.2 hn hh ht hb in
      let nonce_ok = fits.aead_laws.nonce_accepted nonce hn in
      let key_ok = fits.aead_laws.key_accepted key.0 key.2 in
      let tag_len = law.4 ∙ sym fits.tag_is_16 in
      let small_tag : s.tag_len ≤ room = omega (arith, fits.tag_is_16, fit) in
      let text_room = memory (length plaintext) (omega (arith, fit)) in
      (
        law.0,
        law.1,
        seal_step master_key salt nonce header plaintext key.0 law.0 law.1 hk hn nonce_ok key.1
            key_ok text_room law.2 (memory _ small_tag),
        law.3,
        tag_len,
        law.5,
        law.6,
        open_step master_key salt nonce header plaintext key.0 law.0 law.1 hk hn tag_len nonce_ok
            (fits.aead_laws.tag_accepted law.1 law.4) key.1 key_ok (rw law.3 text_room) law.7,
      )

-- Whatever goes wrong while opening, the error is the same one.
pub open_sealed_error :
    (p : Primitives) (s : AeadSuite) (master_key salt nonce header ciphertext tag : Bytes)
    (e : AppError)
    → open_sealed p s master_key salt nonce header ciphertext tag ≡ err e
    → e ≡ decryption_failed
unfolding open_sealed
open_sealed_error p s master_key salt nonce header ciphertext tag e h = ground arith
