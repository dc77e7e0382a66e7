-- ===== src/Cascade/Cbc/Authentic.antt =====
-- Opening under CBC and HMAC: what has been authenticated, and how it fails.
use rust_encryption.Common.{
  ◌%◌, ◌≡◌, ◌||◌, not, some, ◌++◌, ◌==◌, arith, Bytes, length, ok, err, fail_if-passed,
  or_err-passed, ok_or-eq-ok,
}
use rust_encryption.Cascade.AppError.{AppError, decryption_failed}
use rust_encryption.Cascade.Primitives.{Primitives, PrimitiveLaws}
use rust_encryption.Cascade.Cbc.{
  CbcSuite, DerivedKeys, derive_keys, mac_for, verify_tag, open_sealed,
}

module _ (p : Primitives) (s : CbcSuite) where
  verify_tag-eq-ok :
      (laws : PrimitiveLaws p) (key iv header ciphertext tag : Bytes)
      → verify_tag p s key iv header ciphertext tag ≡ ok tt
      → tag ≡ p.hmac_tag key (s.mac_domain ++ (iv ++ (header ++ ciphertext)))
  unfolding verify_tag mac_for
  verify_tag-eq-ok laws key iv header ciphertext tag h =
      laws.hmac_rejects key (s.mac_domain ++ (iv ++ (header ++ ciphertext))) tag (ground arith)

  -- Whatever goes wrong while opening, the error is the same one.
  pub open_sealed_error :
      (master_key salt iv header ciphertext tag : Bytes) (e : AppError)
      → open_sealed p s master_key salt iv header ciphertext tag ≡ err e
      → e ≡ decryption_failed
  unfolding open_sealed
  open_sealed_error master_key salt iv header ciphertext tag e h = ground arith

  -- If a text comes out, the tag is the MAC, under the key derived for it, of the domain, the IV,
  -- the header and the ciphertext, and the text is the decryption of just that ciphertext.
  pub open_sealed-authentic :
      (laws : PrimitiveLaws p) (master_key salt iv header ciphertext tag text : Bytes)
      → open_sealed p s master_key salt iv header ciphertext tag ≡ ok text
      → (keys : DerivedKeys) × (derive_keys p s master_key salt ≡ ok keys)
        × (tag ≡ p.hmac_tag keys.authentication (s.mac_domain ++ (iv ++ (header ++ ciphertext))))
        × ((s.mode p).decrypt_padded keys.encryption iv ciphertext ≡ some text)
  unfolding open_sealed
  open_sealed-authentic laws master_key salt iv header ciphertext tag text h =
      let (_, h1) =
        fail_if-passed
          (not (length master_key == s.master_key_len)
            || (not (length iv == s.iv_len)
                || (not (length tag == s.tag_len)
                    || (length ciphertext == 0 || not (length ciphertext % s.block_len == 0)))))
          decryption_failed _ h in
      let (keys, derived, h2) =
        or_err-passed (derive_keys p s master_key salt) decryption_failed _ h1 in
      let (u, verified, h3) =
        or_err-passed (verify_tag p s keys.authentication iv header ciphertext tag)
          decryption_failed _ h2 in
      let (_, h4) =
        fail_if-passed (not ((s.mode p).accepts_key keys.encryption)) decryption_failed _ h3 in
      let (_, h5) = fail_if-passed (not ((s.mode p).accepts_iv iv)) decryption_failed _ h4 in
      let (_, h6) = fail_if-passed (not (p.reserve (length ciphertext))) decryption_failed _ h5 in
      (
        keys,
        derived,
        verify_tag-eq-ok laws keys.authentication iv header ciphertext tag verified,
        ok_or-eq-ok ((s.mode p).decrypt_padded keys.encryption iv ciphertext) decryption_failed h6,
      )
