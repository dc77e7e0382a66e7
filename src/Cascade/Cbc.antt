-- ===== src/Cascade/Cbc.antt =====
-- cascade/src/algorithms/serpent.rs and threefish.rs: CBC with PKCS#7 padding under a full
-- HMAC-SHA-512 tag. The two files are one text up to their constants, which `CbcSuite` holds.
pub mod RoundTrip
pub mod Authentic
use rust_encryption.Common.{
  ℕ, ◌%◌, ◌||◌, not, ◌++◌, ◌==◌, Bytes, length, Result, ok, ◌>>=◌, ◌>>◌, fail_if, ok_or, or_err,
}
use rust_encryption.Cascade.AppError.{AppError, encryption_failed, decryption_failed}
use rust_encryption.Cascade.Algorithm.{padded_len}
use rust_encryption.Cascade.Primitives.{Primitives, BlockMode}

pub record CbcSuite : Type 0 where
  pub iv_len : ℕ
  pub block_len : ℕ
  pub master_key_len : ℕ
  pub encryption_key_len : ℕ
  pub authentication_key_len : ℕ
  pub tag_len : ℕ
  pub kdf_encryption_info : Bytes
  pub kdf_authentication_info : Bytes
  pub mac_domain : Bytes
  pub mode : Primitives → BlockMode

pub record DerivedKeys : Type 0 where
  pub encryption : Bytes
  pub authentication : Bytes

module _ (p : Primitives) (s : CbcSuite) where
  unfoldable pub derive_keys : Bytes → Bytes → Result (Unit {0}) DerivedKeys
  derive_keys master_key salt = do
    encryption ← ok_or (p.hkdf_expand salt master_key s.kdf_encryption_info s.encryption_key_len) tt
    authentication ←
        ok_or (p.hkdf_expand salt master_key s.kdf_authentication_info s.authentication_key_len) tt
    ok (record { encryption = encryption; authentication = authentication })

  -- What the MAC has absorbed: the domain, the IV, the header and the ciphertext.
  unfoldable pub mac_for : Bytes → Bytes → Bytes → Bytes → Result (Unit {0}) Bytes
  mac_for authentication_key iv header ciphertext = do
    fail_if (not (p.hmac_accepts authentication_key)) tt
    ok (s.mac_domain ++ (iv ++ (header ++ ciphertext)))

  unfoldable pub make_tag : Bytes → Bytes → Bytes → Bytes → Result (Unit {0}) Bytes
  make_tag authentication_key iv header ciphertext = do
    message ← mac_for authentication_key iv header ciphertext
    fail_if (not (p.reserve s.tag_len)) tt
    ok (p.hmac_tag authentication_key message)

  unfoldable pub verify_tag : Bytes → Bytes → Bytes → Bytes → Bytes → Result (Unit {0}) (Unit {0})
  verify_tag authentication_key iv header ciphertext tag = do
    message ← mac_for authentication_key iv header ciphertext
    fail_if (not (p.hmac_verify authentication_key message tag)) tt

  unfoldable pub seal : Bytes → Bytes → Bytes → Bytes → Bytes → Result AppError (Bytes × Bytes)
  seal master_key salt iv header plaintext = do
    fail_if (not (length master_key == s.master_key_len) || not (length iv == s.iv_len))
        encryption_failed
    ciphertext_len ← ok_or (padded_len (length plaintext) s.block_len) encryption_failed
    keys ← or_err (derive_keys master_key salt) encryption_failed
    fail_if (not ((s.mode p).accepts_key keys.encryption)) encryption_failed
    fail_if (not ((s.mode p).accepts_iv iv)) encryption_failed
    fail_if (not (p.reserve ciphertext_len)) encryption_failed
    ciphertext ←
        ok_or ((s.mode p).encrypt_padded keys.encryption iv plaintext ciphertext_len)
          encryption_failed
    fail_if (not (length ciphertext == ciphertext_len)) encryption_failed
    tag ← or_err (make_tag keys.authentication iv header ciphertext) encryption_failed
    ok (ciphertext, tag)

  unfoldable pub open_sealed : Bytes → Bytes → Bytes → Bytes → Bytes → Bytes → Result AppError Bytes
  open_sealed master_key salt iv header ciphertext tag = do
    fail_if
        (not (length master_key == s.master_key_len)
          || (not (length iv == s.iv_len)
              || (not (length tag == s.tag_len)
                  || (length ciphertext == 0 || not (length ciphertext % s.block_len == 0)))))
        decryption_failed
    keys ← or_err (derive_keys master_key salt) decryption_failed
    or_err (verify_tag keys.authentication iv header ciphertext tag) decryption_failed
    fail_if (not ((s.mode p).accepts_key keys.encryption)) decryption_failed
    fail_if (not ((s.mode p).accepts_iv iv)) decryption_failed
    fail_if (not (p.reserve (length ciphertext))) decryption_failed
    ok_or ((s.mode p).decrypt_padded keys.encryption iv ciphertext) decryption_failed
