-- ===== src/Cascade/Detached.antt =====
-- cascade/src/algorithms/aes.rs and xchacha.rs: an AEAD with a detached tag under a key of the
-- file. The two files are one text up to their constants, which `AeadSuite` holds.
pub mod RoundTrip
use rust_encryption.Common.{
  ℕ, ◌||◌, not, ◌==◌, Bytes, length, Result, ok, ◌>>=◌, ◌>>◌, fail_if, ok_or, or_err,
}
use rust_encryption.Cascade.AppError.{AppError, encryption_failed, decryption_failed}
use rust_encryption.Cascade.Primitives.{Primitives, Aead}

pub record AeadSuite : Type 0 where
  pub nonce_len : ℕ
  pub tag_len : ℕ
  pub master_key_len : ℕ
  pub file_key_len : ℕ
  pub hkdf_info : Bytes
  pub aead : Primitives → Aead

module _ (p : Primitives) (s : AeadSuite) where
  unfoldable pub derive_file_key : Bytes → Bytes → Result (Unit {0}) Bytes
  derive_file_key master_key salt = do
    fail_if (not (length master_key == s.master_key_len)) tt
    ok_or (p.hkdf_expand salt master_key s.hkdf_info s.file_key_len) tt

  unfoldable pub seal : Bytes → Bytes → Bytes → Bytes → Bytes → Result AppError (Bytes × Bytes)
  seal master_key salt nonce header plaintext = do
    fail_if (not (length master_key == s.master_key_len) || not (length nonce == s.nonce_len))
        encryption_failed
    fail_if (not ((s.aead p).accepts_nonce nonce)) encryption_failed
    file_key ← or_err (derive_file_key master_key salt) encryption_failed
    fail_if (not ((s.aead p).accepts_key file_key)) encryption_failed
    fail_if (not (p.reserve (length plaintext))) encryption_failed
    sealed ← ok_or ((s.aead p).encrypt_detached file_key nonce header plaintext) encryption_failed
    fail_if (not (p.reserve s.tag_len)) encryption_failed
    ok sealed

  unfoldable pub open_sealed : Bytes → Bytes → Bytes → Bytes → Bytes → Bytes → Result AppError Bytes
  open_sealed master_key salt nonce header ciphertext tag = do
    fail_if
        (not (length master_key == s.master_key_len)
          || (not (length nonce == s.nonce_len) || not (length tag == s.tag_len)))
        decryption_failed
    fail_if (not ((s.aead p).accepts_nonce nonce)) decryption_failed
    fail_if (not ((s.aead p).accepts_tag tag)) decryption_failed
    file_key ← or_err (derive_file_key master_key salt) decryption_failed
    fail_if (not ((s.aead p).accepts_key file_key)) decryption_failed
    fail_if (not (p.reserve (length ciphertext))) decryption_failed
    ok_or ((s.aead p).decrypt_detached file_key nonce header ciphertext tag) decryption_failed
