-- ===== src/Cascade/Xchacha.antt =====
-- cascade/src/algorithms/xchacha.rs: the constants of the file, and its functions at them.
use rust_encryption.Common.{Bytes, Result}
use rust_encryption.Common.Text.{codes}
use rust_encryption.Cascade.AppError.{AppError}
use rust_encryption.Cascade.Primitives.{Primitives}
use rust_encryption.Cascade.Detached
use rust_encryption.Cascade.Detached.{AeadSuite}

abbrev pub suite : AeadSuite
suite = record {
  nonce_len = 24;
  tag_len = 16;
  master_key_len = 32;
  file_key_len = 32;
  hkdf_info = codes "cascade:file:v1:xchacha20-poly1305:encryption-key";
  aead = λ p. p.xchacha;
}

module _ (p : Primitives) where
  abbrev pub derive_file_key : Bytes → Bytes → Result (Unit {0}) Bytes
  derive_file_key = Detached.derive_file_key p suite

  abbrev pub seal : Bytes → Bytes → Bytes → Bytes → Bytes → Result AppError (Bytes × Bytes)
  seal = Detached.seal p suite

  abbrev pub open_sealed : Bytes → Bytes → Bytes → Bytes → Bytes → Bytes → Result AppError Bytes
  open_sealed = Detached.open_sealed p suite
