-- ===== src/Cascade/Dispatch.antt =====
-- cascade/src/algorithms/mod.rs: `Algorithm::seal` and `Algorithm::open`.
pub mod RoundTrip
use rust_encryption.Common.{Bytes, Result}
use rust_encryption.Cascade.AppError.{AppError}
use rust_encryption.Cascade.Algorithm.{
  Algorithm, aes256_gcm_siv, xchacha20_poly1305, serpent256, threefish1024,
}
use rust_encryption.Cascade.Primitives.{Primitives}
use rust_encryption.Cascade.Aes
use rust_encryption.Cascade.Xchacha
use rust_encryption.Cascade.Serpent
use rust_encryption.Cascade.Threefish

module _ (p : Primitives) where
  unfoldable pub seal :
      Algorithm → Bytes → Bytes → Bytes → Bytes → Bytes → Result AppError (Bytes × Bytes)
  seal aes256_gcm_siv = Aes.seal p
  seal xchacha20_poly1305 = Xchacha.seal p
  seal serpent256 = Serpent.seal p
  seal threefish1024 = Threefish.seal p

  unfoldable pub open_sealed :
      Algorithm → Bytes → Bytes → Bytes → Bytes → Bytes → Bytes → Result AppError Bytes
  open_sealed aes256_gcm_siv = Aes.open_sealed p
  open_sealed xchacha20_poly1305 = Xchacha.open_sealed p
  open_sealed serpent256 = Serpent.open_sealed p
  open_sealed threefish1024 = Threefish.open_sealed p
