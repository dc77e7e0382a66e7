-- ===== src/Cascade/Threefish.antt =====
-- cascade/src/algorithms/threefish.rs: the constants of the file, and its functions at them.
use rust_encryption.Common.{Bytes, ◌++◌, [], ◌∷◌, Result}
use rust_encryption.Common.Text.{codes}
use rust_encryption.Cascade.AppError.{AppError}
use rust_encryption.Cascade.Primitives.{Primitives}
use rust_encryption.Cascade.Cbc
use rust_encryption.Cascade.Cbc.{CbcSuite, DerivedKeys}

abbrev pub suite : CbcSuite
suite = record {
  iv_len = 128;
  block_len = 128;
  master_key_len = 128;
  encryption_key_len = 128;
  authentication_key_len = 64;
  tag_len = 64;
  kdf_encryption_info = codes "cascade:file:v1:threefish-1024-cbc:encryption-key";
  kdf_authentication_info = codes "cascade:file:v1:threefish-1024-cbc:hmac-sha512-key";
  mac_domain = codes "cascade:file:v1:threefish-1024-cbc:hmac-sha512" ++ 0 ∷ [];
  mode = λ p. p.threefish;
}

module _ (p : Primitives) where
  abbrev pub derive_keys : Bytes → Bytes → Result (Unit {0}) DerivedKeys
  derive_keys = Cbc.derive_keys p suite

  abbrev pub mac_for : Bytes → Bytes → Bytes → Bytes → Result (Unit {0}) Bytes
  mac_for = Cbc.mac_for p suite

  abbrev pub make_tag : Bytes → Bytes → Bytes → Bytes → Result (Unit {0}) Bytes
  make_tag = Cbc.make_tag p suite

  abbrev pub verify_tag : Bytes → Bytes → Bytes → Bytes → Bytes → Result (Unit {0}) (Unit {0})
  verify_tag = Cbc.verify_tag p suite

  abbrev pub seal : Bytes → Bytes → Bytes → Bytes → Bytes → Result AppError (Bytes × Bytes)
  seal = Cbc.seal p suite

  abbrev pub open_sealed : Bytes → Bytes → Bytes → Bytes → Bytes → Bytes → Result AppError Bytes
  open_sealed = Cbc.open_sealed p suite
