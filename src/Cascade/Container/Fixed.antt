-- ===== src/Cascade/Container/Fixed.antt =====
-- The first 32 bytes of an envelope: `build_header` against `ParsedEnvelope::parse`.
use rust_encryption.Common.{
  ℕ, ◌^◌, ◌<◌, ◌≡◌, sym, true, some, arith, bytes_eq, bytes_eq→eq, Bytes, IsBytes, length, drop_all,
  get_or, replicate, Result, ok,
}
use rust_encryption.Common.Words.{to_be_bytes, from_be_bytes, from_be_bytes-to_be_bytes}
use rust_encryption.Common.Fields.{be_field}
use rust_encryption.Common.Slices.{slice, slice_step, byte_step}
use rust_encryption.Cascade.AppError.{AppError}
use rust_encryption.Cascade.Algorithm.{
  Algorithm, aes256_gcm_siv, from_id, id, suite_id, from_id_iff,
}
use rust_encryption.Cascade.Container.{FixedFields, fixed_header, parse_fixed, magic}

abbrev pub fields : ℕ → ℕ → ℕ → Algorithm → FixedFields
fields header_len nonce_len plaintext_len a = record {
  algorithm = a;
  header_len = header_len;
  nonce_len = nonce_len;
  plaintext_len = plaintext_len;
}

module _ (header_len nonce_len plaintext_len : ℕ) (hh : header_len < 2 ^ 16)
    (hn : nonce_len < 2 ^ 16) (hp : plaintext_len < 2 ^ 64) where
  rebuilt :
      (a : Algorithm)
      → ◌≡◌ {A = Result AppError FixedFields}
          (ok (record {
            algorithm = a;
            header_len = from_be_bytes (to_be_bytes 2 header_len);
            nonce_len = from_be_bytes (to_be_bytes 2 nonce_len);
            plaintext_len = from_be_bytes (to_be_bytes 8 plaintext_len);
          }))
          (ok (fields header_len nonce_len plaintext_len a))
  rebuilt a = λ i. ok (record {
    algorithm = a;
    header_len = from_be_bytes-to_be_bytes 2 header_len hh i;
    nonce_len = from_be_bytes-to_be_bytes 2 nonce_len hn i;
    plaintext_len = from_be_bytes-to_be_bytes 8 plaintext_len hp i;
  })

  -- Parsing the fixed bytes of a header gives back its fields, for every suite.
  pub parse_fixed-fixed_header :
      (a : Algorithm)
      → parse_fixed (fixed_header a header_len nonce_len plaintext_len)
        ≡ ok (fields header_len nonce_len plaintext_len a)
  unfolding parse_fixed fixed_header from_id id suite_id bytes_eq
  parse_fixed-fixed_header aes256_gcm_siv = rebuilt aes256_gcm_siv
  parse_fixed-fixed_header _ = rebuilt _

-- What `parse` has checked of the fixed bytes when it goes on, and where the fields come from.
pub record IsFixed (fixed : Bytes) (f : FixedFields) : Type 0 where
  pub has_magic : bytes_eq (slice 0 8 fixed) magic ≡ true
  pub has_version : get_or fixed 8 0 ≡ 1
  pub has_algorithm : from_id (get_or fixed 9 0) ≡ some f.algorithm
  pub has_suite : get_or fixed 10 0 ≡ suite_id f.algorithm
  pub has_flags : get_or fixed 11 0 ≡ 0
  pub has_zeros : bytes_eq (slice 24 32 fixed) (replicate 8 0) ≡ true
  pub header_len_bytes : f.header_len ≡ from_be_bytes (slice 12 14 fixed)
  pub nonce_len_bytes : f.nonce_len ≡ from_be_bytes (slice 14 16 fixed)
  pub plaintext_len_bytes : f.plaintext_len ≡ from_be_bytes (slice 16 24 fixed)

parse_fixed-IsFixed : (fixed : Bytes) (f : FixedFields) → parse_fixed fixed ≡ ok f → IsFixed fixed f
unfolding parse_fixed
parse_fixed-IsFixed fixed f h = ground arith

-- The fixed bytes that `parse` accepts are those that `build_header` writes for the fields.
pub fixed_canonical :
    (fixed : Bytes) (f : FixedFields)
    → IsBytes fixed
    → length fixed ≡ 32
    → parse_fixed fixed ≡ ok f
    → fixed ≡ fixed_header f.algorithm f.header_len f.nonce_len f.plaintext_len
unfolding fixed_header
fixed_canonical fixed f hb len h =
    let v = parse_fixed-IsFixed fixed f h in
    slice_step 0 8 fixed (omega arith) (bytes_eq→eq _ _ v.has_magic) (
      byte_step 8 fixed (omega arith) v.has_version (
        byte_step 9 fixed (omega arith) (sym ((from_id_iff _ _).0 v.has_algorithm)) (
          byte_step 10 fixed (omega arith) v.has_suite (
            byte_step 11 fixed (omega arith) v.has_flags (
              slice_step 12 14 fixed (omega arith)
                (be_field 12 14 fixed f.header_len hb (omega arith) (sym v.header_len_bytes))
                (slice_step 14 16 fixed (omega arith)
                  (be_field 14 16 fixed f.nonce_len hb (omega arith) (sym v.nonce_len_bytes))
                  (slice_step 16 24 fixed (omega arith)
                    (be_field 16 24 fixed f.plaintext_len hb (omega arith)
                      (sym v.plaintext_len_bytes))
                    (slice_step 24 32 fixed (omega arith) (bytes_eq→eq _ _ v.has_zeros)
                      (drop_all 32 fixed (omega arith))))))))))
