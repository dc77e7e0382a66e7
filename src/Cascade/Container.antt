-- ===== src/Cascade/Container.antt =====
-- cascade/src/container.rs: the versioned, authenticated envelope.
pub mod Fixed
pub mod Layout
pub mod Sizes
pub mod RoundTrip
pub mod Authentic
pub mod Tamper
use rust_encryption.Common.{
  ℕ, ◌-◌, ◌||◌, not, Option, none, some, ◌++◌, [], ◌∷◌, ◌==◌, ltb, leb, if◌then◌else◌, bytes_eq,
  Bytes, length, take, drop, get_or, replicate, Result, ok, ◌>>=◌, ◌>>◌, fail_if, ok_or, and_then,
}
use rust_encryption.Common.Words.{checked_add, try_u16, to_be_bytes, from_be_bytes}
use rust_encryption.Common.Slices.{slice}
use rust_encryption.Cascade.AppError.{
  AppError, random, encryption_failed, decryption_failed, invalid_format, input_too_large,
  allocation, unsupported_version, algorithm_mismatch,
}
use rust_encryption.Cascade.Algorithm.{
  Algorithm, from_id, id, suite_id, name, key_len, nonce_len, tag_len, expected_ciphertext_len,
}
use rust_encryption.Cascade.Primitives.{Primitives}
use rust_encryption.Cascade.Dispatch

-- "CASCFILE"
abbrev pub magic : Bytes
magic = 67 ∷ 65 ∷ 83 ∷ 67 ∷ 70 ∷ 73 ∷ 76 ∷ 69 ∷ []

abbrev pub version : ℕ
version = 1

abbrev pub flags : ℕ
flags = 0

-- `slice.get(..n)` and `slice.get(n..)`
abbrev pub get_prefix : ℕ → Bytes → Option Bytes
get_prefix n bs = if leb n (length bs) then some (take n bs) else none

abbrev pub get_suffix : ℕ → Bytes → Option Bytes
get_suffix n bs = if leb n (length bs) then some (drop n bs) else none

-- The first 32 bytes of a header.
unfoldable pub fixed_header : Algorithm → ℕ → ℕ → ℕ → Bytes
fixed_header algorithm header_len nonce_len plaintext_len =
    magic
    ++ (version ∷ id algorithm ∷ suite_id algorithm ∷ flags ∷ []
        ++ (to_be_bytes 2 header_len
            ++ (to_be_bytes 2 nonce_len ++ (to_be_bytes 8 plaintext_len ++ replicate 8 0))))

unfoldable pub build_header : Primitives → Algorithm → ℕ → Bytes → Bytes → Result AppError Bytes
build_header p algorithm plaintext_len salt nonce = do
  header_len ←
      ok_or (and_then (checked_add 32 32) (λ len. checked_add len (length nonce))) input_too_large
  header_len_u16 ← ok_or (try_u16 header_len) input_too_large
  nonce_len_u16 ← ok_or (try_u16 (length nonce)) input_too_large
  fail_if (not (p.reserve header_len)) allocation
  let header = fixed_header algorithm header_len_u16 nonce_len_u16 plaintext_len ++ (salt ++ nonce)
  fail_if (not (length header == header_len)) encryption_failed
  ok header

unfoldable pub encrypted_len : Algorithm → ℕ → Result AppError ℕ
encrypted_len algorithm plaintext_len =
    ok_or
      (and_then (checked_add 32 32) λ len. and_then (checked_add len (nonce_len algorithm)) λ len.
        and_then
          (and_then (expected_ciphertext_len algorithm plaintext_len)
            λ ciphertext_len. checked_add len ciphertext_len)
          λ len. checked_add len (tag_len algorithm))
      input_too_large

unfoldable pub encrypt_with_material :
    Primitives → Algorithm → Bytes → Bytes → Bytes → Bytes → Result AppError Bytes
encrypt_with_material p algorithm master_key plaintext salt nonce = do
  fail_if
      (not (length master_key == key_len algorithm) || not (length nonce == nonce_len algorithm))
      encryption_failed
  header ← build_header p algorithm (length plaintext) salt nonce
  expected ← ok_or (expected_ciphertext_len algorithm (length plaintext)) input_too_large
  sealed ← Dispatch.seal p algorithm master_key salt nonce header plaintext
  fail_if (not (length sealed.0 == expected) || not (length sealed.1 == tag_len algorithm))
      encryption_failed
  output_len ← encrypted_len algorithm (length plaintext)
  fail_if (not (p.reserve output_len)) allocation
  ok (header ++ (sealed.0 ++ sealed.1))

-- `fill i n` is the outcome of the `i`-th call of `getrandom::fill` on `n` bytes.
unfoldable pub encrypt :
    Primitives → (ℕ → ℕ → Option Bytes) → Algorithm → Bytes → Bytes → Result AppError Bytes
encrypt p fill algorithm master_key plaintext = do
  salt ← ok_or (fill 0 32) random
  nonce ← ok_or (fill 1 (nonce_len algorithm)) random
  encrypt_with_material p algorithm master_key plaintext salt nonce

pub record ParsedEnvelope : Type 0 where
  pub algorithm : Algorithm
  pub plaintext_len : ℕ
  pub salt : Bytes
  pub nonce : Bytes
  pub header : Bytes
  pub ciphertext : Bytes
  pub tag : Bytes

-- What `parse` reads from the first 32 bytes.
pub record FixedFields : Type 0 where
  pub algorithm : Algorithm
  pub header_len : ℕ
  pub nonce_len : ℕ
  pub plaintext_len : ℕ

unfoldable pub parse_fixed : Bytes → Result AppError FixedFields
parse_fixed fixed = do
  fail_if (not (bytes_eq (slice 0 8 fixed) magic)) invalid_format
  fail_if (not (get_or fixed 8 0 == version)) (unsupported_version (get_or fixed 8 0))
  algorithm ← ok_or (from_id (get_or fixed 9 0)) invalid_format
  fail_if
      (not (get_or fixed 10 0 == suite_id algorithm)
        || (not (get_or fixed 11 0 == flags) || not (bytes_eq (slice 24 32 fixed) (replicate 8 0))))
      invalid_format
  ok (record {
    algorithm = algorithm;
    header_len = from_be_bytes (slice 12 14 fixed);
    nonce_len = from_be_bytes (slice 14 16 fixed);
    plaintext_len = from_be_bytes (slice 16 24 fixed);
  })

unfoldable pub parse_rest : Bytes → FixedFields → Result AppError ParsedEnvelope
parse_rest input f = do
  expected_header_len ←
      ok_or (and_then (checked_add 32 32) (λ len. checked_add len f.nonce_len)) invalid_format
  fail_if (not (f.nonce_len == nonce_len f.algorithm) || not (f.header_len == expected_header_len))
      invalid_format
  header ← ok_or (get_prefix f.header_len input) invalid_format
  body ← ok_or (get_suffix f.header_len input) invalid_format
  fail_if (ltb (length body) (tag_len f.algorithm)) invalid_format
  let tag_start = length body - tag_len f.algorithm
  expected ← ok_or (expected_ciphertext_len f.algorithm f.plaintext_len) invalid_format
  fail_if (not (length (take tag_start body) == expected)) invalid_format
  ok (record {
    algorithm = f.algorithm;
    plaintext_len = f.plaintext_len;
    salt = slice 32 64 header;
    nonce = drop 64 header;
    header = header;
    ciphertext = take tag_start body;
    tag = drop tag_start body;
  })

unfoldable pub parse : Bytes → Result AppError ParsedEnvelope
parse input = do
  fixed ← ok_or (get_prefix 32 input) invalid_format
  fields ← parse_fixed fixed
  parse_rest input fields

-- `Algorithm` derives `PartialEq`; the identifiers tell the suites apart.
unfoldable pub decrypt : Primitives → Algorithm → Bytes → Bytes → Result AppError Bytes
decrypt p selected master_key encrypted = do
  fail_if (not (length master_key == key_len selected)) decryption_failed
  parsed ← parse encrypted
  fail_if (not (id parsed.algorithm == id selected))
      (algorithm_mismatch (name selected) (name parsed.algorithm))
  plaintext ←
      Dispatch.open_sealed p selected master_key parsed.salt parsed.nonce parsed.header
        parsed.ciphertext parsed.tag
  fail_if (not (length plaintext == parsed.plaintext_len)) decryption_failed
  ok plaintext
