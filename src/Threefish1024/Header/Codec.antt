-- ===== src/Threefish1024/Header/Codec.antt =====
-- Headers of 80 bytes and their encodings correspond one to one.
use mathlib.Core.Path.{subst}
use rust_encryption.Common.{
  ℕ, ◌^◌, ◌<◌, ◌≡◌, sym, ap, ◌∙◌, true, not, ◌++◌, ◌==◌, arith, bytes_eq, bytes_eq→eq, Bytes,
  IsBytes, length, length-append, drop_all, take_all, replicate, take-append, drop-append,
  drop-append_past, append-nil, not_ne→eq, not_false→true, fail_if-passed, ok-injective, ok,
}
use rust_encryption.Common.Words.{
  to_le_bytes, from_le_bytes, from_le_bytes-to_le_bytes, from_le_bytes-lt,
}
use rust_encryption.Common.Fields.{le_field}
use rust_encryption.Common.Slices.{slice, slice_step, slice-IsBytes, length-slice}
use rust_encryption.Threefish1024.Error.{
  invalid_format, bad_magic, unsupported_version, unsupported_algorithm, unsupported_header_len,
  reserved_fields,
}
use rust_encryption.Threefish1024.Header.{Header, magic, encode, decode}

-- The ranges that `encode` fills, in order.
abbrev pub layout : Header → Bytes
layout h =
    magic
    ++ (to_le_bytes 2 1
        ++ (to_le_bytes 2 1
            ++ (to_le_bytes 4 80
                ++ (replicate 8 0 ++ (to_le_bytes 8 h.plaintext_len ++ (h.salt ++ h.tweak))))))

-- The fixed sizes of the arrays.
pub record IsHeader (h : Header) : Type 0 where
  pub salt_size : length h.salt ≡ 32
  pub tweak_size : length h.tweak ≡ 16
  pub len_fits : h.plaintext_len < 2 ^ 64

pub encode-eq : (h : Header) → IsHeader h → encode h ≡ layout h
unfolding encode
encode-eq h v = rw (
  v.salt_size,
  v.tweak_size,
  take-append 32 h.salt (replicate 16 0) v.salt_size,
  drop-append_past 32 16 h.salt (replicate 16 0) v.salt_size,
  append-nil h.tweak,
)

pub length-encode : (h : Header) → IsHeader h → length (encode h) ≡ 80
length-encode h v =
    ap length (encode-eq h v)
    ∙ omega (arith, length-append h.salt h.tweak, v.salt_size, v.tweak_size)

-- For a header with a salt of 32 bytes, a tweak of 16 and a length of 64 bits: decoding its encoding
-- gives it back.
pub decode-encode : (h : Header) → IsHeader h → decode (encode h) ≡ ok h
unfolding decode bytes_eq
decode-encode h v =
    rw
      (
        encode-eq h v,
        take-append 32 h.salt h.tweak v.salt_size,
        drop-append 32 h.salt h.tweak v.salt_size,
        take_all 16 h.tweak (omega arith),
      )
      (λ i. ok (record {
        plaintext_len = from_le_bytes-to_le_bytes 8 h.plaintext_len v.len_fits i;
        salt = h.salt;
        tweak = h.tweak;
      }))

-- What `decode` has checked when it returns, and where the fields come from.
record IsDecoded (bytes : Bytes) (h : Header) : Type 0 where
  has_magic : bytes_eq (slice 0 8 bytes) magic ≡ true
  has_version : from_le_bytes (slice 8 10 bytes) ≡ 1
  has_algorithm : from_le_bytes (slice 10 12 bytes) ≡ 1
  has_header_len : from_le_bytes (slice 12 16 bytes) ≡ 80
  has_zeros : bytes_eq (slice 16 24 bytes) (replicate 8 0) ≡ true
  len_is : h.plaintext_len ≡ from_le_bytes (slice 24 32 bytes)
  salt_is : h.salt ≡ slice 32 64 bytes
  tweak_is : h.tweak ≡ slice 64 80 bytes

decode-IsDecoded : (bytes : Bytes) (h : Header) → decode bytes ≡ ok h → IsDecoded bytes h
unfolding decode
decode-IsDecoded bytes h e =
    let (magic_ok, e1) =
      fail_if-passed (not (bytes_eq (slice 0 8 bytes) magic)) (invalid_format bad_magic) _ e in
    let (version_ok, e2) =
      fail_if-passed (not (from_le_bytes (slice 8 10 bytes) == 1))
        (invalid_format unsupported_version) _ e1 in
    let (algorithm_ok, e3) =
      fail_if-passed (not (from_le_bytes (slice 10 12 bytes) == 1))
        (invalid_format unsupported_algorithm) _ e2 in
    let (len_ok, e4) =
      fail_if-passed (not (from_le_bytes (slice 12 16 bytes) == 80))
        (invalid_format unsupported_header_len) _ e3 in
    let (zeros_ok, e5) =
      fail_if-passed (not (bytes_eq (slice 16 24 bytes) (replicate 8 0)))
        (invalid_format reserved_fields) _ e4 in
    let is = sym (ok-injective e5) in
    record {
      has_magic = not_false→true _ magic_ok;
      has_version = not_ne→eq _ _ version_ok;
      has_algorithm = not_ne→eq _ _ algorithm_ok;
      has_header_len = not_ne→eq _ _ len_ok;
      has_zeros = not_false→true _ zeros_ok;
      len_is = ap (λ (r : Header). r.plaintext_len) is;
      salt_is = ap (λ (r : Header). r.salt) is;
      tweak_is = ap (λ (r : Header). r.tweak) is;
    }

field_fits : (bs : Bytes) → IsBytes bs → length bs ≡ 80 → from_le_bytes (slice 24 32 bs) < 2 ^ 64
field_fits bs hb len =
    subst (λ (w : ℕ). from_le_bytes (slice 24 32 bs) < 256 ^ w)
      (length-slice 24 32 bs (omega arith))
      (from_le_bytes-lt (slice 24 32 bs) (slice-IsBytes 24 32 bs hb))

-- Whatever 80 bytes `decode` accepts, they are the encoding of the header that it returns, and that
-- header has the sizes of its arrays.
pub encode-decode :
    (bytes : Bytes) (h : Header)
    → IsBytes bytes
    → length bytes ≡ 80
    → decode bytes ≡ ok h
    → IsHeader h × (encode h ≡ bytes)
encode-decode bytes h hb len e =
    let d = decode-IsDecoded bytes h e in
    let v : IsHeader h = record {
      salt_size = ap length d.salt_is ∙ length-slice 32 64 bytes (omega arith);
      tweak_size = ap length d.tweak_is ∙ length-slice 64 80 bytes (omega arith);
      len_fits = rw d.len_is (field_fits bytes hb len);
    } in
    (
      v,
      encode-eq h v
          ∙ sym (
              slice_step 0 8 bytes (omega arith) (bytes_eq→eq _ _ d.has_magic) (
                slice_step 8 10 bytes (omega arith)
                  (le_field 8 10 bytes 1 hb (omega arith) d.has_version)
                  (slice_step 10 12 bytes (omega arith)
                    (le_field 10 12 bytes 1 hb (omega arith) d.has_algorithm)
                    (slice_step 12 16 bytes (omega arith)
                      (le_field 12 16 bytes 80 hb (omega arith) d.has_header_len)
                      (slice_step 16 24 bytes (omega arith) (bytes_eq→eq _ _ d.has_zeros) (
                        slice_step 24 32 bytes (omega arith)
                          (le_field 24 32 bytes h.plaintext_len hb (omega arith) (sym d.len_is))
                          (slice_step 32 64 bytes (omega arith) (sym d.salt_is) (
                            slice_step 64 80 bytes (omega arith) (sym d.tweak_is)
                              (drop_all 80 bytes (omega arith))
                            ∙ append-nil h.tweak)))))))),
    )
