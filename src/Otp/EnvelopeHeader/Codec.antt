-- ===== src/Otp/EnvelopeHeader/Codec.antt =====
-- Envelope headers and their encodings correspond one to one.
use rust_encryption.Common.{
  ◌^◌, ◌<◌, ◌≡◌, sym, ap, ◌∙◌, true, false, not, ◌||◌, ◌++◌, ◌==◌, arith, bytes_eq, bytes_eq→eq,
  all_zero, Bytes, IsBytes, length, length-append, replicate, take-append, drop-append,
  drop-append_past, not_ne→eq, not_false→true, or-false, fail_if-passed, ok-injective, ok,
}
use rust_encryption.Common.Words.{to_be_bytes, from_be_bytes, from_be_bytes-to_be_bytes}
use rust_encryption.Common.Fields.{be_field, be_fits, zeros_end}
use rust_encryption.Common.Slices.{slice, slice_step, length-slice}
use rust_encryption.Otp.Error.{invalid_envelope, text}
use rust_encryption.Otp.Size.{envelope_magic}
use rust_encryption.Otp.EnvelopeHeader.{
  EnvelopeHeader, encode_envelope_header, parse_envelope_header,
}

-- The ranges that the encoder fills, in order.
abbrev pub layout : EnvelopeHeader → Bytes
layout h =
    envelope_magic
    ++ (to_be_bytes 2 1
        ++ (to_be_bytes 2 64
            ++ (to_be_bytes 2 1
                ++ (to_be_bytes 2 0
                    ++ (h.id ++ (to_be_bytes 8 h.plaintext_len ++ replicate 8 0))))))

pub record IsHeader (h : EnvelopeHeader) : Type 0 where
  pub id_size : length h.id ≡ 32
  pub id_set : all_zero h.id ≡ false
  pub len_fits : h.plaintext_len < 2 ^ 64

encode-eq : (h : EnvelopeHeader) → IsHeader h → encode_envelope_header h ≡ layout h
unfolding encode_envelope_header
encode-eq h v = rw (
  v.id_size,
  take-append 32 h.id (replicate 16 0) v.id_size,
  drop-append_past 32 8 h.id (replicate 16 0) v.id_size,
)

pub length-encode_envelope_header :
    (h : EnvelopeHeader) → IsHeader h → length (encode_envelope_header h) ≡ 64
length-encode_envelope_header h v =
    ap length (encode-eq h v)
    ∙ omega (arith, length-append h.id (to_be_bytes 8 h.plaintext_len ++ replicate 8 0), v.id_size)

-- Parsing an encoded envelope header gives it back, where its identifier has 32 bytes and is not all
-- zero and its length has 64 bits.
pub parse-encode_envelope_header :
    (h : EnvelopeHeader) → IsHeader h → parse_envelope_header (encode_envelope_header h) ≡ ok h
unfolding parse_envelope_header bytes_eq all_zero
parse-encode_envelope_header h v =
    rw
      (
        encode-eq h v,
        take-append 32 h.id (to_be_bytes 8 h.plaintext_len ++ replicate 8 0) v.id_size,
        drop-append 32 h.id (to_be_bytes 8 h.plaintext_len ++ replicate 8 0) v.id_size,
        drop-append_past 32 8 h.id (to_be_bytes 8 h.plaintext_len ++ replicate 8 0) v.id_size,
        v.id_set,
      )
      (λ i. ok (record {
        id = h.id;
        plaintext_len = from_be_bytes-to_be_bytes 8 h.plaintext_len v.len_fits i;
      }))

-- What the parser has checked when it returns, and where the fields come from.
record IsParsed (bytes : Bytes) (h : EnvelopeHeader) : Type 0 where
  has_magic : bytes_eq (slice 0 8 bytes) envelope_magic ≡ true
  has_version : from_be_bytes (slice 8 10 bytes) ≡ 1
  has_header_len : from_be_bytes (slice 10 12 bytes) ≡ 64
  has_suite : from_be_bytes (slice 12 14 bytes) ≡ 1
  has_no_flags : bytes_eq (slice 14 16 bytes) (replicate 2 0) ≡ true
  has_zeros : all_zero (slice 56 64 bytes) ≡ true
  has_id : all_zero (slice 16 48 bytes) ≡ false
  id_is : h.id ≡ slice 16 48 bytes
  len_is : h.plaintext_len ≡ from_be_bytes (slice 48 56 bytes)

parse-IsParsed :
    (bytes : Bytes) (h : EnvelopeHeader) → parse_envelope_header bytes ≡ ok h → IsParsed bytes h
unfolding parse_envelope_header
parse-IsParsed bytes h e =
    let (magic_ok, e1) =
      fail_if-passed (not (bytes_eq (slice 0 8 bytes) envelope_magic))
        (invalid_envelope (text "unrecognized magic bytes")) _ e in
    let (version_ok, e2) =
      fail_if-passed (not (from_be_bytes (slice 8 10 bytes) == 1))
        (invalid_envelope (text "unsupported format version")) _ e1 in
    let (len_ok, e3) =
      fail_if-passed (not (from_be_bytes (slice 10 12 bytes) == 64))
        (invalid_envelope (text "invalid header length")) _ e2 in
    let (suite_ok, e4) =
      fail_if-passed (not (from_be_bytes (slice 12 14 bytes) == 1))
        (invalid_envelope (text "unsupported algorithm suite")) _ e3 in
    let (zeros_ok, e5) =
      fail_if-passed
        (not (bytes_eq (slice 14 16 bytes) (replicate 2 0)) || not (all_zero (slice 56 64 bytes)))
        (invalid_envelope (text "reserved fields or flags are not zero")) _ e4 in
    let (id_ok, e6) =
      fail_if-passed (all_zero (slice 16 48 bytes))
        (invalid_envelope (text "the pad identifier is all zero")) _ e5 in
    let is = sym (ok-injective e6) in
    let (flags, rest) = or-false _ _ zeros_ok in
    record {
      has_magic = not_false→true _ magic_ok;
      has_version = not_ne→eq _ _ version_ok;
      has_header_len = not_ne→eq _ _ len_ok;
      has_suite = not_ne→eq _ _ suite_ok;
      has_no_flags = not_false→true _ flags;
      has_zeros = not_false→true _ rest;
      has_id = id_ok;
      id_is = ap (λ (r : EnvelopeHeader). r.id) is;
      len_is = ap (λ (r : EnvelopeHeader). r.plaintext_len) is;
    }

-- Whatever 64 bytes the parser accepts, they are the encoding of the header that it returns, and that
-- header has an identifier of 32 bytes that is not all zero, and a length of 64 bits.
pub encode-parse_envelope_header :
    (bytes : Bytes) (h : EnvelopeHeader)
    → IsBytes bytes
    → length bytes ≡ 64
    → parse_envelope_header bytes ≡ ok h
    → IsHeader h × (encode_envelope_header h ≡ bytes)
encode-parse_envelope_header bytes h hb len e =
    let d = parse-IsParsed bytes h e in
    let v : IsHeader h = record {
      id_size = ap length d.id_is ∙ length-slice 16 48 bytes (omega arith);
      id_set = ap all_zero d.id_is ∙ d.has_id;
      len_fits = rw d.len_is (be_fits 48 56 bytes hb (omega arith));
    } in
    (
      v,
      encode-eq h v
          ∙ sym (
              slice_step 0 8 bytes (omega arith) (bytes_eq→eq _ _ d.has_magic) (
                slice_step 8 10 bytes (omega arith)
                  (be_field 8 10 bytes 1 hb (omega arith) d.has_version)
                  (slice_step 10 12 bytes (omega arith)
                    (be_field 10 12 bytes 64 hb (omega arith) d.has_header_len)
                    (slice_step 12 14 bytes (omega arith)
                      (be_field 12 14 bytes 1 hb (omega arith) d.has_suite)
                      (slice_step 14 16 bytes (omega arith) (bytes_eq→eq _ _ d.has_no_flags) (
                        slice_step 16 48 bytes (omega arith) (sym d.id_is) (
                          slice_step 48 56 bytes (omega arith)
                            (be_field 48 56 bytes h.plaintext_len hb (omega arith) (sym d.len_is))
                            (zeros_end 56 64 bytes len (omega arith) d.has_zeros)))))))),
    )
