-- ===== src/Otp/PadHeader/Codec.antt =====
-- Pad headers and their encodings correspond one to one.
use rust_encryption.Common.{
  ℕ, ◌^◌, ◌<◌, ◌≡◌, refl, sym, ap, ◌∙◌, Bool, true, false, not, ◌||◌, ◌++◌, [], ◌∷◌, ◌==◌, arith,
  bytes_eq, bytes_eq→eq, all_zero, Bytes, IsBytes, length, length-append, get_or, replicate,
  take-append, drop-append, drop-append_past, not_ne→eq, not_false→true, or-false, fail_if-passed,
  >>=-eq-ok, ok-injective, ok,
}
use rust_encryption.Common.Words.{to_be_bytes, from_be_bytes, from_be_bytes-to_be_bytes}
use rust_encryption.Common.Fields.{be_field, be_fits, zeros, zeros_end}
use rust_encryption.Common.Slices.{slice, copy_at, slice_step, byte_step, length-slice}
use rust_encryption.Otp.Error.{invalid_pad, text}
use rust_encryption.Otp.Role.{PadRole, sender, receiver, role_byte}
use rust_encryption.Otp.Size.{pad_magic}
use rust_encryption.Otp.PadHeader.{
  PadHeader, flag, role_of, consumed_of, encode_pad_header, parse_pad_header,
}

abbrev tail : PadHeader → Bytes
tail h = to_be_bytes 8 h.capacity ++ replicate 16 0

-- The ranges that the encoder fills, in order.
abbrev pub layout : PadHeader → Bytes
layout h =
    pad_magic
    ++ (to_be_bytes 2 1
        ++ (to_be_bytes 2 80
            ++ (to_be_bytes 2 1
                ++ (to_be_bytes 2 0
                    ++ (role_byte h.role
                        ∷ flag h.consumed
                        ∷ (replicate 6 0 ++ (h.id ++ tail h)))))))

pub record IsHeader (h : PadHeader) : Type 0 where
  pub id_size : length h.id ≡ 32
  pub id_set : all_zero h.id ≡ false
  pub capacity_fits : h.capacity < 2 ^ 64

pub encode-eq : (h : PadHeader) → IsHeader h → encode_pad_header h ≡ layout h
unfolding encode_pad_header
encode-eq h v = rw (
  v.id_size,
  take-append 32 h.id (replicate 24 0) v.id_size,
  drop-append_past 32 8 h.id (replicate 24 0) v.id_size,
)

pub length-encode_pad_header : (h : PadHeader) → IsHeader h → length (encode_pad_header h) ≡ 80
length-encode_pad_header h v =
    ap length (encode-eq h v) ∙ omega (arith, length-append h.id (tail h), v.id_size)

role_of-role_byte : (r : PadRole) → role_of (role_byte r) ≡ ok r
unfolding role_of role_byte
role_of-role_byte sender = refl
role_of-role_byte receiver = refl

consumed_of-flag : (b : Bool) → consumed_of (flag b) ≡ ok b
consumed_of-flag true = refl
consumed_of-flag false = refl

-- Parsing an encoded pad header gives it back, where its identifier has 32 bytes and is not all zero
-- and its capacity has 64 bits.
pub parse-encode_pad_header :
    (h : PadHeader) → IsHeader h → parse_pad_header (encode_pad_header h) ≡ ok h
unfolding parse_pad_header bytes_eq all_zero
parse-encode_pad_header h v =
    rw
      (
        encode-eq h v,
        take-append 32 h.id (tail h) v.id_size,
        drop-append 32 h.id (tail h) v.id_size,
        drop-append_past 32 8 h.id (tail h) v.id_size,
        consumed_of-flag h.consumed,
        role_of-role_byte h.role,
        v.id_set,
      )
      (λ i. ok (record h { capacity = from_be_bytes-to_be_bytes 8 h.capacity v.capacity_fits i }))

-- What the parser has checked when it returns, and where the fields come from.
record IsParsed (bytes : Bytes) (h : PadHeader) : Type 0 where
  has_magic : bytes_eq (slice 0 8 bytes) pad_magic ≡ true
  has_version : from_be_bytes (slice 8 10 bytes) ≡ 1
  has_header_len : from_be_bytes (slice 10 12 bytes) ≡ 80
  has_suite : from_be_bytes (slice 12 14 bytes) ≡ 1
  has_no_flags : bytes_eq (slice 14 16 bytes) (replicate 2 0) ≡ true
  has_zeros : all_zero (slice 18 24 bytes) ≡ true
  has_more_zeros : all_zero (slice 64 80 bytes) ≡ true
  has_consumed : consumed_of (get_or bytes 17 0) ≡ ok h.consumed
  has_role : role_of (get_or bytes 16 0) ≡ ok h.role
  has_id : all_zero (slice 24 56 bytes) ≡ false
  id_is : h.id ≡ slice 24 56 bytes
  capacity_is : h.capacity ≡ from_be_bytes (slice 56 64 bytes)

parse-IsParsed : (bytes : Bytes) (h : PadHeader) → parse_pad_header bytes ≡ ok h → IsParsed bytes h
unfolding parse_pad_header
parse-IsParsed bytes h e =
    let (magic_ok, e1) =
      fail_if-passed (not (bytes_eq (slice 0 8 bytes) pad_magic))
        (invalid_pad (text "unrecognized magic bytes")) _ e in
    let (version_ok, e2) =
      fail_if-passed (not (from_be_bytes (slice 8 10 bytes) == 1))
        (invalid_pad (text "unsupported format version")) _ e1 in
    let (len_ok, e3) =
      fail_if-passed (not (from_be_bytes (slice 10 12 bytes) == 80))
        (invalid_pad (text "invalid header length")) _ e2 in
    let (suite_ok, e4) =
      fail_if-passed (not (from_be_bytes (slice 12 14 bytes) == 1))
        (invalid_pad (text "unsupported algorithm suite")) _ e3 in
    let (zeros_ok, e5) =
      fail_if-passed
        (not (bytes_eq (slice 14 16 bytes) (replicate 2 0))
          || (not (all_zero (slice 18 24 bytes)) || not (all_zero (slice 64 80 bytes))))
        (invalid_pad (text "reserved fields or flags are not zero")) _ e4 in
    let (consumed, consumed_ok, e6) = >>=-eq-ok (consumed_of (get_or bytes 17 0)) _ e5 in
    let (role, role_ok, e7) = >>=-eq-ok (role_of (get_or bytes 16 0)) _ e6 in
    let (id_ok, e8) =
      fail_if-passed (all_zero (slice 24 56 bytes))
        (invalid_pad (text "the pad identifier is all zero")) _ e7 in
    let is = sym (ok-injective e8) in
    let (flags, rest) = or-false _ _ zeros_ok in
    let (middle, last) = or-false _ _ rest in
    record {
      has_magic = not_false→true _ magic_ok;
      has_version = not_ne→eq _ _ version_ok;
      has_header_len = not_ne→eq _ _ len_ok;
      has_suite = not_ne→eq _ _ suite_ok;
      has_no_flags = not_false→true _ flags;
      has_zeros = not_false→true _ middle;
      has_more_zeros = not_false→true _ last;
      has_consumed = consumed_ok ∙ ap (λ (r : PadHeader). ok r.consumed) (sym is);
      has_role = role_ok ∙ ap (λ (r : PadHeader). ok r.role) (sym is);
      has_id = id_ok;
      id_is = ap (λ (r : PadHeader). r.id) is;
      capacity_is = ap (λ (r : PadHeader). r.capacity) is;
    }

role_of-eq-ok : (n : ℕ) (r : PadRole) → role_of n ≡ ok r → n ≡ role_byte r
unfolding role_of role_byte
role_of-eq-ok n sender h = ground arith
role_of-eq-ok n receiver h = ground arith

consumed_of-eq-ok : (n : ℕ) (b : Bool) → consumed_of n ≡ ok b → n ≡ flag b
consumed_of-eq-ok n true h = ground arith
consumed_of-eq-ok n false h = ground arith

-- Whatever 80 bytes the parser accepts, they are the encoding of the header that it returns, and that
-- header has an identifier of 32 bytes that is not all zero, and a capacity of 64 bits.
pub encode-parse_pad_header :
    (bytes : Bytes) (h : PadHeader)
    → IsBytes bytes
    → length bytes ≡ 80
    → parse_pad_header bytes ≡ ok h
    → IsHeader h × (encode_pad_header h ≡ bytes)
encode-parse_pad_header bytes h hb len e =
    let d = parse-IsParsed bytes h e in
    let v : IsHeader h = record {
      id_size = ap length d.id_is ∙ length-slice 24 56 bytes (omega arith);
      id_set = ap all_zero d.id_is ∙ d.has_id;
      capacity_fits = rw d.capacity_is (be_fits 56 64 bytes hb (omega arith));
    } in
    (
      v,
      encode-eq h v
          ∙ sym (
              slice_step 0 8 bytes (omega arith) (bytes_eq→eq _ _ d.has_magic) (
                slice_step 8 10 bytes (omega arith)
                  (be_field 8 10 bytes 1 hb (omega arith) d.has_version)
                  (slice_step 10 12 bytes (omega arith)
                    (be_field 10 12 bytes 80 hb (omega arith) d.has_header_len)
                    (slice_step 12 14 bytes (omega arith)
                      (be_field 12 14 bytes 1 hb (omega arith) d.has_suite)
                      (slice_step 14 16 bytes (omega arith) (bytes_eq→eq _ _ d.has_no_flags) (
                        byte_step 16 bytes (omega arith) (role_of-eq-ok _ _ d.has_role) (
                          byte_step 17 bytes (omega arith) (consumed_of-eq-ok _ _ d.has_consumed) (
                            slice_step 18 24 bytes (omega arith)
                              (zeros 18 24 bytes (omega arith) d.has_zeros)
                              (slice_step 24 56 bytes (omega arith) (sym d.id_is) (
                                slice_step 56 64 bytes (omega arith)
                                  (be_field 56 64 bytes h.capacity hb (omega arith)
                                    (sym d.capacity_is))
                                  (zeros_end 64 80 bytes len (omega arith)
                                    d.has_more_zeros))))))))))),
    )

-- Writing one byte at offset 17 marks a header as consumed, and clears the mark.
pub copy_at-encode_pad_header :
    (h : PadHeader) (b : Bool)
    → IsHeader h
    → copy_at 17 (flag b ∷ []) (encode_pad_header h) ≡ encode_pad_header (record h { consumed = b })
copy_at-encode_pad_header h b v =
    let v' : IsHeader (record h { consumed = b }) = record {
      id_size = v.id_size;
      id_set = v.id_set;
      capacity_fits = v.capacity_fits;
    } in
    ap (copy_at 17 (flag b ∷ [])) (encode-eq h v) ∙ sym (encode-eq (record h { consumed = b }) v')
