-- ===== src/Cascade/Container/Authentic.antt =====
-- What an accepted envelope must look like.
use rust_encryption.Common.{
  ℕ, ◌+◌, ◌-◌, ◌≤◌, ◌≡◌, sym, ap, ◌∙◌, false, not, ◌||◌, some, ◌++◌, ◌==◌, ltb, arith, Bytes,
  IsBytes, All-take, length, length-take, length-drop, take, drop, take-append-drop, take-take, ok,
  >>=-eq-ok, fail_if-passed, ok_or-passed, not_ne→eq, ok-injective, and_then,
}
use rust_encryption.Common.Words.{checked_add}
use rust_encryption.Common.Slices.{slice, slice_step, drop-slice, length-slice}
use rust_encryption.Cascade.AppError.{invalid_format}
use rust_encryption.Cascade.Algorithm.{nonce_len, tag_len, expected_ciphertext_len}
use rust_encryption.Cascade.Container.{
  FixedFields, fixed_header, ParsedEnvelope, get_prefix, get_suffix, parse_fixed, parse_rest, parse,
}
use rust_encryption.Cascade.Container.Fixed.{fixed_canonical}
use rust_encryption.Cascade.Container.Layout.{header_of}

-- What `parse` has checked past the fixed bytes when it returns, and where the parts come from.
record IsRest (input : Bytes) (f : FixedFields) (e : ParsedEnvelope) : Type 0 where
  nonce_fits : f.nonce_len ≡ nonce_len f.algorithm
  header_fits : f.header_len ≡ 64 + f.nonce_len
  header_there : f.header_len ≤ length input
  tag_there : tag_len f.algorithm ≤ length (drop f.header_len input)
  algorithm_is : e.algorithm ≡ f.algorithm
  plaintext_len_is : e.plaintext_len ≡ f.plaintext_len
  header_is : e.header ≡ take f.header_len input
  salt_is : e.salt ≡ slice 32 64 (take f.header_len input)
  nonce_is : e.nonce ≡ drop 64 (take f.header_len input)
  ciphertext_is :
      e.ciphertext
      ≡ take (length (drop f.header_len input) - tag_len f.algorithm) (drop f.header_len input)
  tag_is :
      e.tag
      ≡ drop (length (drop f.header_len input) - tag_len f.algorithm) (drop f.header_len input)
  ciphertext_fits : expected_ciphertext_len f.algorithm f.plaintext_len ≡ some (length e.ciphertext)

-- `slice.get` found as many bytes as it was asked for.
get_prefix-eq-some :
    (n : ℕ) (bs xs : Bytes) → get_prefix n bs ≡ some xs → (n ≤ length bs) × (xs ≡ take n bs)
get_prefix-eq-some n bs xs h = ground arith

get_suffix-eq-some : (n : ℕ) (bs xs : Bytes) → get_suffix n bs ≡ some xs → xs ≡ drop n bs
get_suffix-eq-some n bs xs h = ground arith

sizes_agree :
    (n m h size : ℕ)
    → and_then (checked_add 32 32) (λ len. checked_add len n) ≡ some size
    → (not (n == m) || not (h == size)) ≡ false
    → (n ≡ m) × (h ≡ 64 + n)
sizes_agree n m h size e t = ground arith

not_short : (n m : ℕ) → ltb n m ≡ false → m ≤ n
not_short n m h = ground arith

parse_rest-IsRest :
    (input : Bytes) (f : FixedFields) (e : ParsedEnvelope)
    → parse_rest input f ≡ ok e
    → IsRest input f e
unfolding parse_rest
parse_rest-IsRest input f e h =
    let (size, e1, h1) =
      ok_or-passed (and_then (checked_add 32 32) (λ len. checked_add len f.nonce_len))
        invalid_format _ h in
    let (t1, h2) =
      fail_if-passed (not (f.nonce_len == nonce_len f.algorithm) || not (f.header_len == size))
        invalid_format _ h1 in
    let (header, e2, h3) = ok_or-passed (get_prefix f.header_len input) invalid_format _ h2 in
    let (body, e3, h4) = ok_or-passed (get_suffix f.header_len input) invalid_format _ h3 in
    let (t2, h5) = fail_if-passed (ltb (length body) (tag_len f.algorithm)) invalid_format _ h4 in
    let (c, e4, h6) =
      ok_or-passed (expected_ciphertext_len f.algorithm f.plaintext_len) invalid_format _ h5 in
    let (t3, h7) =
      fail_if-passed (not (length (take (length body - tag_len f.algorithm) body) == c))
        invalid_format _ h6 in
    let sizes = sizes_agree f.nonce_len (nonce_len f.algorithm) f.header_len size e1 t1 in
    let prefix = get_prefix-eq-some f.header_len input header e2 in
    let suffix = get_suffix-eq-some f.header_len input body e3 in
    let is = ok-injective h7 in
    record {
      nonce_fits = sizes.0;
      header_fits = sizes.1;
      header_there = prefix.0;
      tag_there = rw (← suffix) (not_short _ _ t2);
      algorithm_is = ap (λ (r : ParsedEnvelope). r.algorithm) (sym is);
      plaintext_len_is = ap (λ (r : ParsedEnvelope). r.plaintext_len) (sym is);
      header_is = ap (λ (r : ParsedEnvelope). r.header) (sym is) ∙ prefix.1;
      salt_is = ap (λ (r : ParsedEnvelope). r.salt) (sym is) ∙ ap (slice 32 64) prefix.1;
      nonce_is = ap (λ (r : ParsedEnvelope). r.nonce) (sym is) ∙ ap (drop 64) prefix.1;
      ciphertext_is =
          ap (λ (r : ParsedEnvelope). r.ciphertext) (sym is)
          ∙ ap (λ (b : Bytes). take (length b - tag_len f.algorithm) b) suffix;
      tag_is =
          ap (λ (r : ParsedEnvelope). r.tag) (sym is)
          ∙ ap (λ (b : Bytes). drop (length b - tag_len f.algorithm) b) suffix;
      ciphertext_fits =
          e4
          ∙ ap some (sym (not_ne→eq _ _ t3) ∙ ap (λ (r : ParsedEnvelope). length r.ciphertext) is);
    }

-- An envelope that is exactly what its fields encode to, with the sizes of its suite.
pub record IsCanonical (input : Bytes) (e : ParsedEnvelope) : Type 0 where
  pub layout : input ≡ e.header ++ (e.ciphertext ++ e.tag)
  pub header_built : e.header ≡ header_of e.algorithm e.plaintext_len e.salt e.nonce
  pub salt_size : length e.salt ≡ 32
  pub nonce_size : length e.nonce ≡ nonce_len e.algorithm
  pub tag_size : length e.tag ≡ tag_len e.algorithm
  pub ciphertext_size :
      expected_ciphertext_len e.algorithm e.plaintext_len ≡ some (length e.ciphertext)

module _ (input : Bytes) (f : FixedFields) (e : ParsedEnvelope) (r : IsRest input f e)
    (is_fixed : take 32 input
      ≡ fixed_header f.algorithm f.header_len f.nonce_len f.plaintext_len) where
  header_size : length (take f.header_len input) ≡ f.header_len
  header_size = omega (arith, length-take {0} f.header_len input, r.header_there)

  layout : input ≡ e.header ++ (e.ciphertext ++ e.tag)
  layout =
      rw
        (
          r.header_is,
          r.ciphertext_is,
          r.tag_is,
          take-append-drop {0} (length (drop f.header_len input) - tag_len f.algorithm)
              (drop f.header_len input),
        )
        (sym (take-append-drop f.header_len input))

  header_built : e.header ≡ header_of e.algorithm e.plaintext_len e.salt e.nonce
  header_built =
      rw (r.header_is, r.algorithm_is, r.plaintext_len_is, r.salt_is, r.nonce_is)
        (slice_step 0 32 (take f.header_len input) (omega arith) fixed_part
          (drop-slice 32 64 (take f.header_len input) (omega arith)))
    where
      fixed_part :
          slice 0 32 (take f.header_len input)
          ≡ fixed_header f.algorithm
              (64 + nonce_len f.algorithm)
              (nonce_len f.algorithm)
              f.plaintext_len
      fixed_part =
          take-take 32 f.header_len input (omega (arith, r.header_fits))
          ∙ is_fixed
          ∙ ap (λ (h : ℕ). fixed_header f.algorithm h f.nonce_len f.plaintext_len) r.header_fits
          ∙ ap (λ (n : ℕ). fixed_header f.algorithm (64 + n) n f.plaintext_len) r.nonce_fits

  canonical : IsCanonical input e
  canonical = record {
    layout = layout;
    header_built = header_built;
    salt_size =
        ap length r.salt_is
        ∙ length-slice 32 64 (take f.header_len input) (omega (arith, header_size, r.header_fits));
    nonce_size =
        rw (r.nonce_is, r.algorithm_is)
          (omega (
            arith,
            length-drop {0} 64 (take f.header_len input),
            header_size,
            r.header_fits,
            r.nonce_fits,
          ));
    tag_size =
        rw (r.tag_is, r.algorithm_is)
          (omega (
            arith,
            length-drop {0} (length (drop f.header_len input) - tag_len f.algorithm)
                (drop f.header_len input),
            r.tag_there,
          ));
    ciphertext_size = rw (r.algorithm_is, r.plaintext_len_is) r.ciphertext_fits;
  }

-- Of the byte strings, `parse` accepts none but the canonical encoding of what it returns: the header is the
-- one that `build_header` makes for its fields, no byte is left over, and the sizes are those of the
-- suite.
pub parse-IsCanonical :
    (input : Bytes) (e : ParsedEnvelope) → IsBytes input → parse input ≡ ok e → IsCanonical input e
unfolding parse
parse-IsCanonical input e hb h =
    let (fixed, e1, h1) = ok_or-passed (get_prefix 32 input) invalid_format _ h in
    let (f, e2, h2) = >>=-eq-ok (parse_fixed fixed) (λ fields. parse_rest input fields) h1 in
    let prefix = get_prefix-eq-some 32 input fixed e1 in
    canonical input f e (parse_rest-IsRest input f e h2) (
      sym prefix.1
      ∙ fixed_canonical fixed f (rw prefix.1 (All-take _ 32 input hb))
          (rw prefix.1 (omega (arith, length-take {0} 32 input, prefix.0))) e2)
