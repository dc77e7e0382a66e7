-- ===== src/Cascade/Container/Layout.antt =====
-- Where the parts of an envelope lie: what `build_header` makes, and what `parse` finds in it.
use rust_encryption.Common.{
  ℕ, ◌+◌, ◌-◌, ◌≤◌, ◌<◌, ◌^◌, ◌≡◌, refl, true, false, some, ◌++◌, append_assoc, ltb, le→leb, lt→ltb,
  eq→==, arith, Bytes, length, length-append, drop, take-append, drop-append, drop-append_past, ok,
  err, sym, ◌∙◌, Bool-cases, inl, inr, ok-injective,
}
use rust_encryption.Common.Words.{word_mod}
use rust_encryption.Common.Slices.{slice}
use rust_encryption.Cascade.Algorithm.{
  Algorithm, aes256_gcm_siv, nonce_len, tag_len, expected_ciphertext_len,
}
use rust_encryption.Cascade.AppError.{allocation}
use rust_encryption.Cascade.Primitives.{Primitives}
use rust_encryption.Cascade.Container.{
  FixedFields, fixed_header, build_header, parse_rest, parse, get_prefix, get_suffix,
}
use rust_encryption.Cascade.Container.Fixed.{fields, parse_fixed-fixed_header}

pub nonce_len-le : (a : Algorithm) → nonce_len a ≤ 128
unfolding nonce_len
nonce_len-le aes256_gcm_siv = omega arith
nonce_len-le _ = omega arith

pub length-fixed_header : (a : Algorithm) (h n t : ℕ) → length (fixed_header a h n t) ≡ 32
unfolding fixed_header
length-fixed_header a h n t = refl

get_prefix-append : (n : ℕ) (xs ys : Bytes) → length xs ≡ n → get_prefix n (xs ++ ys) ≡ some xs
get_prefix-append n xs ys h =
    rw
      (le→leb n (length (xs ++ ys)) (omega (arith, length-append {0} xs ys)), take-append n xs ys h)

get_suffix-append : (n : ℕ) (xs ys : Bytes) → length xs ≡ n → get_suffix n (xs ++ ys) ≡ some ys
get_suffix-append n xs ys h =
    rw
      (le→leb n (length (xs ++ ys)) (omega (arith, length-append {0} xs ys)), drop-append n xs ys h)

-- The whole header of an envelope.
abbrev pub header_of : Algorithm → ℕ → Bytes → Bytes → Bytes
header_of a n salt nonce = fixed_header a (64 + nonce_len a) (nonce_len a) n ++ (salt ++ nonce)

module _ (a : Algorithm) (n : ℕ) (salt nonce : Bytes) (hs : length salt ≡ 32)
    (hn : length nonce ≡ nonce_len a) where
  pub length-header_of : length (header_of a n salt nonce) ≡ 64 + nonce_len a
  length-header_of = omega (
    arith,
    length-append {0} (fixed_header a (64 + nonce_len a) (nonce_len a) n) (salt ++ nonce),
    length-append {0} salt nonce,
    length-fixed_header a (64 + nonce_len a) (nonce_len a) n,
  )

  pub build_header-eq :
      (p : Primitives)
      → p.reserve (64 + nonce_len a) ≡ true
      → build_header p a n salt nonce ≡ ok (header_of a n salt nonce)
  unfolding build_header
  build_header-eq p room = rw (
    hn,
    lt→ltb (64 + nonce_len a) word_mod (omega (arith, nonce_len-le a)),
    lt→ltb (64 + nonce_len a) (2 ^ 16) (omega (arith, nonce_len-le a)),
    lt→ltb (nonce_len a) (2 ^ 16) (omega (arith, nonce_len-le a)),
    room,
    eq→== _ _ length-header_of,
  )

  build_header_no_memory :
      (p : Primitives)
      → p.reserve (64 + nonce_len a) ≡ false
      → build_header p a n salt nonce ≡ err allocation
  unfolding build_header
  build_header_no_memory p room = rw (
    hn,
    lt→ltb (64 + nonce_len a) word_mod (omega (arith, nonce_len-le a)),
    lt→ltb (64 + nonce_len a) (2 ^ 16) (omega (arith, nonce_len-le a)),
    lt→ltb (nonce_len a) (2 ^ 16) (omega (arith, nonce_len-le a)),
    room,
  )

  pub build_header-eq-ok :
      (p : Primitives) (header : Bytes)
      → build_header p a n salt nonce ≡ ok header
      → header ≡ header_of a n salt nonce
  build_header-eq-ok p header h = elim (Bool-cases (p.reserve (64 + nonce_len a))) [
    | inl room ↦ ok-injective (sym h ∙ build_header-eq p room)
    | inr full ↦ let refused = build_header_no_memory p full in cc
  ]

-- `parse` past the fixed bytes: the salt, the nonce, the ciphertext and the tag are where the
-- lengths say.
pub parse_rest_built :
    (f : FixedFields) (header c tag : Bytes)
    → f.nonce_len ≡ nonce_len f.algorithm
    → f.header_len ≡ 64 + f.nonce_len
    → length header ≡ f.header_len
    → length tag ≡ tag_len f.algorithm
    → expected_ciphertext_len f.algorithm f.plaintext_len ≡ some (length c)
    → parse_rest (header ++ (c ++ tag)) f
      ≡ ok (record {
        algorithm = f.algorithm;
        plaintext_len = f.plaintext_len;
        salt = slice 32 64 header;
        nonce = drop 64 header;
        header = header;
        ciphertext = c;
        tag = tag;
      })
unfolding parse_rest
parse_rest_built f header c tag en eh hh ht hc = rw (
  lt→ltb (64 + f.nonce_len) word_mod (omega (arith, nonce_len-le f.algorithm)),
  eq→== f.nonce_len (nonce_len f.algorithm) en,
  eq→== f.header_len (64 + f.nonce_len) eh,
  get_prefix-append f.header_len header (c ++ tag) hh,
  get_suffix-append f.header_len header (c ++ tag) hh,
  long_enough,
  hc,
  tag_start,
  take-append (length c) c tag refl,
  drop-append (length c) c tag refl,
  eq→== (length c) (length c) refl,
)
  where
    long_enough : ltb (length (c ++ tag)) (tag_len f.algorithm) ≡ false
    long_enough = ground (arith, length-append {0} c tag)

    tag_start : length (c ++ tag) - tag_len f.algorithm ≡ length c
    tag_start = omega (arith, length-append {0} c tag)

module _ (a : Algorithm) (n : ℕ) (salt nonce : Bytes) (hs : length salt ≡ 32) where
  salt_at : slice 32 64 (header_of a n salt nonce) ≡ salt
  salt_at = rw (
    drop-append 32 (fixed_header a (64 + nonce_len a) (nonce_len a) n) (salt ++ nonce)
        (length-fixed_header a _ _ n),
    take-append 32 salt nonce hs,
  )

  nonce_at : drop 64 (header_of a n salt nonce) ≡ nonce
  nonce_at = rw (
    drop-append_past 32 32 (fixed_header a (64 + nonce_len a) (nonce_len a) n) (salt ++ nonce)
        (length-fixed_header a _ _ n),
    drop-append 32 salt nonce hs,
  )

-- `parse` on the header of `build_header`, a ciphertext of the expected size and a tag.
pub parse_built :
    (a : Algorithm) (n : ℕ) (salt nonce c tag : Bytes)
    → n < word_mod
    → length salt ≡ 32
    → length nonce ≡ nonce_len a
    → length tag ≡ tag_len a
    → expected_ciphertext_len a n ≡ some (length c)
    → parse (header_of a n salt nonce ++ (c ++ tag))
      ≡ ok (record {
        algorithm = a;
        plaintext_len = n;
        salt = salt;
        nonce = nonce;
        header = header_of a n salt nonce;
        ciphertext = c;
        tag = tag;
      })
unfolding parse
parse_built a n salt nonce c tag small hs hn ht hc = rw (
  append_assoc (fixed_header a (64 + nonce_len a) (nonce_len a) n) (salt ++ nonce) (c ++ tag),
  get_prefix-append 32 (fixed_header a (64 + nonce_len a) (nonce_len a) n)
      ((salt ++ nonce) ++ (c ++ tag)) (length-fixed_header a _ _ n),
  parse_fixed-fixed_header (64 + nonce_len a) (nonce_len a) n (omega (arith, nonce_len-le a))
      (omega (arith, nonce_len-le a)) small a,
  ← append_assoc (fixed_header a (64 + nonce_len a) (nonce_len a) n) (salt ++ nonce) (c ++ tag),
  parse_rest_built (fields (64 + nonce_len a) (nonce_len a) n a) (header_of a n salt nonce) c tag
      refl refl (length-header_of a n salt nonce hs hn) ht hc,
  salt_at a n salt nonce hs,
  nonce_at a n salt nonce hs,
)
