-- ===== src/Cascade/Container/RoundTrip.antt =====
-- `decrypt` against `encrypt_with_material`.
use mathlib.Core.Path.{subst}
use rust_encryption.Common.{
  ℕ, ◌<◌, ◌≡◌, ◌≢◌, refl, sym, ap, ◌∙◌, true, false, some, ◌++◌, ◌==◌, eq→==, ==→eq, Bool-cases,
  inl, inr, arith, Bytes, IsBytes, length, length-append, ok, err, ◌≤◌, not, ◌||◌, >>=-eq-ok,
  fail_if-passed, ok_or-passed, ok-injective,
}
use rust_encryption.Common.Words.{word_mod}
use rust_encryption.Cascade.AppError.{algorithm_mismatch, allocation}
use rust_encryption.Cascade.Algorithm.{
  Algorithm, aes256_gcm_siv, id, name, from_id_iff, key_len, nonce_len, tag_len,
  expected_ciphertext_len,
}
use rust_encryption.Cascade.Primitives.{Primitives, PrimitiveLaws, HasMemory}
use rust_encryption.Cascade.Dispatch
use rust_encryption.Cascade.Dispatch.RoundTrip.{text_max, text_max-lt}
use rust_encryption.Cascade.Container.{
  build_header, encrypted_len, encrypt_with_material, ParsedEnvelope, parse, decrypt,
}
use rust_encryption.Cascade.Container.Layout.{
  header_of, length-header_of, build_header-eq, build_header-eq-ok, nonce_len-le, parse_built,
}
use rust_encryption.Cascade.Container.Sizes.{encrypted_len-eq-ok}

-- `encrypt_with_material` and `decrypt`, once each callee has succeeded.
encrypt_step :
    (p : Primitives) (a : Algorithm) (master_key plaintext salt nonce header c tag : Bytes)
    (size : ℕ)
    → length master_key ≡ key_len a
    → length nonce ≡ nonce_len a
    → build_header p a (length plaintext) salt nonce ≡ ok header
    → expected_ciphertext_len a (length plaintext) ≡ some (length c)
    → Dispatch.seal p a master_key salt nonce header plaintext ≡ ok (c, tag)
    → length tag ≡ tag_len a
    → encrypted_len a (length plaintext) ≡ ok size
    → p.reserve size ≡ true
    → encrypt_with_material p a master_key plaintext salt nonce ≡ ok (header ++ (c ++ tag))
unfolding encrypt_with_material
encrypt_step p a master_key plaintext salt nonce header c tag size hk hn hb he hs ht hl hr =
    rw (
      eq→== _ _ hk,
      eq→== _ _ hn,
      hb,
      he,
      hs,
      eq→== (length c) (length c) refl,
      eq→== _ _ ht,
      hl,
      hr,
    )

decrypt_step :
    (p : Primitives) (a : Algorithm) (master_key plaintext input : Bytes) (e : ParsedEnvelope)
    → length master_key ≡ key_len a
    → parse input ≡ ok e
    → e.algorithm ≡ a
    → Dispatch.open_sealed p a master_key e.salt e.nonce e.header e.ciphertext e.tag ≡ ok plaintext
    → length plaintext ≡ e.plaintext_len
    → decrypt p a master_key input ≡ ok plaintext
unfolding decrypt
decrypt_step p a master_key plaintext input e hk hp ha ho hl =
    rw (eq→== _ _ hk, hp, eq→== _ _ (ap id ha), ho, eq→== _ _ hl)

-- Two sizes that a test has compared.
both_eq : (m n i j : ℕ) → (not (m == n) || not (i == j)) ≡ false → (m ≡ n) × (i ≡ j)
both_eq m n i j h = (ground arith, ground arith)

tag_fits : (a : Algorithm) → tag_len a ≤ 64
unfolding tag_len
tag_fits aes256_gcm_siv = omega arith
tag_fits _ = omega arith

id-injective : (a b : Algorithm) → a ≢ b → (id a == id b) ≡ false
id-injective a b h = elim (Bool-cases (id a == id b)) [
  | inl same ↦
      let e : some a ≡ some b =
        sym ((from_id_iff (id a) a).1 refl)
        ∙ (from_id_iff (id a) b).1 (sym (==→eq (id a) (id b) same)) in
      absurd (h (ground arith))
  | inr differ ↦ differ
]

-- The refusal of a suite that was not selected comes before any cryptography.
pub decrypt_mismatch :
    (p : Primitives) (selected : Algorithm) (master_key input : Bytes) (e : ParsedEnvelope)
    → length master_key ≡ key_len selected
    → parse input ≡ ok e
    → e.algorithm ≢ selected
    → decrypt p selected master_key input
      ≡ err (algorithm_mismatch (name selected) (name e.algorithm))
unfolding decrypt
decrypt_mismatch p selected master_key input e hk hp h =
    rw (eq→== _ _ hk, hp, id-injective e.algorithm selected h)

module _ (p : Primitives) (laws : PrimitiveLaws p) (a : Algorithm)
    (master_key plaintext salt nonce : Bytes) (size : ℕ) (memory : HasMemory p size)
    (hk : length master_key ≡ key_len a) (hs : length salt ≡ 32) (hn : length nonce ≡ nonce_len a)
    (hb : IsBytes plaintext) (taken : length plaintext ≤ text_max a)
    (hl : encrypted_len a (length plaintext) ≡ ok size) where
  -- The envelope, with its parts.
  abbrev Built : Bytes → Bytes → Type 0
  Built c tag =
      (encrypt_with_material p a master_key plaintext salt nonce
        ≡ ok (header_of a (length plaintext) salt nonce ++ (c ++ tag)))
      × (length (header_of a (length plaintext) salt nonce ++ (c ++ tag)) ≡ size)
      × (parse (header_of a (length plaintext) salt nonce ++ (c ++ tag))
          ≡ ok (record {
            algorithm = a;
            plaintext_len = length plaintext;
            salt = salt;
            nonce = nonce;
            header = header_of a (length plaintext) salt nonce;
            ciphertext = c;
            tag = tag;
          }))
      × (Dispatch.open_sealed p a master_key salt nonce (header_of a (length plaintext) salt nonce)
            c tag
          ≡ ok plaintext)
      × IsBytes c
      × IsBytes tag

  pub built : (c tag : Bytes) × Built c tag
  built =
      let small : length plaintext < word_mod = omega (arith, taken, text_max-lt a) in
      let sizes = encrypted_len-eq-ok a (length plaintext) size hl in
      let header = header_of a (length plaintext) salt nonce in
      let header_size = length-header_of a (length plaintext) salt nonce hs hn in
      let sealed =
        Dispatch.RoundTrip.open_sealed-seal p laws size memory a master_key salt nonce header
          plaintext sizes.0 hk hn hb (omega (arith, header_size, nonce_len-le a)) small taken
          (omega (arith, sizes.2, tag_fits a)) sizes.1 in
      let c = sealed.0 in
      let tag = sealed.1 in
      let expected = sizes.1 ∙ ap some (sym sealed.3) in
      let header_made =
        build_header-eq a (length plaintext) salt nonce hs hn p
          (memory _ (omega (arith, sizes.2))) in
      (
        c,
        tag,
        (
          encrypt_step p a master_key plaintext salt nonce header c tag size hk hn header_made
              expected sealed.2 sealed.4 hl (memory size (omega arith)),
          omega (
            arith,
            length-append {0} header (c ++ tag),
            length-append {0} c tag,
            sealed.3,
            sealed.4,
            sizes.2,
            header_size,
          ),
          parse_built a (length plaintext) salt nonce c tag small hs hn sealed.4 expected,
          sealed.7,
          sealed.5,
          sealed.6,
        ),
      )

  -- For primitives that keep their documented laws: take a key and a nonce of the suite's sizes, a
  -- salt of 32 bytes, and a byte string that is no longer than the crate of the suite takes and for
  -- which `encrypted_len` states a size of envelope. Where the allocator serves requests up to
  -- that size, the byte string is encrypted, into an envelope of exactly that size, and the envelope
  -- decrypts to the byte string under the same suite and key.
  pub decrypt-encrypt :
      (input : Bytes) × (encrypt_with_material p a master_key plaintext salt nonce ≡ ok input)
      × (length input ≡ size)
      × (decrypt p a master_key input ≡ ok plaintext)
  decrypt-encrypt =
      let (c, tag, parts) = built in
      let (made, total, parsed, opened, _, _) = parts in
      (
        header_of a (length plaintext) salt nonce ++ (c ++ tag),
        made,
        total,
        decrypt_step p a master_key plaintext _ _ hk parsed refl opened refl,
      )

module _ (p : Primitives) (a : Algorithm) (master_key plaintext salt nonce : Bytes)
    (hs : length salt ≡ 32) where
  -- What a successful encryption returned: the header, and a ciphertext and a tag of their sizes.
  encrypt_with_material-eq-ok :
      (input : Bytes)
      → encrypt_with_material p a master_key plaintext salt nonce ≡ ok input
      → (c tag : Bytes) × (length nonce ≡ nonce_len a)
        × (expected_ciphertext_len a (length plaintext) ≡ some (length c))
        × (length tag ≡ tag_len a)
        × (header_of a (length plaintext) salt nonce ++ (c ++ tag) ≡ input)
  unfolding encrypt_with_material
  encrypt_with_material-eq-ok input h =
      let (sizes, h1) = fail_if-passed _ _ _ h in
      let (header, built, h2) = >>=-eq-ok (build_header p a (length plaintext) salt nonce) _ h1 in
      let (expected, e, h3) = ok_or-passed _ _ _ h2 in
      let (sealed, _, h4) =
        >>=-eq-ok (Dispatch.seal p a master_key salt nonce header plaintext) _ h3 in
      let (fits, h5) = fail_if-passed _ _ _ h4 in
      let (output_len, _, h6) = >>=-eq-ok (encrypted_len a (length plaintext)) _ h5 in
      let (_, h7) =
        fail_if-passed (not (p.reserve output_len)) allocation
          (λ _. ok (header ++ (sealed.0 ++ sealed.1))) h6 in
      let hn = both_eq _ _ (length nonce) (nonce_len a) sizes in
      let lengths = both_eq (length sealed.0) expected (length sealed.1) (tag_len a) fits in
      let made = build_header-eq-ok a (length plaintext) salt nonce hs hn.1 p header built in
      (
        sealed.0,
        sealed.1,
        hn.1,
        e ∙ ap some (sym lengths.0),
        lengths.1,
        ap (λ front. front ++ (sealed.0 ++ sealed.1)) (sym made) ∙ ok-injective h7,
      )

  -- What encryption returned for a salt of 32 bytes and a byte string whose size fits a word is
  -- refused under any other suite, with any key of that suite's size, by the names of both suites.
  -- Nothing is taken of the primitives.
  pub decrypt-encrypt_other :
      (other : Algorithm) (other_key input : Bytes)
      → length plaintext < word_mod
      → other ≢ a
      → length other_key ≡ key_len other
      → encrypt_with_material p a master_key plaintext salt nonce ≡ ok input
      → decrypt p other other_key input ≡ err (algorithm_mismatch (name other) (name a))
  decrypt-encrypt_other other other_key input small ne ho hi =
      let (c, tag, hn, expected, ht, same) = encrypt_with_material-eq-ok input hi in
      subst (λ i. decrypt p other other_key i ≡ err (algorithm_mismatch (name other) (name a))) same
        (decrypt_mismatch p other other_key _ _ ho
          (parse_built a (length plaintext) salt nonce c tag small hs hn ht expected)
          (λ e. ne (sym e)))
