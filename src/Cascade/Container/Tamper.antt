-- ===== src/Cascade/Container/Tamper.antt =====
-- What a successful `decrypt` says about the whole input file.
use mathlib.Core.Option.{some-injective}
use rust_encryption.Common.{
  ℕ, ◌≡◌, refl, sym, ap, ◌∙◌, false, not, Option, none, some, ◌++◌, ◌==◌, arith, Bytes, IsBytes,
  length, ok, >>=-eq-ok, fail_if-passed, ok-injective, not_ne→eq,
}
use rust_encryption.Cascade.AppError.{decryption_failed, algorithm_mismatch}
use rust_encryption.Cascade.Algorithm.{
  Algorithm, aes256_gcm_siv, xchacha20_poly1305, serpent256, threefish1024, id, from_id_iff, name,
  key_len,
}
use rust_encryption.Cascade.Primitives.{Primitives, PrimitiveLaws}
use rust_encryption.Cascade.Cbc
use rust_encryption.Cascade.Cbc.{CbcSuite, DerivedKeys}
use rust_encryption.Cascade.Serpent
use rust_encryption.Cascade.Threefish
use rust_encryption.Cascade.Dispatch
use rust_encryption.Cascade.Container.{ParsedEnvelope, parse, decrypt}
use rust_encryption.Cascade.Container.Layout.{header_of}
use rust_encryption.Cascade.Container.Authentic.{parse-IsCanonical}

-- The suites that encrypt in CBC mode and then authenticate with HMAC.
abbrev pub cbc_suite : Algorithm → Option CbcSuite
cbc_suite aes256_gcm_siv = none
cbc_suite xchacha20_poly1305 = none
cbc_suite serpent256 = some Serpent.suite
cbc_suite threefish1024 = some Threefish.suite

same_id : (a b : Algorithm) → not (id a == id b) ≡ false → a ≡ b
same_id a b h =
    let same : id a ≡ id b = ground arith in
    let e : some a ≡ some b =
      sym ((from_id_iff (id a) a).1 refl) ∙ (from_id_iff (id a) b).1 (sym same) in
    ground arith

module _ (p : Primitives) (a : Algorithm) (master_key input text : Bytes) where
  decrypt-eq-ok :
      decrypt p a master_key input ≡ ok text
      → (e : ParsedEnvelope) × (parse input ≡ ok e)
        × (e.algorithm ≡ a)
        × (e.plaintext_len ≡ length text)
        × (Dispatch.open_sealed p a master_key e.salt e.nonce e.header e.ciphertext e.tag ≡ ok text)
  unfolding decrypt
  decrypt-eq-ok h =
      let (_, h1) = fail_if-passed (not (length master_key == key_len a)) decryption_failed _ h in
      let (e, parsed, h2) = >>=-eq-ok (parse input) _ h1 in
      let (t, h3) =
        fail_if-passed (not (id e.algorithm == id a))
          (algorithm_mismatch (name a) (name e.algorithm)) _ h2 in
      let (text', opened, h4) =
        >>=-eq-ok (Dispatch.open_sealed p a master_key e.salt e.nonce e.header e.ciphertext e.tag) _
          h3 in
      let (size, h5) =
        fail_if-passed (not (length text' == e.plaintext_len)) decryption_failed _ h4 in
      let same = ok-injective h5 in
      (
        e,
        parsed,
        same_id e.algorithm a t,
        sym (not_ne→eq (length text') e.plaintext_len size) ∙ ap length same,
        opened ∙ ap ok same,
      )

-- Opening under a CBC suite is opening by that suite's code.
open_by_suite :
    (p : Primitives) (a : Algorithm) (s : CbcSuite) (master_key salt nonce header c tag : Bytes)
    → cbc_suite a ≡ some s
    → Dispatch.open_sealed p a master_key salt nonce header c tag
      ≡ Cbc.open_sealed p s master_key salt nonce header c tag
unfolding Dispatch.open_sealed
open_by_suite p aes256_gcm_siv s k salt nonce header c tag h = cc
open_by_suite p xchacha20_poly1305 s k salt nonce header c tag h = cc
open_by_suite p serpent256 s k salt nonce header c tag h =
    ap (λ (z : CbcSuite). Cbc.open_sealed p z k salt nonce header c tag) (some-injective _ _ h)
open_by_suite p threefish1024 s k salt nonce header c tag h =
    ap (λ (z : CbcSuite). Cbc.open_sealed p z k salt nonce header c tag) (some-injective _ _ h)

-- For primitives that keep their documented laws: if `decrypt` returns a text under Serpent or
-- Threefish from an input of bytes, the input is, byte for byte, the header
-- that encryption makes for a text of that length with the salt and the nonce found there, then a
-- ciphertext, then the HMAC under the derived key of the domain, the nonce, that whole header and
-- that ciphertext; and the text is the decryption of the ciphertext.
pub decrypt-authentic :
    (p : Primitives) (laws : PrimitiveLaws p) (a : Algorithm) (s : CbcSuite)
    (master_key input text : Bytes)
    → cbc_suite a ≡ some s
    → IsBytes input
    → decrypt p a master_key input ≡ ok text
    → (salt nonce c : Bytes) × (keys : DerivedKeys) × (Cbc.derive_keys p s master_key salt
        ≡ ok keys)
      × (input
          ≡ header_of a (length text) salt nonce
            ++ (c
                ++ p.hmac_tag keys.authentication
                    (s.mac_domain ++ (nonce ++ (header_of a (length text) salt nonce ++ c)))))
      × ((s.mode p).decrypt_padded keys.encryption nonce c ≡ some text)
decrypt-authentic p laws a s master_key input text suite hb h =
    let (e, parsed, alg, size, opened) = decrypt-eq-ok p a master_key input text h in
    let whole = parse-IsCanonical input e hb parsed in
    let header : e.header ≡ header_of a (length text) e.salt e.nonce =
      whole.header_built
      ∙ ap (λ (z : Algorithm). header_of z e.plaintext_len e.salt e.nonce) alg
      ∙ ap (λ (n : ℕ). header_of a n e.salt e.nonce) size in
    let (keys, derived, tag, text_of) =
      Cbc.Authentic.open_sealed-authentic p s laws master_key e.salt e.nonce e.header e.ciphertext
        e.tag text
        (sym (open_by_suite p a s master_key e.salt e.nonce e.header e.ciphertext e.tag suite)
          ∙ opened) in
    (
      e.salt,
      e.nonce,
      e.ciphertext,
      keys,
      derived,
      whole.layout
          ∙ ap (λ (t : Bytes). e.header ++ (e.ciphertext ++ t)) tag
          ∙ ap
              (λ (z : Bytes).
                z
                ++ (e.ciphertext
                    ++ p.hmac_tag keys.authentication
                        (s.mac_domain ++ (e.nonce ++ (z ++ e.ciphertext)))))
              header,
      text_of,
    )
