-- ===== src/Cascade/Primitives.antt =====
-- What `cascade` takes from elsewhere: the allocator, and the crates `hkdf`, `hmac`, `cbc`,
-- `serpent`, `threefish`, `aes-gcm-siv` and `chacha20poly1305`. The operations are parameters of
-- the model, and `PrimitiveLaws` states what their documentation promises.
use rust_encryption.Common.{
  ℕ, ◌+◌, ◌-◌, ◌*◌, ◌/◌, ◌^◌, ◌≤◌, ◌≡◌, Bool, true, Option, some, Bytes, IsBytes, length,
}

-- A block cipher in CBC mode with PKCS#7 padding: `KeyInit::new_from_slice`,
-- `InnerIvInit::inner_iv_slice_init`, `encrypt_padded_b2b` into a buffer of the given size, and
-- `decrypt_padded_b2b`.
pub record BlockMode : Type 0 where
  pub accepts_key : Bytes → Bool
  pub accepts_iv : Bytes → Bool
  pub encrypt_padded : Bytes → Bytes → Bytes → ℕ → Option Bytes
  pub decrypt_padded : Bytes → Bytes → Bytes → Option Bytes

-- An AEAD with a detached tag: `try_from` on the nonce and on the tag, `new_from_slice`,
-- `encrypt_inout_detached` and `decrypt_inout_detached` (key, nonce, header, text, tag).
pub record Aead : Type 0 where
  pub accepts_nonce : Bytes → Bool
  pub accepts_tag : Bytes → Bool
  pub accepts_key : Bytes → Bool
  pub encrypt_detached : Bytes → Bytes → Bytes → Bytes → Option (Bytes × Bytes)
  pub decrypt_detached : Bytes → Bytes → Bytes → Bytes → Bytes → Option Bytes

pub record Primitives : Type 0 where
  -- `Vec::try_reserve_exact` of so many bytes succeeds
  pub reserve : ℕ → Bool
  -- `Hkdf::<Sha512>::extract(Some(salt), ikm)` and then `expand(info, length)`
  pub hkdf_expand : Bytes → Bytes → Bytes → ℕ → Option Bytes
  -- `Hmac<Sha512>`: `new_from_slice`, `finalize` and `verify_slice` on what `update` absorbed
  pub hmac_accepts : Bytes → Bool
  pub hmac_tag : Bytes → Bytes → Bytes
  pub hmac_verify : Bytes → Bytes → Bytes → Bool
  pub serpent : BlockMode
  pub threefish : BlockMode
  pub aes_gcm_siv : Aead
  pub xchacha : Aead

-- `isize::MAX`: no slice and no `Vec` of bytes is longer.
abbrev pub slice_max : ℕ
slice_max = 2 ^ 63 - 1

-- CBC with PKCS#7 takes keys and initialization vectors of its sizes, fills the next whole block of
-- a buffer that can exist, and decrypts what it encrypted.
pub record BlockModeLaws (m : BlockMode) (key_size block : ℕ) : Type 0 where
  pub key_accepted : (k : Bytes) → length k ≡ key_size → m.accepts_key k ≡ true
  pub iv_accepted : (iv : Bytes) → length iv ≡ block → m.accepts_iv iv ≡ true
  pub decrypt-encrypt :
      (k iv text : Bytes)
      → length k ≡ key_size
      → length iv ≡ block
      → (length text / block + 1) * block ≤ slice_max
      → IsBytes text
      → (c : Bytes) × (m.encrypt_padded k iv text ((length text / block + 1) * block) ≡ some c)
        × (length c ≡ (length text / block + 1) * block)
        × IsBytes c
        × (m.decrypt_padded k iv c ≡ some text)

-- For headers and texts up to the size it takes, an AEAD keeps the length of the text, makes a tag
-- of 16 bytes, and decrypts what it encrypted. For longer ones nothing is taken.
pub record AeadLaws (a : Aead) (nonce_size text_max : ℕ) : Type 0 where
  pub nonce_accepted : (n : Bytes) → length n ≡ nonce_size → a.accepts_nonce n ≡ true
  pub tag_accepted : (t : Bytes) → length t ≡ 16 → a.accepts_tag t ≡ true
  pub key_accepted : (k : Bytes) → length k ≡ 32 → a.accepts_key k ≡ true
  pub decrypt-encrypt :
      (k n header text : Bytes)
      → length k ≡ 32
      → length n ≡ nonce_size
      → length header ≤ text_max
      → length text ≤ text_max
      → IsBytes text
      → (c tag : Bytes) × (a.encrypt_detached k n header text ≡ some (c, tag))
        × (length c ≡ length text)
        × (length tag ≡ 16)
        × IsBytes c
        × IsBytes tag
        × (a.decrypt_detached k n header c tag ≡ some text)

-- `P_MAX` and `A_MAX` of `aes-gcm-siv`.
abbrev pub aes_gcm_siv_max : ℕ
aes_gcm_siv_max = 2 ^ 36

-- `chacha20poly1305` takes texts of fewer than 2^32 - 1 whole blocks of 64 bytes.
abbrev pub xchacha_max : ℕ
xchacha_max = (2 ^ 32 - 1) * 64 - 1

pub record PrimitiveLaws (p : Primitives) : Type 0 where
  -- HKDF-SHA-512 gives up to 255 blocks of 64 bytes.
  pub hkdf_expands :
      (salt ikm info : Bytes) (n : ℕ)
      → n ≤ 255 * 64
      → (k : Bytes) × (p.hkdf_expand salt ikm info n ≡ some k) × (length k ≡ n)
  -- HMAC takes keys of any size; `verify_slice` accepts the full tag and nothing else.
  pub hmac_accepted : (k : Bytes) → p.hmac_accepts k ≡ true
  pub hmac_size : (k m : Bytes) → length (p.hmac_tag k m) ≡ 64
  pub hmac_bytes : (k m : Bytes) → IsBytes (p.hmac_tag k m)
  pub hmac_verifies : (k m : Bytes) → p.hmac_verify k m (p.hmac_tag k m) ≡ true
  pub hmac_rejects : (k m t : Bytes) → p.hmac_verify k m t ≡ true → t ≡ p.hmac_tag k m
  pub serpent_laws : BlockModeLaws p.serpent 32 16
  pub threefish_laws : BlockModeLaws p.threefish 128 128
  pub aes_gcm_siv_laws : AeadLaws p.aes_gcm_siv 12 aes_gcm_siv_max
  pub xchacha_laws : AeadLaws p.xchacha 24 xchacha_max

-- The allocator serves the requests of a call, none of which is for more than `room` bytes. `Vec`
-- refuses more than `slice_max` bytes, so that this can hold for `room` up to `slice_max` only.
abbrev pub HasMemory : Primitives → ℕ → Type 0
HasMemory p room = (n : ℕ) → n ≤ room → p.reserve n ≡ true
