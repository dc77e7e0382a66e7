-- ===== src/Cascade/Cbc/RoundTrip.antt =====
-- Sealing and opening under CBC and HMAC are inverse.
use rust_encryption.Common.{
  ℕ, ◌+◌, ◌*◌, ◌/◌, ◌%◌, ◌≤◌, ◌<◌, ◌≡◌, refl, sym, ◌∙◌, eq→==, ◌==◌, true, false, some, ◌++◌, arith,
  Bytes, IsBytes, length, ok,
}
use native.Mathlib.Nat.{mul-mod_left}
use rust_encryption.Common.Words.{word_mod}
use rust_encryption.Cascade.Algorithm.{padded_len, padded_len_lem}
use rust_encryption.Cascade.Primitives.{
  Primitives, PrimitiveLaws, BlockModeLaws, HasMemory, slice_max,
}
use rust_encryption.Cascade.Cbc.{
  CbcSuite, DerivedKeys, derive_keys, mac_for, make_tag, verify_tag, seal, open_sealed,
}

-- The constants of a suite fit one another and the primitives.
pub record Fits (p : Primitives) (s : CbcSuite) : Type 0 where
  pub mode_laws : BlockModeLaws (s.mode p) s.encryption_key_len s.block_len
  pub iv_is_block : s.iv_len ≡ s.block_len
  pub block_pos : 0 < s.block_len
  pub encryption_key_fits : s.encryption_key_len ≤ 255 * 64
  pub authentication_key_fits : s.authentication_key_len ≤ 255 * 64
  pub tag_is_hmac : s.tag_len ≡ 64

pos_mul : (a b : ℕ) → 0 < b → 0 < (a + 1) * b
pos_mul a b h = grind arith

module _ (p : Primitives) (laws : PrimitiveLaws p) (room : ℕ) (memory : HasMemory p room)
    (enough : 64 ≤ room) (s : CbcSuite) (fits : Fits p s) where
  derive_keys_total :
      (master_key salt : Bytes)
      → (keys : DerivedKeys) × (derive_keys p s master_key salt ≡ ok keys)
        × (length keys.encryption ≡ s.encryption_key_len)
  unfolding derive_keys
  derive_keys_total master_key salt =
      let e =
        laws.hkdf_expands salt master_key s.kdf_encryption_info s.encryption_key_len
          fits.encryption_key_fits in
      let a =
        laws.hkdf_expands salt master_key s.kdf_authentication_info s.authentication_key_len
          fits.authentication_key_fits in
      (record { encryption = e.0; authentication = a.0 }, rw (e.1, a.1), e.2)

  make_tag_total :
      (key iv header ciphertext : Bytes)
      → make_tag p s key iv header ciphertext
        ≡ ok (p.hmac_tag key (s.mac_domain ++ (iv ++ (header ++ ciphertext))))
  unfolding make_tag mac_for
  make_tag_total key iv header ciphertext =
      rw (laws.hmac_accepted key, fits.tag_is_hmac, memory 64 enough)

  verify_tag_total :
      (key iv header ciphertext : Bytes)
      → verify_tag p s key iv header ciphertext
          (p.hmac_tag key (s.mac_domain ++ (iv ++ (header ++ ciphertext))))
        ≡ ok tt
  unfolding verify_tag mac_for
  verify_tag_total key iv header ciphertext = rw (laws.hmac_accepted key, laws.hmac_verifies)

  -- `seal` and `open`, once each callee has succeeded.
  seal_step :
      (master_key salt iv header plaintext c tag : Bytes) (keys : DerivedKeys) (size : ℕ)
      → length master_key ≡ s.master_key_len
      → length iv ≡ s.iv_len
      → padded_len (length plaintext) s.block_len ≡ some size
      → derive_keys p s master_key salt ≡ ok keys
      → (s.mode p).accepts_key keys.encryption ≡ true
      → (s.mode p).accepts_iv iv ≡ true
      → p.reserve size ≡ true
      → (s.mode p).encrypt_padded keys.encryption iv plaintext size ≡ some c
      → length c ≡ size
      → make_tag p s keys.authentication iv header c ≡ ok tag
      → seal p s master_key salt iv header plaintext ≡ ok (c, tag)
  unfolding seal
  seal_step master_key salt iv header plaintext c tag keys size hk hi hp hd ha hv hr he hc ht =
      rw (eq→== _ _ hk, eq→== _ _ hi, hp, hd, ha, hv, hr, he, eq→== _ _ hc, ht)

  open_step :
      (master_key salt iv header plaintext c tag : Bytes) (keys : DerivedKeys)
      → length master_key ≡ s.master_key_len
      → length iv ≡ s.iv_len
      → length tag ≡ s.tag_len
      → 0 < length c
      → length c % s.block_len ≡ 0
      → derive_keys p s master_key salt ≡ ok keys
      → verify_tag p s keys.authentication iv header c tag ≡ ok tt
      → (s.mode p).accepts_key keys.encryption ≡ true
      → (s.mode p).accepts_iv iv ≡ true
      → p.reserve (length c) ≡ true
      → (s.mode p).decrypt_padded keys.encryption iv c ≡ some plaintext
      → open_sealed p s master_key salt iv header c tag ≡ ok plaintext
  unfolding open_sealed
  open_step master_key salt iv header plaintext c tag keys hk hi ht hc hm hd hv ha hi' hr he =
      rw (eq→== _ _ hk, eq→== _ _ hi, eq→== _ _ ht, not_zero, eq→== _ _ hm, hd, hv, ha, hi', hr, he)
    where
      not_zero : (length c == 0) ≡ false
      not_zero = ground arith

  pub open_sealed-seal :
      (master_key salt iv header plaintext : Bytes)
      → length master_key ≡ s.master_key_len
      → length iv ≡ s.iv_len
      → IsBytes plaintext
      → length plaintext < word_mod
      → (length plaintext / s.block_len + 1) * s.block_len ≤ slice_max
      → (length plaintext / s.block_len + 1) * s.block_len ≤ room
      → (c tag : Bytes) × (seal p s master_key salt iv header plaintext ≡ ok (c, tag))
        × (length c ≡ (length plaintext / s.block_len + 1) * s.block_len)
        × (length tag ≡ s.tag_len)
        × IsBytes c
        × IsBytes tag
        × (open_sealed p s master_key salt iv header c tag ≡ ok plaintext)
  open_sealed-seal master_key salt iv header plaintext hk hi hb hn fit space =
      let keys = derive_keys_total master_key salt in
      let k = keys.0 in
      let ivb : length iv ≡ s.block_len = hi ∙ fits.iv_is_block in
      let law = fits.mode_laws.decrypt-encrypt k.encryption iv plaintext keys.2 ivb fit hb in
      let c = law.0 in
      let tag = p.hmac_tag k.authentication (s.mac_domain ++ (iv ++ (header ++ c))) in
      let pad =
        (padded_len_lem (length plaintext) s.block_len fits.block_pos hn _).1
          (refl, omega (arith, fit)) in
      let made = make_tag_total k.authentication iv header c in
      let verified = verify_tag_total k.authentication iv header c in
      let key_ok = fits.mode_laws.key_accepted k.encryption keys.2 in
      let iv_ok = fits.mode_laws.iv_accepted iv ivb in
      let reserved = memory _ space in
      (
        c,
        tag,
        seal_step master_key salt iv header plaintext c tag k _ hk hi pad keys.1 key_ok iv_ok
            reserved law.1 law.2 made,
        law.2,
        laws.hmac_size _ _ ∙ sym fits.tag_is_hmac,
        law.3,
        laws.hmac_bytes _ _,
        open_step master_key salt iv header plaintext c tag k hk hi
            (laws.hmac_size _ _ ∙ sym fits.tag_is_hmac) (rw law.2 (pos_mul _ _ fits.block_pos))
            (rw law.2 (mul-mod_left _ _)) keys.1 verified key_ok iv_ok (rw law.2 reserved) law.4,
      )
