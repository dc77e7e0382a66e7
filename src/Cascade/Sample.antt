-- ===== src/Cascade/Sample.antt =====
-- Concrete primitives that meet the hypotheses: padding without encryption, and a checksum as MAC.
use rust_encryption.Common.{
  ℕ, suc, ◌+◌, ◌-◌, ◌*◌, ◌/◌, ◌%◌, ◌<◌, ◌≡◌, refl, ap, true, Option, some, ◌++◌, [], ◌∷◌, arith,
  bytes_eq, bytes_eq→eq, bytes_eq_refl, Bytes, IsBytes, All-append, All-replicate, length,
  length-append, length-replicate, last_or, last_or-append_replicate, replicate, take, take-append,
}
use rust_encryption.Common.Words.{pad_bounds}
use rust_encryption.Cascade.Primitives.{
  BlockMode, Aead, Primitives, BlockModeLaws, AeadLaws, PrimitiveLaws, HasMemory, aes_gcm_siv_max,
  xchacha_max,
}

abbrev sum : Bytes → ℕ
sum [] = 0
sum (b ∷ bs) = b + sum bs

abbrev pad_only : BlockMode
pad_only = record {
  accepts_key = λ k. true;
  accepts_iv = λ iv. true;
  encrypt_padded =
      λ k iv text room. some (text ++ replicate (room - length text) (room - length text));
  decrypt_padded = λ k iv c. some (take (length c - last_or 0 c) c);
}

abbrev tag_only : Aead
tag_only = record {
  accepts_nonce = λ n. true;
  accepts_tag = λ t. true;
  accepts_key = λ k. true;
  encrypt_detached = λ k n header text. some (text, replicate 16 0);
  decrypt_detached = λ k n header c tag. some c;
}

abbrev checksum : Bytes → Bytes
checksum m = (sum m % 256) ∷ replicate 63 0

abbrev pub sample : Primitives
sample = record {
  reserve = λ n. true;
  hkdf_expand = λ salt ikm info n. some (replicate n 0);
  hmac_accepts = λ k. true;
  hmac_tag = λ k m. checksum m;
  hmac_verify = λ k m t. bytes_eq t (checksum m);
  serpent = pad_only;
  threefish = pad_only;
  aes_gcm_siv = tag_only;
  xchacha = tag_only;
}

unpad :
    (text : Bytes) (n : ℕ)
    → take
        (length (text ++ replicate (suc n) (suc n)) - last_or 0 (text ++ replicate (suc n) (suc n)))
        (text ++ replicate (suc n) (suc n))
      ≡ text
unpad text n =
    rw (last_or-append_replicate 0 (suc n) text n)
      (take-append _ text (replicate (suc n) (suc n)) size)
  where
    size : length text ≡ length (text ++ replicate (suc n) (suc n)) - suc n
    size = omega (
      arith,
      length-append {0} text (replicate (suc n) (suc n)),
      length-replicate {0} (suc n) (suc n),
    )

padded :
    (text : Bytes) (room : ℕ)
    → length text < room
    → room - length text < 256
    → IsBytes text
    → (c : Bytes) × (◌≡◌ {A = Option Bytes}
        (some (text ++ replicate (room - length text) (room - length text)))
        (some c))
      × (length c ≡ room)
      × IsBytes c
      × (◌≡◌ {A = Option Bytes} (some (take (length c - last_or 0 c) c)) (some text))
padded text room fits small hb =
    let gap : room - length text ≡ suc (room - length text - 1) = omega arith in
    rw gap (
      text ++ replicate (suc (room - length text - 1)) (suc (room - length text - 1)),
      refl,
      omega (
        arith,
        length-append {0} text
            (replicate (suc (room - length text - 1)) (suc (room - length text - 1))),
        length-replicate {0} (room - length text - 1) (suc (room - length text - 1)),
      ),
      All-append _ text _ hb (All-replicate _ (suc (room - length text - 1)) _ (omega arith)),
      ap some (unpad text (room - length text - 1)),
    )

pad_only_laws :
    (key_size block : ℕ) → 0 < block → block < 256 → BlockModeLaws pad_only key_size block
pad_only_laws key_size block pos small = record {
  key_accepted = λ k h. refl;
  iv_accepted = λ iv h. refl;
  decrypt-encrypt = λ k iv text hk hi hf hb.
      padded text ((length text / block + 1) * block) (pad_bounds (length text) block pos).0
        (omega (arith, pad_bounds (length text) block pos)) hb;
}

tag_only_laws : (nonce_size text_max : ℕ) → AeadLaws tag_only nonce_size text_max
tag_only_laws nonce_size text_max = record {
  nonce_accepted = λ n h. refl;
  tag_accepted = λ t h. refl;
  key_accepted = λ k h. refl;
  decrypt-encrypt = λ k n header text hk hn hh ht hb. (
    text,
    replicate 16 0,
    refl,
    refl,
    refl,
    hb,
    All-replicate (λ (b : ℕ). b < 256) 16 0 (omega arith),
    refl,
  );
}

pub sample_laws : PrimitiveLaws sample
sample_laws = record {
  hkdf_expands = λ salt ikm info n h. (replicate n 0, refl, length-replicate n 0);
  hmac_accepted = λ k. refl;
  hmac_size = λ k m. refl;
  hmac_bytes = λ k m. (omega arith, All-replicate (λ (b : ℕ). b < 256) 63 0 (omega arith));
  hmac_verifies = λ k m. bytes_eq_refl (checksum m);
  hmac_rejects = λ k m t h. bytes_eq→eq t (checksum m) h;
  serpent_laws = pad_only_laws 32 16 (omega arith) (omega arith);
  threefish_laws = pad_only_laws 128 128 (omega arith) (omega arith);
  aes_gcm_siv_laws = tag_only_laws 12 aes_gcm_siv_max;
  xchacha_laws = tag_only_laws 24 xchacha_max;
}

pub sample_memory : (room : ℕ) → HasMemory sample room
sample_memory room n h = refl
