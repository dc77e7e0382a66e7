-- ===== src/Cascade/Container/Sizes.antt =====
-- `encrypted_len`, without doing any cryptography, against the parts of the envelope.
use rust_encryption.Common.{ℕ, ◌+◌, ◌*◌, ◌/◌, ◌≤◌, ◌<◌, ◌≡◌, refl, Option, none, some, arith, ok}
use rust_encryption.Common.Words.{word_mod, pad_bounds}
use rust_encryption.Cascade.Algorithm.{
  Algorithm, aes256_gcm_siv, xchacha20_poly1305, serpent256, threefish1024, nonce_len, tag_len,
  padded_len_lem, expected_ciphertext_len,
}
use rust_encryption.Cascade.Container.{encrypted_len}

-- The size is that of the header, the ciphertext and the tag together, and it fits a word.
pub encrypted_len-eq-ok :
    (a : Algorithm) (n size : ℕ)
    → encrypted_len a n ≡ ok size
    → (c : ℕ) × (expected_ciphertext_len a n ≡ some c)
      × (size ≡ 64 + nonce_len a + (c + tag_len a))
      × (size < word_mod)
unfolding encrypted_len
encrypted_len-eq-ok a n size h = go (expected_ciphertext_len a n) refl
  where
    go :
        (o : Option ℕ)
        → expected_ciphertext_len a n ≡ o
        → (c : ℕ) × (expected_ciphertext_len a n ≡ some c)
          × (size ≡ 64 + nonce_len a + (c + tag_len a))
          × (size < word_mod)
    go none e = ground arith
    go (some c) e = (c, e, ground arith, ground arith)

encrypted_len_step :
    (a : Algorithm) (n c : ℕ)
    → expected_ciphertext_len a n ≡ some c
    → 64 + nonce_len a + (c + tag_len a) < word_mod
    → encrypted_len a n ≡ ok (64 + nonce_len a + (c + tag_len a))
unfolding encrypted_len
encrypted_len_step a n c e h = rw e (ground arith)

-- Every suite pads by 128 bytes at most.
expected_total :
    (a : Algorithm) (n : ℕ)
    → n + 128 < word_mod
    → (c : ℕ) × (expected_ciphertext_len a n ≡ some c)
      × (n ≤ c)
      × (c + tag_len a + nonce_len a ≤ n + 320)
      × (n + 28 ≤ c + tag_len a + nonce_len a)
unfolding expected_ciphertext_len tag_len nonce_len
expected_total aes256_gcm_siv n h = (n, refl, omega arith, omega arith, omega arith)
expected_total xchacha20_poly1305 n h = (n, refl, omega arith, omega arith, omega arith)
expected_total serpent256 n h =
    let b = pad_bounds n 16 (omega arith) in
    (
      (n / 16 + 1) * 16,
      (padded_len_lem n 16 (omega arith) (omega arith) _).1 (refl, omega arith),
      omega arith,
      omega arith,
      omega arith,
    )
expected_total threefish1024 n h =
    let b = pad_bounds n 128 (omega arith) in
    (
      (n / 128 + 1) * 128,
      (padded_len_lem n 128 (omega arith) (omega arith) _).1 (refl, omega arith),
      omega arith,
      omega arith,
      omega arith,
    )

-- Where 384 bytes more than the text fit a word, `encrypted_len` states a size, and the envelope is
-- 92 to 384 bytes longer than the text.
pub encrypted_len_bounds :
    (a : Algorithm) (n : ℕ)
    → n + 384 < word_mod
    → (size : ℕ) × (encrypted_len a n ≡ ok size) × (n + 92 ≤ size) × (size ≤ n + 384)
encrypted_len_bounds a n h =
    let (c, e, _, hi, lo) = expected_total a n (omega arith) in
    (
      64 + nonce_len a + (c + tag_len a),
      encrypted_len_step a n c e (omega arith),
      omega arith,
      omega arith,
    )
