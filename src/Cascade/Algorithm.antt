-- ===== src/Cascade/Algorithm.antt =====
-- cascade/src/algorithms/mod.rs: the four suites and their parameters.
use text.Mathlib.Text.{◌==◌ as str_eq}
use native.Mathlib.Nat.{mul-mod_left}
use rust_encryption.Common.{
  ℕ, zero, suc, ◌+◌, ◌*◌, ◌/◌, ◌%◌, ◌≤◌, ◌<◌, String, ◌≡◌, Option, none, some, arith, if◌then◌else◌,
  ◌==◌, and_then, ◌↔◌,
}
use rust_encryption.Common.Words.{
  checked_div, checked_add, checked_mul, word_mod, pad_bounds, pad_unique,
}

pub data Algorithm : Type 0 where
  aes256_gcm_siv xchacha20_poly1305 serpent256 threefish1024 : Algorithm

unfoldable pub from_selector : String → Option Algorithm
from_selector selector =
    if str_eq selector "A"
    then some aes256_gcm_siv
    else if str_eq selector "X"
    then some xchacha20_poly1305
    else if str_eq selector "S"
    then some serpent256
    else if str_eq selector "T"
    then some threefish1024
    else none

unfoldable pub from_id : ℕ → Option Algorithm
from_id id =
    if id == 1
    then some aes256_gcm_siv
    else if id == 2
    then some xchacha20_poly1305
    else if id == 3
    then some serpent256
    else if id == 4
    then some threefish1024
    else none

unfoldable pub id : Algorithm → ℕ
id aes256_gcm_siv = 1
id xchacha20_poly1305 = 2
id serpent256 = 3
id threefish1024 = 4

unfoldable pub suite_id : Algorithm → ℕ
suite_id aes256_gcm_siv = 0x11
suite_id xchacha20_poly1305 = 0x12
suite_id serpent256 = 0x21
suite_id threefish1024 = 0x22

unfoldable pub name : Algorithm → String
name aes256_gcm_siv = "AES-256-GCM-SIV"
name xchacha20_poly1305 = "XChaCha20-Poly1305"
name serpent256 = "Serpent-256"
name threefish1024 = "Threefish-1024"

unfoldable pub key_filename : Algorithm → String
key_filename aes256_gcm_siv = "aes.key"
key_filename xchacha20_poly1305 = "cha.key"
key_filename serpent256 = "ser.key"
key_filename threefish1024 = "thr.key"

unfoldable pub key_len : Algorithm → ℕ
key_len aes256_gcm_siv = 32
key_len xchacha20_poly1305 = 32
key_len serpent256 = 32
key_len threefish1024 = 128

unfoldable pub nonce_len : Algorithm → ℕ
nonce_len aes256_gcm_siv = 12
nonce_len xchacha20_poly1305 = 24
nonce_len serpent256 = 16
nonce_len threefish1024 = 128

unfoldable pub tag_len : Algorithm → ℕ
tag_len aes256_gcm_siv = 16
tag_len xchacha20_poly1305 = 16
tag_len serpent256 = 64
tag_len threefish1024 = 64

unfoldable pub padded_len : ℕ → ℕ → Option ℕ
padded_len plaintext_len block_len =
    and_then (checked_div plaintext_len block_len)
      λ blocks. and_then (checked_add blocks 1) λ blocks'. checked_mul blocks' block_len

unfoldable pub expected_ciphertext_len : Algorithm → ℕ → Option ℕ
unfolding padded_len
expected_ciphertext_len aes256_gcm_siv plaintext_len = some plaintext_len
expected_ciphertext_len xchacha20_poly1305 plaintext_len = some plaintext_len
expected_ciphertext_len serpent256 plaintext_len = padded_len plaintext_len 16
expected_ciphertext_len threefish1024 plaintext_len = padded_len plaintext_len 128

-- A number is read as a suite exactly when it is that suite's identifier.
pub from_id_iff : (n : ℕ) (a : Algorithm) → (from_id n ≡ some a) ↔ (id a ≡ n)
unfolding from_id id
from_id_iff n aes256_gcm_siv = ground arith
from_id_iff n _ = ground arith

pub padded_len_lem :
    (n block : ℕ)
    → 0 < block
    → n < word_mod
    → (m : ℕ) → (padded_len n block ≡ some m) ↔ ((m ≡ (n / block + 1) * block) × (m < word_mod))
unfolding padded_len
padded_len_lem n zero h hn m = absurd (omega arith)
padded_len_lem n (suc b) h hn m =
    let blocks : n / suc b + 1 ≤ (n / suc b + 1) * suc b = grind arith in ground arith

-- For a block of one byte or more and a length of one word: `padded_len` gives exactly the multiple
-- of the block that exceeds the length by one byte at least and by one block at most, if it fits a
-- word.
pub padded_len_iff :
    (n block m : ℕ)
    → 0 < block
    → n < word_mod
    → (padded_len n block ≡ some m) ↔ ((n < m) × (m ≤ n + block) × (m % block ≡ 0) × (m < word_mod))
padded_len_iff n block m pos small = (
  λ h.
      let (size, fits) = (padded_len_lem n block pos small m).0 h in
      rw size (
        (pad_bounds n block pos).0,
        (pad_bounds n block pos).1,
        mul-mod_left (n / block + 1) block,
        rw (← size) fits,
      ),
  λ (lo, hi, whole, fits).
      (padded_len_lem n block pos small m).1 (pad_unique n block m pos lo hi whole, fits),
)
