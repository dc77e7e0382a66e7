-- ===== src/Threefish1024/Deps.antt =====
-- What threefish1024/src/lib.rs calls and does not contain: HKDF, HMAC-SHA-512 fed piece by piece,
-- the block cipher, and reads and writes of open files.
use rust_encryption.Common.{
  ℕ, ◌≤◌, ◌<◌, ◌≡◌, Bool, true, Option, some, List, [], ◌++◌, Bytes, length, ◌↔◌,
}
use rust_encryption.Threefish1024.Ctr.{Cipher}

-- `read_exact`: the bytes, `UnexpectedEof`, or another failure.
pub data Exact (S : Type 0) : Type 0 where
  filled : S → Bytes → Exact S
  unexpected_eof failed : Exact S

pub record Deps : Type 1 where
  pub hkdf_expand : Bytes → Bytes → Bytes → ℕ → Option Bytes
  pub new_with_tweak_u64 : List ℕ → List ℕ → Cipher
  pub Mac : Type 0
  pub mac_new : Bytes → Option Mac
  pub mac_update : Mac → Bytes → Mac
  pub mac_finalize : Mac → Bytes
  pub mac_verify : Mac → Bytes → Bool
  pub Source : Type 0
  pub read : ℕ → Source → Option (Source × Bytes)
  pub read_exact : ℕ → Source → Exact Source
  -- `seek(SeekFrom::Start(n))`
  pub seek : ℕ → Source → Option Source
  -- `getrandom::fill` on `n` bytes, in the call of this number.
  pub fill : ℕ → ℕ → Option Bytes
  -- Whether the write that makes these bytes the content of the output succeeds, and the flush.
  pub can_write : Bytes → Bool
  pub can_flush : Bytes → Bool

-- Documented behaviour: a MAC depends on the bytes and not on how they are cut, and verifies its own
-- value alone; a reader yields its content in order, and an empty read of a non-empty buffer is the
-- end; the block cipher has sixteen words; a filled
-- buffer keeps its size.
pub record DepsLaws (d : Deps) : Type 0 where
  pub update_nil : (m : d.Mac) → d.mac_update m [] ≡ m
  pub update_update :
      (m : d.Mac) (xs ys : Bytes) → d.mac_update (d.mac_update m xs) ys ≡ d.mac_update m (xs ++ ys)
  pub verify_iff :
      (m : d.Mac) (tag : Bytes) → (d.mac_verify m tag ≡ true) ↔ (d.mac_finalize m ≡ tag)
  pub content : d.Source → Bytes
  pub read_content :
      (n : ℕ) (s s' : d.Source) (bs : Bytes)
      → d.read n s ≡ some (s', bs)
      → (content s ≡ bs ++ content s') × (length bs ≤ n)
  pub read_end : (n : ℕ) (s s' : d.Source) → 0 < n → d.read n s ≡ some (s', []) → content s ≡ []
  pub exact_content :
      (n : ℕ) (s s' : d.Source) (bs : Bytes)
      → d.read_exact n s ≡ filled s' bs
      → (content s ≡ bs ++ content s') × (length bs ≡ n)
  pub cipher_size :
      (key tweak words : List ℕ)
      → length words ≡ 16
      → length (d.new_with_tweak_u64 key tweak words) ≡ 16
  pub fill_size : (i n : ℕ) (bs : Bytes) → d.fill i n ≡ some bs → length bs ≡ n
