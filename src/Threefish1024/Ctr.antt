-- ===== src/Threefish1024/Ctr.antt =====
-- threefish1024/src/lib.rs: `ThreefishCtr`, Threefish-1024 in counter mode.
pub mod Stream
pub mod State
pub mod Apply
pub mod Pieces
pub mod Exhausted
use mathlib.Core.List.{flat_map}
use mathlib.Core.Option
use rust_encryption.Common.{
  ℕ, zero, suc, ◌+◌, ◌-◌, ◌<◌, Option, none, some, ◌++◌, List, [], ◌∷◌, ◌==◌, if◌then◌else◌, min,
  Bytes, leb, length, take, drop, replicate, map, Result, ok, err, ◌>>=◌, ok_or,
}
use rust_encryption.Common.Words.{checked_add, to_le_bytes, from_le_bytes}
use rust_encryption.Common.Slices.{slice}
use rust_encryption.Common.Xor.{xor_zip}
use rust_encryption.Threefish1024.Error.{Error, crypto_length}

-- `Threefish1024::encrypt_block_u64` under a key and a tweak: sixteen words to sixteen words.
abbrev pub Cipher : Type 0
Cipher = List ℕ → List ℕ

-- `as_chunks::<8>().0`: the whole chunks of eight bytes, `n` of them at most.
abbrev pub chunks_of_8 : ℕ → Bytes → List Bytes
chunks_of_8 zero bs = []
chunks_of_8 (suc n) bs =
    let rest = take 8 bs ∷ chunks_of_8 n (drop 8 bs) in if leb 8 (length bs) then rest else []

pub record ThreefishCtr : Type 0 where
  pub cipher : Cipher
  pub counter : ℕ
  pub keystream : Bytes
  pub offset : ℕ

-- The words of a key of 128 bytes and of a tweak of 16, little-endian.
unfoldable pub new : (List ℕ → List ℕ → Cipher) → Bytes → Bytes → ThreefishCtr
new new_with_tweak_u64 key tweak =
    let key_words = map from_le_bytes (chunks_of_8 16 key) in
    let tweak_words = map from_le_bytes (chunks_of_8 2 tweak) in
    record {
      cipher = new_with_tweak_u64 key_words tweak_words;
      counter = 0;
      keystream = replicate 128 0;
      offset = 128;
    }

unfoldable pub refill : ThreefishCtr → Result Error ThreefishCtr
refill c = do
  let words = c.cipher (c.counter ∷ replicate 15 0)
  counter ← ok_or (checked_add c.counter 1) crypto_length
  ok (record c { counter = counter; keystream = flat_map (to_le_bytes 8) words; offset = 0 })

-- `if self.offset == BLOCK_LEN { self.refill()?; }`
unfoldable pub refill_if_spent : ThreefishCtr → Result Error ThreefishCtr
refill_if_spent c = if c.offset == 128 then refill c else ok c

-- The body of the loop of `apply_keystream`, past the test for a refill: the bytes done, and the rest.
unfoldable pub consume : ThreefishCtr → Bytes → ThreefishCtr × Bytes × Bytes
consume c bytes =
    let count = min (128 - c.offset) (length bytes) in
    (
      record c { offset = c.offset + count },
      xor_zip (take count bytes) (slice c.offset (c.offset + count) c.keystream),
      drop count bytes,
    )

-- `while !data.is_empty()`, on fuel; `none` means that the fuel ran out. The result is the state
-- and the bytes in place of the given ones.
unfoldable pub apply_loop : ℕ → ThreefishCtr → Bytes → Option (Result Error (ThreefishCtr × Bytes))
apply_loop fuel c [] = some (ok (c, []))
apply_loop zero c (b ∷ bs) = none
apply_loop (suc fuel) c (b ∷ bs) = elim (refill_if_spent c) [
  | err e ↦ some (err e)
  | ok c' ↦
      let (c'', done, rest) = consume c' (b ∷ bs) in
      Option.map (λ r. r >>= λ p. ok (p.0, done ++ p.1)) (apply_loop fuel c'' rest)
]

-- Each round takes a byte at least, so that there are no more rounds than bytes.
unfoldable pub apply_keystream : ThreefishCtr → Bytes → Option (Result Error (ThreefishCtr × Bytes))
unfolding apply_loop
apply_keystream c bytes = apply_loop (length bytes) c bytes
