-- ===== src/Threefish1024/Ctr/Stream.antt =====
-- The key stream by position, without a state: byte `pos` of the stream is byte `pos % 128` of the
-- encryption of the counter `pos / 128`.
use Prim.Native.Nat.{bit_xor}
use mathlib.Core.List.{flat_map}
use rust_encryption.Common.{
  ℕ, suc, ◌+◌, ◌*◌, ◌/◌, ◌%◌, ◌≤◌, ◌<◌, ◌≡◌, refl, ap, ◌∙◌, List, [], ◌∷◌, ◌++◌, arith, replicate,
  Bytes, IsBytes, length, get_or, take, drop, length-append, All-append,
}
use rust_encryption.Common.Words.{to_le_bytes, length-to_le_bytes, to_le_bytes-IsBytes}
use rust_encryption.Common.Slices.{drop_byte, get_or-lt}
use rust_encryption.Common.Xor.{bit_xor-bit_xor, bit_xor-lt, xor_zip}
use rust_encryption.Threefish1024.Ctr.{Cipher}

abbrev pub block : Cipher → ℕ → Bytes
block cipher n = flat_map (to_le_bytes 8) (cipher (n ∷ replicate 15 0))

unfoldable pub stream_at : Cipher → ℕ → ℕ
stream_at cipher pos = get_or (block cipher (pos / 128)) (pos % 128) 0

abbrev pub xor_stream : Cipher → ℕ → Bytes → Bytes
xor_stream cipher pos [] = []
xor_stream cipher pos (b ∷ bs) = bit_xor b (stream_at cipher pos) ∷ xor_stream cipher (suc pos) bs

-- A block cipher of the size of Threefish-1024 keeps the number of words.
abbrev pub IsCipher : Cipher → Type 0
IsCipher cipher = (words : List ℕ) → length words ≡ 16 → length (cipher words) ≡ 16

length-words : (ws : List ℕ) → length (flat_map (to_le_bytes 8) ws) ≡ length ws * 8
unfolding flat_map
length-words [] = refl
length-words (w ∷ ws) =
    length-append (to_le_bytes 8 w) (flat_map (to_le_bytes 8) ws)
    ∙ omega (arith, length-to_le_bytes 8 w, length-words ws)

words-IsBytes : (ws : List ℕ) → IsBytes (flat_map (to_le_bytes 8) ws)
unfolding flat_map
words-IsBytes [] = tt
words-IsBytes (w ∷ ws) =
    All-append _ (to_le_bytes 8 w) _ (to_le_bytes-IsBytes 8 w) (words-IsBytes ws)

pub length-block : (cipher : Cipher) → IsCipher cipher → (n : ℕ) → length (block cipher n) ≡ 128
length-block cipher h n =
    length-words (cipher (n ∷ replicate 15 0)) ∙ ap (λ (t : ℕ). t * 8) (h (n ∷ replicate 15 0) refl)

stream_at-lt : (cipher : Cipher) (pos : ℕ) → stream_at cipher pos < 256
unfolding stream_at
stream_at-lt cipher pos =
    get_or-lt (pos % 128) (block cipher (pos / 128))
      (words-IsBytes (cipher (pos / 128 ∷ replicate 15 0)))

pub length-xor_stream :
    (cipher : Cipher) (pos : ℕ) (bs : Bytes) → length (xor_stream cipher pos bs) ≡ length bs
length-xor_stream cipher pos [] = refl
length-xor_stream cipher pos (b ∷ bs) = ap suc (length-xor_stream cipher (suc pos) bs)

pub xor_stream-IsBytes :
    (cipher : Cipher) (pos : ℕ) (bs : Bytes) → IsBytes bs → IsBytes (xor_stream cipher pos bs)
xor_stream-IsBytes cipher pos [] h = tt
xor_stream-IsBytes cipher pos (b ∷ bs) (hb, h) =
    (bit_xor-lt b _ hb (stream_at-lt cipher pos), xor_stream-IsBytes cipher (suc pos) bs h)

pub xor_stream-xor_stream :
    (cipher : Cipher) (pos : ℕ) (bs : Bytes)
    → IsBytes bs
    → xor_stream cipher pos (xor_stream cipher pos bs) ≡ bs
xor_stream-xor_stream cipher pos [] h = refl
xor_stream-xor_stream cipher pos (b ∷ bs) (hb, h) =
    rw (
      bit_xor-bit_xor b _ hb (stream_at-lt cipher pos),
      xor_stream-xor_stream cipher (suc pos) bs h,
    )

pub xor_stream-append :
    (cipher : Cipher) (pos : ℕ) (xs ys : Bytes)
    → xor_stream cipher pos (xs ++ ys)
      ≡ xor_stream cipher pos xs ++ xor_stream cipher (pos + length xs) ys
xor_stream-append cipher pos [] ys =
    ap (λ (t : ℕ). xor_stream cipher t ys) {x = pos} {y = pos + 0} (omega arith)
xor_stream-append cipher pos (x ∷ xs) ys = ap (◌∷◌ (bit_xor x (stream_at cipher pos))) (
    xor_stream-append cipher (suc pos) xs ys
    ∙ ap (λ (t : ℕ). xor_stream cipher (suc pos) xs ++ xor_stream cipher t ys)
        {x = suc pos + length xs} {y = pos + suc (length xs)} (omega arith))

-- Within a block, the bytes from `o` on are the stream from there on.
pub xor_block :
    (cipher : Cipher)
    → IsCipher cipher
    → (k o : ℕ) (xs : Bytes) → o + length xs ≤ 128
    → xor_zip xs (take (length xs) (drop o (block cipher k))) ≡ xor_stream cipher (k * 128 + o) xs
unfolding stream_at
xor_block cipher hc k o [] h = refl
xor_block cipher hc k o (x ∷ xs) h =
    rw (drop_byte o (block cipher k) (omega (arith, length-block cipher hc k)))
      (rw (here, xor_block cipher hc k (suc o) xs (omega arith)) (rw next refl))
  where
    here : get_or (block cipher k) o 0 ≡ stream_at cipher (k * 128 + o)
    here = rw (q, r)
      where
        q : (k * 128 + o) / 128 ≡ k
        q = omega arith

        r : (k * 128 + o) % 128 ≡ o
        r = omega arith

    next : k * 128 + suc o ≡ suc (k * 128 + o)
    next = omega arith
