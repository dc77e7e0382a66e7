-- ===== src/Common/Slices.antt =====
-- Byte ranges of a buffer: `&bytes[lo..hi]` and `bytes[off..].copy_from_slice(src)`.
use Prim.Native.Nat.{ℕ, zero, suc, ◌+◌, ◌-◌, ◌≤◌, ◌<◌}
use mathlib.Core.Path.{◌≡◌, refl, ap, sym, ◌∙◌}
use mathlib.Core.List.{[], ◌∷◌, ◌++◌}
use native.Mathlib.Omega.{arith}
use rust_encryption.Common.Lists.{
  length, get_or, take, drop, Bytes, IsBytes, take-append-drop, drop-drop, All-take, All-drop,
  length-take, length-drop,
}

abbrev pub slice : ℕ → ℕ → Bytes → Bytes
slice lo hi bs = take (hi - lo) (drop lo bs)

-- The source overwrites the bytes from `off` on; the ranges of the code fit their buffers.
abbrev pub copy_at : ℕ → Bytes → Bytes → Bytes
copy_at off src bs = take off bs ++ (src ++ drop (off + length src) bs)

pub slice-IsBytes : (lo hi : ℕ) (bs : Bytes) → IsBytes bs → IsBytes (slice lo hi bs)
slice-IsBytes lo hi bs h = All-take _ (hi - lo) (drop lo bs) (All-drop _ lo bs h)

pub length-slice : (lo hi : ℕ) (bs : Bytes) → hi ≤ length bs → length (slice lo hi bs) ≡ hi - lo
length-slice lo hi bs h =
    omega (arith, length-take {0} (hi - lo) (drop lo bs), length-drop {0} lo bs)

-- What stands from `lo` on is the range up to `hi`, and what stands from `hi` on.
pub drop-slice : (lo hi : ℕ) (bs : Bytes) → lo ≤ hi → drop lo bs ≡ slice lo hi bs ++ drop hi bs
drop-slice lo hi bs h =
    sym (take-append-drop (hi - lo) (drop lo bs))
    ∙ ap (λ (t : Bytes). slice lo hi bs ++ t)
        (drop-drop (hi - lo) lo bs ∙ ap (λ (t : ℕ). drop t bs) {x = lo + (hi - lo)} (omega arith))

-- One byte, and what stands behind it.
pub drop_byte : (i : ℕ) (bs : Bytes) → i < length bs → drop i bs ≡ get_or bs i 0 ∷ drop (suc i) bs
drop_byte i [] h = absurd (omega arith)
drop_byte zero (b ∷ bs) h = refl
drop_byte (suc i) (b ∷ bs) h = drop_byte i bs (omega arith)

pub get_or-lt : (i : ℕ) (bs : Bytes) → IsBytes bs → get_or bs i 0 < 256
get_or-lt i [] h = omega arith
get_or-lt zero (b ∷ bs) h = h.0
get_or-lt (suc i) (b ∷ bs) h = get_or-lt i bs h.1

-- A buffer read from `lo` on, piece by piece: a range, or a byte, and then the rest.
pub slice_step :
    (lo hi : ℕ) (bs : Bytes) {s r : Bytes}
    → lo ≤ hi
    → slice lo hi bs ≡ s
    → drop hi bs ≡ r
    → drop lo bs ≡ s ++ r
slice_step lo hi bs h e q = drop-slice lo hi bs h ∙ cc

pub byte_step :
    (i : ℕ) (bs : Bytes) {b : ℕ} {r : Bytes}
    → i < length bs
    → get_or bs i 0 ≡ b
    → drop (suc i) bs ≡ r
    → drop i bs ≡ b ∷ r
byte_step i bs h e q = drop_byte i bs h ∙ cc
