-- ===== src/Common/Fields.antt =====
-- Number fields of a fixed layout: the bytes of a range against the number that they hold.
use Prim.Native.Nat.{ℕ, ◌-◌, ◌^◌, ◌≤◌, ◌<◌}
use mathlib.Core.Path.{◌≡◌, sym, ap, ◌∙◌, subst}
use mathlib.Core.Bool.{true}
use mathlib.Core.List.{append-nil}
use native.Mathlib.Omega.{arith}
use rust_encryption.Common.Tests.{all_zero}
use rust_encryption.Common.Lists.{length, Bytes, IsBytes, drop, replicate, all_zero→eq, drop_all}
use rust_encryption.Common.Words.{
  to_le_bytes, from_le_bytes, to_le_bytes-from_le_bytes, to_be_bytes, from_be_bytes,
  to_be_bytes-from_be_bytes, from_be_bytes-lt,
}
use rust_encryption.Common.Slices.{slice, slice_step, slice-IsBytes, length-slice}

pub le_field :
    (lo hi : ℕ) (bs : Bytes) (n : ℕ)
    → IsBytes bs
    → hi ≤ length bs
    → from_le_bytes (slice lo hi bs) ≡ n
    → slice lo hi bs ≡ to_le_bytes (hi - lo) n
le_field lo hi bs n hb fits e =
    sym (to_le_bytes-from_le_bytes (slice lo hi bs) (slice-IsBytes lo hi bs hb))
    ∙ ap (λ (w : ℕ). to_le_bytes w (from_le_bytes (slice lo hi bs))) (length-slice lo hi bs fits)
    ∙ ap (to_le_bytes (hi - lo)) e

pub be_field :
    (lo hi : ℕ) (bs : Bytes) (n : ℕ)
    → IsBytes bs
    → hi ≤ length bs
    → from_be_bytes (slice lo hi bs) ≡ n
    → slice lo hi bs ≡ to_be_bytes (hi - lo) n
be_field lo hi bs n hb fits e =
    sym (to_be_bytes-from_be_bytes (slice lo hi bs) (slice-IsBytes lo hi bs hb))
    ∙ ap (λ (w : ℕ). to_be_bytes w (from_be_bytes (slice lo hi bs))) (length-slice lo hi bs fits)
    ∙ ap (to_be_bytes (hi - lo)) e

pub be_fits :
    (lo hi : ℕ) (bs : Bytes)
    → IsBytes bs
    → hi ≤ length bs
    → from_be_bytes (slice lo hi bs) < 256 ^ (hi - lo)
be_fits lo hi bs hb fits =
    subst (λ (w : ℕ). from_be_bytes (slice lo hi bs) < 256 ^ w) (length-slice lo hi bs fits)
      (from_be_bytes-lt (slice lo hi bs) (slice-IsBytes lo hi bs hb))

-- A range of zeros, and zeros up to the end.
pub zeros :
    (lo hi : ℕ) (bs : Bytes)
    → hi ≤ length bs
    → all_zero (slice lo hi bs) ≡ true
    → slice lo hi bs ≡ replicate (hi - lo) 0
zeros lo hi bs fits h =
    all_zero→eq (slice lo hi bs) h ∙ ap (λ (w : ℕ). replicate w 0) (length-slice lo hi bs fits)

pub zeros_end :
    (lo hi : ℕ) (bs : Bytes)
    → length bs ≡ hi
    → lo ≤ hi
    → all_zero (slice lo hi bs) ≡ true
    → drop lo bs ≡ replicate (hi - lo) 0
zeros_end lo hi bs size h z =
    slice_step lo hi bs h (zeros lo hi bs (omega arith) z) (drop_all hi bs (omega arith))
    ∙ append-nil (replicate (hi - lo) 0)
