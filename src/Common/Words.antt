-- ===== src/Common/Words.antt =====
-- `usize` and `u64` arithmetic on a 64-bit target, and big- and little-endian encodings.
use Prim.Native.Nat.{ℕ, zero, suc, ◌+◌, ◌*◌, ◌/◌, ◌%◌, ◌^◌, ◌≤◌, ◌<◌}
use mathlib.Core.Path.{◌≡◌, refl, sym, ap, ◌∙◌}
use mathlib.Core.Option.{Option, none, some}
use mathlib.Core.List.{[], ◌∷◌, reverse, reverse-cons, reverse-reverse}
use native.Mathlib.Omega.{arith}
use native.Mathlib.Nat.{pow-suc, lt_of_mul-lt-mul_right, div-add-mod', mod-lt}
use rust_encryption.Common.Tests.{ltb, if◌then◌else◌}
use rust_encryption.Common.Lists.{length, Bytes, IsBytes, length-append, All-append}

abbrev pub word_mod : ℕ
word_mod = 2 ^ 64

-- `checked_add`, `checked_mul`, `checked_div`
abbrev pub checked_add : ℕ → ℕ → Option ℕ
checked_add a b = if ltb (a + b) word_mod then some (a + b) else none

abbrev pub checked_mul : ℕ → ℕ → Option ℕ
checked_mul a b = if ltb (a * b) word_mod then some (a * b) else none

abbrev pub checked_div : ℕ → ℕ → Option ℕ
checked_div a zero = none
checked_div a (suc b) = some (a / suc b)

-- `u16::try_from`
abbrev pub try_u16 : ℕ → Option ℕ
try_u16 n = if ltb n (2 ^ 16) then some n else none

-- `to_le_bytes` and `from_le_bytes` at a width of `w` bytes: least significant byte first.
abbrev pub to_le_bytes : ℕ → ℕ → Bytes
to_le_bytes zero n = []
to_le_bytes (suc w) n = (n % 256) ∷ to_le_bytes w (n / 256)

abbrev pub from_le_bytes : Bytes → ℕ
from_le_bytes [] = 0
from_le_bytes (b ∷ bs) = b + 256 * from_le_bytes bs

-- `to_be_bytes` and `from_be_bytes`: the same bytes in the other order.
abbrev pub to_be_bytes : ℕ → ℕ → Bytes
to_be_bytes w n = reverse (to_le_bytes w n)

abbrev pub from_be_bytes : Bytes → ℕ
from_be_bytes bs = from_le_bytes (reverse bs)

pub length-to_le_bytes : (w n : ℕ) → length (to_le_bytes w n) ≡ w
length-to_le_bytes zero n = refl
length-to_le_bytes (suc w) n = ap suc (length-to_le_bytes w (n / 256))

pub to_le_bytes-IsBytes : (w n : ℕ) → IsBytes (to_le_bytes w n)
to_le_bytes-IsBytes zero n = tt
to_le_bytes-IsBytes (suc w) n = (omega arith, to_le_bytes-IsBytes w (n / 256))

pub from_le_bytes-to_le_bytes : (w n : ℕ) → n < 256 ^ w → from_le_bytes (to_le_bytes w n) ≡ n
from_le_bytes-to_le_bytes zero n h = omega arith
from_le_bytes-to_le_bytes (suc w) n h =
    let p : n < 256 ^ w * 256 = rw (pow-suc 256 w) at h in
    omega (arith, from_le_bytes-to_le_bytes w (n / 256) (omega arith))

pub to_le_bytes-from_le_bytes :
    (bs : Bytes) → IsBytes bs → to_le_bytes (length bs) (from_le_bytes bs) ≡ bs
to_le_bytes-from_le_bytes [] h = refl
to_le_bytes-from_le_bytes (b ∷ bs) (hb, h) =
    rw (head, tail) (ap (◌∷◌ b) (to_le_bytes-from_le_bytes bs h))
  where
    head : (b + 256 * from_le_bytes bs) % 256 ≡ b
    head = omega arith

    tail : (b + 256 * from_le_bytes bs) / 256 ≡ from_le_bytes bs
    tail = omega arith

pub length-reverse : (xs : Bytes) → length (reverse xs) ≡ length xs
length-reverse [] = refl
length-reverse (x ∷ xs) =
    rw reverse-cons (omega (arith, length-append {0} (reverse xs) (x ∷ []), length-reverse xs))

reverse-IsBytes : (xs : Bytes) → IsBytes xs → IsBytes (reverse xs)
reverse-IsBytes [] h = tt
reverse-IsBytes (x ∷ xs) (hx, h) =
    rw reverse-cons (All-append _ (reverse xs) (x ∷ []) (reverse-IsBytes xs h) (hx, tt))

pub length-to_be_bytes : (w n : ℕ) → length (to_be_bytes w n) ≡ w
length-to_be_bytes w n = length-reverse (to_le_bytes w n) ∙ length-to_le_bytes w n

pub to_be_bytes-IsBytes : (w n : ℕ) → IsBytes (to_be_bytes w n)
to_be_bytes-IsBytes w n = reverse-IsBytes (to_le_bytes w n) (to_le_bytes-IsBytes w n)

pub from_be_bytes-to_be_bytes : (w n : ℕ) → n < 256 ^ w → from_be_bytes (to_be_bytes w n) ≡ n
from_be_bytes-to_be_bytes w n h = rw reverse-reverse (from_le_bytes-to_le_bytes w n h)

pub to_be_bytes-from_be_bytes :
    (bs : Bytes) → IsBytes bs → to_be_bytes (length bs) (from_be_bytes bs) ≡ bs
to_be_bytes-from_be_bytes bs h =
    rw (← length-reverse bs, to_le_bytes-from_le_bytes (reverse bs) (reverse-IsBytes bs h))
      (reverse-reverse bs)

-- A byte string of `w` bytes is below `256 ^ w`.
pub from_le_bytes-lt : (bs : Bytes) → IsBytes bs → from_le_bytes bs < 256 ^ length bs
from_le_bytes-lt [] h = omega arith
from_le_bytes-lt (b ∷ bs) (hb, h) = omega (arith, pow-suc 256 (length bs), from_le_bytes-lt bs h)

-- The next whole number of blocks is more than `n`, by a block at most.
pub pad_bounds :
    (n block : ℕ)
    → 0 < block
    → (n < (n / block + 1) * block) × ((n / block + 1) * block ≤ n + block)
pad_bounds n block h = grind arith

-- No other multiple of the block lies there.
pad_quotient :
    (q r k block : ℕ)
    → r < block
    → q * block + r < k * block
    → k * block ≤ q * block + r + block
    → k ≡ q + 1
pad_quotient q r k block hr lo hi =
    let below : q * block < k * block = omega arith in
    let above : k * block < (q + 2) * block = omega arith in
    let more : q < k = lt_of_mul-lt-mul_right block below in
    let less : k < q + 2 = lt_of_mul-lt-mul_right block above in omega arith

pub pad_unique :
    (n block m : ℕ)
    → 0 < block
    → n < m
    → m ≤ n + block
    → m % block ≡ 0
    → m ≡ (n / block + 1) * block
pad_unique n block m pos lo hi e =
    let whole : m / block * block ≡ m = omega (arith, div-add-mod' m block) in
    let parts = div-add-mod' n block in
    sym whole
    ∙ ap (λ (k : ℕ). k * block)
        (pad_quotient (n / block) (n % block) (m / block) block (mod-lt n pos) (omega arith)
          (omega arith))

pub from_be_bytes-lt : (bs : Bytes) → IsBytes bs → from_be_bytes bs < 256 ^ length bs
from_be_bytes-lt bs h =
    rw (← length-reverse bs) (from_le_bytes-lt (reverse bs) (reverse-IsBytes bs h))
