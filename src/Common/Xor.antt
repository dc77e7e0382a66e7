-- ===== src/Common/Xor.antt =====
-- `^=` on bytes and on byte strings.
use Prim.Native.Nat.{
  ℕ, zero, suc, ◌+◌, ◌*◌, ◌/◌, ◌%◌, ◌^◌, ◌≤◌, ◌<◌, bit_xor, digits, differ, bit_xor-bitwise,
}
use mathlib.Core.Path.{◌≡◌, refl, ap, ◌∙◌}
use mathlib.Core.List.{[], ◌∷◌, ◌++◌}
use native.Mathlib.Omega.{arith}
use native.Mathlib.Nat.{pow-suc}
use rust_encryption.Common.Lists.{length, Bytes, IsBytes}

abbrev xor_digits : ℕ → ℕ → ℕ → ℕ
xor_digits n a b = digits (λ b. b) differ n a b

xor_digits_fuel : (n m a b : ℕ) → a ≤ n → a ≤ m → xor_digits n a b ≡ xor_digits m a b
xor_digits_fuel zero zero a b p q = refl
xor_digits_fuel zero (suc m) zero b p q = refl
xor_digits_fuel zero (suc m) (suc a) b p q = absurd (omega arith)
xor_digits_fuel (suc n) zero zero b p q = refl
xor_digits_fuel (suc n) zero (suc a) b p q = absurd (omega arith)
xor_digits_fuel (suc n) (suc m) zero b p q = refl
xor_digits_fuel (suc n) (suc m) (suc a) b p q =
    rw (xor_digits_fuel n m (suc a / 2) (b / 2) (omega arith) (omega arith))

-- The law for the lowest binary digit.
bit_xor_step : (a b : ℕ) → bit_xor a b ≡ bit_xor (a / 2) (b / 2) * 2 + differ (a % 2) (b % 2)
bit_xor_step zero b = simp bit_xor-bitwise (omega arith)
bit_xor_step (suc a) b = omega (
  arith,
  bit_xor-bitwise (suc a) b,
  bit_xor-bitwise (suc a / 2) (b / 2),
  xor_digits_fuel a (suc a / 2) (suc a / 2) (b / 2) (omega arith) (omega arith),
)

differ-lt : (x y : ℕ) → x < 2 → y < 2 → differ x y < 2
differ-lt zero y hx hy = hy
differ-lt (suc x) zero hx hy = hx
differ-lt (suc zero) (suc y) hx hy = omega arith
differ-lt (suc (suc x)) (suc y) hx hy = absurd (omega arith)

differ-differ : (x y : ℕ) → x < 2 → y < 2 → differ (differ x y) y ≡ x
differ-differ zero zero hx hy = refl
differ-differ zero (suc zero) hx hy = refl
differ-differ (suc zero) zero hx hy = refl
differ-differ (suc zero) (suc zero) hx hy = refl
differ-differ x (suc (suc y)) hx hy = absurd (omega arith)
differ-differ (suc (suc x)) zero hx hy = absurd (omega arith)
differ-differ (suc (suc x)) (suc zero) hx hy = absurd (omega arith)

-- Digit by digit: `k` of them for numbers below `2 ^ k`.
bit_xor-lt_pow : (k a b : ℕ) → a < 2 ^ k → b < 2 ^ k → bit_xor a b < 2 ^ k
bit_xor-lt_pow zero zero zero ha hb = omega (arith, bit_xor-bitwise 0 0)
bit_xor-lt_pow zero zero (suc b) ha hb = absurd (omega arith)
bit_xor-lt_pow zero (suc a) b ha hb = absurd (omega arith)
bit_xor-lt_pow (suc k) a b ha hb =
    let p : a < 2 ^ k * 2 = rw (pow-suc 2 k) at ha in
    let q : b < 2 ^ k * 2 = rw (pow-suc 2 k) at hb in
    rw (pow-suc 2 k, bit_xor_step a b)
      (ground (arith, bit_xor-lt_pow k (a / 2) (b / 2), differ-lt (a % 2) (b % 2)))

bit_xor-bit_xor_pow : (k a b : ℕ) → a < 2 ^ k → b < 2 ^ k → bit_xor (bit_xor a b) b ≡ a
bit_xor-bit_xor_pow zero zero zero ha hb = refl
bit_xor-bit_xor_pow zero zero (suc b) ha hb = absurd (omega arith)
bit_xor-bit_xor_pow zero (suc a) b ha hb = absurd (omega arith)
bit_xor-bit_xor_pow (suc k) a b ha hb =
    bit_xor_step (bit_xor a b) b
    ∙ rw (half, digit)
        (omega (
          arith,
          bit_xor-bit_xor_pow k (a / 2) (b / 2) (omega arith) (omega arith),
          differ-differ (a % 2) (b % 2) (omega arith) (omega arith),
        ))
  where
    small : differ (a % 2) (b % 2) < 2
    small = differ-lt (a % 2) (b % 2) (omega arith) (omega arith)

    half : bit_xor a b / 2 ≡ bit_xor (a / 2) (b / 2)
    half = omega (arith, bit_xor_step a b, small)

    digit : bit_xor a b % 2 ≡ differ (a % 2) (b % 2)
    digit = omega (arith, bit_xor_step a b, small)

pub bit_xor-lt : (a b : ℕ) → a < 256 → b < 256 → bit_xor a b < 256
bit_xor-lt = bit_xor-lt_pow 8

pub bit_xor-bit_xor : (a b : ℕ) → a < 256 → b < 256 → bit_xor (bit_xor a b) b ≡ a
bit_xor-bit_xor = bit_xor-bit_xor_pow 8

-- `for (byte, key_byte) in data.iter_mut().zip(key) { *byte ^= key_byte; }`: bytes behind the end
-- of the key stay.
abbrev pub xor_zip : Bytes → Bytes → Bytes
xor_zip [] key = []
xor_zip (x ∷ xs) [] = x ∷ xs
xor_zip (x ∷ xs) (k ∷ key) = bit_xor x k ∷ xor_zip xs key

pub length-xor_zip : (xs key : Bytes) → length (xor_zip xs key) ≡ length xs
length-xor_zip [] key = refl
length-xor_zip (x ∷ xs) [] = refl
length-xor_zip (x ∷ xs) (k ∷ key) = ap suc (length-xor_zip xs key)

pub xor_zip-IsBytes : (xs key : Bytes) → IsBytes xs → IsBytes key → IsBytes (xor_zip xs key)
xor_zip-IsBytes [] key h hk = tt
xor_zip-IsBytes (x ∷ xs) [] h hk = h
xor_zip-IsBytes (x ∷ xs) (k ∷ key) (hx, h) (hk, hks) =
    (bit_xor-lt x k hx hk, xor_zip-IsBytes xs key h hks)

-- The same key takes a byte string back.
pub xor_zip-xor_zip :
    (xs key : Bytes) → IsBytes xs → IsBytes key → xor_zip (xor_zip xs key) key ≡ xs
xor_zip-xor_zip [] key h hk = refl
xor_zip-xor_zip (x ∷ xs) [] h hk = refl
xor_zip-xor_zip (x ∷ xs) (k ∷ key) (hx, h) (hk, hks) =
    rw (bit_xor-bit_xor x k hx hk, xor_zip-xor_zip xs key h hks)

-- Cutting data and key at one place cuts the result there.
pub xor_zip-append :
    (xs ys ks ls : Bytes)
    → length xs ≡ length ks
    → xor_zip (xs ++ ys) (ks ++ ls) ≡ xor_zip xs ks ++ xor_zip ys ls
xor_zip-append [] ys [] ls h = refl
xor_zip-append [] ys (k ∷ ks) ls h = absurd (omega arith)
xor_zip-append (x ∷ xs) ys [] ls h = absurd (omega arith)
xor_zip-append (x ∷ xs) ys (k ∷ ks) ls h =
    ap (◌∷◌ (bit_xor x k)) (xor_zip-append xs ys ks ls (omega arith))
