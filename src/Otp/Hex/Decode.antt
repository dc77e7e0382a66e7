-- ===== src/Otp/Hex/Decode.antt =====
-- otp/src/lib.rs: `hex_encode` loses nothing.
use rust_encryption.Common.{
  ℕ, zero, suc, ◌+◌, ◌-◌, ◌*◌, ◌/◌, ◌%◌, ◌<◌, ◌≡◌, refl, ap, ◌∙◌, [], ◌∷◌, arith, Bytes, IsBytes,
  length, get_or, ltb, Bool, true, false, ◌&&◌, ◌==◌, ==→eq, Bool-cases, inl, inr, if◌then◌else◌,
}
use rust_encryption.Otp.Hex.{hex_digits, hex_encode}

abbrev hex_value : ℕ → ℕ
hex_value c = if ltb c 58 then c - 48 else c - 87

-- The bytes that a text of digits stands for.
abbrev pub hex_decode : Bytes → Bytes
hex_decode [] = []
hex_decode (c ∷ []) = []
hex_decode (c ∷ d ∷ cs) = (hex_value c * 16 + hex_value d) ∷ hex_decode cs

abbrev all_below : (ℕ → Bool) → ℕ → Bool
all_below p zero = true
all_below p (suc n) = p n && all_below p n

and-true : (a b : Bool) → (a && b) ≡ true → (a ≡ true) × (b ≡ true)
and-true true b h = (refl, h)
and-true false b h = cc

all_below-at : (p : ℕ → Bool) (n : ℕ) → all_below p n ≡ true → (m : ℕ) → m < n → p m ≡ true
all_below-at p zero h m k = ground arith
all_below-at p (suc n) h m k = elim (Bool-cases (m == n)) [
  | inl e ↦ ap p (==→eq m n e) ∙ (and-true (p n) (all_below p n) h).0
  | inr e ↦ all_below-at p n (and-true (p n) (all_below p n) h).1 m (ground arith)
]

hex_value-digit : (n : ℕ) → n < 16 → hex_value (get_or hex_digits n 0) ≡ n
hex_value-digit n h =
    ==→eq (hex_value (get_or hex_digits n 0)) n
      (all_below-at (λ d. hex_value (get_or hex_digits d 0) == d) 16 refl n h)

-- Decoding what was encoded gives the bytes back.
pub hex_decode-hex_encode : (bs : Bytes) → IsBytes bs → hex_decode (hex_encode bs) ≡ bs
unfolding hex_encode
hex_decode-hex_encode [] h = refl
hex_decode-hex_encode (b ∷ bs) h =
    let digits : hex_value (get_or hex_digits (b / 16) 0) * 16
          + hex_value (get_or hex_digits (b % 16) 0)
        ≡ b =
      omega (
        arith,
        h.0,
        hex_value-digit (b / 16) (omega (arith, h.0)),
        hex_value-digit (b % 16) (omega arith),
      ) in
    ap (λ n. n ∷ hex_decode (hex_encode bs)) digits
    ∙ ap (λ rest. b ∷ rest) (hex_decode-hex_encode bs h.1)

pub length-hex_encode : (bs : Bytes) → length (hex_encode bs) ≡ 2 * length bs
unfolding hex_encode
length-hex_encode [] = refl
length-hex_encode (b ∷ bs) = omega (arith, length-hex_encode bs)
