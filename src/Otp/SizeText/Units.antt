-- ===== src/Otp/SizeText/Units.antt =====
-- otp/src/lib.rs: which sizes `parse_size` reads.
use rust_encryption.Common.{
  ℕ, ◌*◌, ◌≤◌, ◌≡◌, refl, ap, ◌∙◌, arith, Bool, true, false, [], ◌∷◌, ◌++◌, All, All-append, Bytes,
  Result, ok, err, ltb, le→leb, if◌then◌else◌, bytes_eq, ◌>>=◌,
}
use rust_encryption.Common.Text.{codes}
use rust_encryption.Common.Words.{word_mod}
use rust_encryption.Otp.SizeText.{
  SizeError, invalid_integer, too_large, is_whitespace, is_ascii_digit, trim_start, trim_end, trim,
  digits_of, after_digits, value_from, parse_u64, lowercase, multiplier, checked_size,
  parse_trimmed, parse_size,
}

-- The units of the documentation, in lower case, and what they stand for.
pub data SizeUnit : Type 0 where
  none b kb mb gb tb kib mib gib tib : SizeUnit

abbrev pub unit_text : SizeUnit → Bytes
unit_text none = []
unit_text b = codes "b"
unit_text kb = codes "kb"
unit_text mb = codes "mb"
unit_text gb = codes "gb"
unit_text tb = codes "tb"
unit_text kib = codes "kib"
unit_text mib = codes "mib"
unit_text gib = codes "gib"
unit_text tib = codes "tib"

abbrev pub unit_size : SizeUnit → ℕ
unit_size none = 1
unit_size b = 1
unit_size kb = 1000
unit_size mb = 1000 * 1000
unit_size gb = 1000 * 1000 * 1000
unit_size tb = 1000 * 1000 * 1000 * 1000
unit_size kib = 1024
unit_size mib = 1024 * 1024
unit_size gib = 1024 * 1024 * 1024
unit_size tib = 1024 * 1024 * 1024 * 1024

abbrev pub IsDigit : ℕ → Type 0
IsDigit c = (48 ≤ c) × (c ≤ 57)

abbrev IsText : ℕ → Type 0
IsText c = is_whitespace c ≡ false

digit-IsText : (c : ℕ) → IsDigit c → IsText c
unfolding is_whitespace
digit-IsText c h = ground arith

digits-IsText : (ds : Bytes) → All IsDigit ds → All IsText ds
digits-IsText [] h = tt
digits-IsText (d ∷ ds) h = (digit-IsText d h.0, digits-IsText ds h.1)

unit_text-IsText : (u : SizeUnit) → All IsText (unit_text u)
unfolding is_whitespace
unit_text-IsText none = tt
unit_text-IsText b = (refl, tt)
unit_text-IsText kb = (refl, (refl, tt))
unit_text-IsText mb = (refl, (refl, tt))
unit_text-IsText gb = (refl, (refl, tt))
unit_text-IsText tb = (refl, (refl, tt))
unit_text-IsText kib = (refl, (refl, (refl, tt)))
unit_text-IsText mib = (refl, (refl, (refl, tt)))
unit_text-IsText gib = (refl, (refl, (refl, tt)))
unit_text-IsText tib = (refl, (refl, (refl, tt)))

-- A text without white space is not trimmed.
trim_end-IsText : (cs : Bytes) → All IsText cs → trim_end cs ≡ cs
unfolding trim_end
trim_end-IsText [] h = refl
trim_end-IsText (c ∷ cs) h = rw (h.0, trim_end-IsText cs h.1)

trim_start-IsText : (cs : Bytes) → All IsText cs → trim_start cs ≡ cs
unfolding trim_start
trim_start-IsText [] h = refl
trim_start-IsText (c ∷ cs) h = rw h.0

trim-IsText : (cs : Bytes) → All IsText cs → trim cs ≡ cs
unfolding trim
trim-IsText cs h = ap trim_end (trim_start-IsText cs h) ∙ trim_end-IsText cs h

digit-eq : (c : ℕ) → IsDigit c → is_ascii_digit c ≡ true
digit-eq c h = rw (le→leb 48 c h.0, le→leb c 57 h.1)

digits_of-unit :
    (u : SizeUnit) → (digits_of (unit_text u) ≡ []) × (after_digits (unit_text u) ≡ unit_text u)
unfolding digits_of after_digits
digits_of-unit none = (refl, refl)
digits_of-unit b = (refl, refl)
digits_of-unit kb = (refl, refl)
digits_of-unit mb = (refl, refl)
digits_of-unit gb = (refl, refl)
digits_of-unit tb = (refl, refl)
digits_of-unit kib = (refl, refl)
digits_of-unit mib = (refl, refl)
digits_of-unit gib = (refl, refl)
digits_of-unit tib = (refl, refl)

multiplier-unit : (u : SizeUnit) → multiplier (lowercase (unit_text u)) ≡ ok (unit_size u)
unfolding multiplier lowercase bytes_eq
multiplier-unit none = refl
multiplier-unit b = refl
multiplier-unit kb = refl
multiplier-unit mb = refl
multiplier-unit gb = refl
multiplier-unit tb = refl
multiplier-unit kib = refl
multiplier-unit mib = refl
multiplier-unit gib = refl
multiplier-unit tib = refl

digits_of-append : (ds u : Bytes) → All IsDigit ds → digits_of u ≡ [] → digits_of (ds ++ u) ≡ ds
unfolding digits_of
digits_of-append [] u h k = k
digits_of-append (d ∷ ds) u h k = rw (digit-eq d h.0, digits_of-append ds u h.1 k)

after_digits-append :
    (ds u : Bytes) → All IsDigit ds → after_digits u ≡ u → after_digits (ds ++ u) ≡ u
unfolding after_digits
after_digits-append [] u h k = k
after_digits-append (d ∷ ds) u h k = rw (digit-eq d h.0, after_digits-append ds u h.1 k)

-- What the number and the unit come to, in 64 bits.
abbrev pub size_of : ℕ → ℕ → Result SizeError ℕ
size_of number size =
    if ltb number word_mod
    then (if ltb (number * size) word_mod then ok (number * size) else err too_large)
    else err invalid_integer

sized :
    (fits : Bool) (number size : ℕ)
    → ((if fits then ok number else err invalid_integer) >>= λ n.
        ok size >>= λ unit. checked_size n unit)
      ≡ (if fits
          then (if ltb (number * size) word_mod then ok (number * size) else err too_large)
          else err invalid_integer)
unfolding checked_size
sized true number size = refl
sized false number size = refl

-- A number of one digit at least, with a unit in lower case behind it, is read as the number times
-- the unit, where that has 64 bits; where the product or the number does not fit, it is an error.
pub parse_size-size_of :
    (d : ℕ) (ds : Bytes) (u : SizeUnit)
    → IsDigit d
    → All IsDigit ds
    → parse_size (d ∷ (ds ++ unit_text u)) ≡ size_of (value_from 0 (d ∷ ds)) (unit_size u)
unfolding parse_size parse_trimmed parse_u64 bytes_eq
parse_size-size_of d ds u hd h =
    rw
      (
        trim-IsText (d ∷ (ds ++ unit_text u)) (
          digit-IsText d hd,
          All-append IsText ds (unit_text u) (digits-IsText ds h) (unit_text-IsText u),
        ),
        digits_of-append (d ∷ ds) (unit_text u) (hd, h) (digits_of-unit u).0,
        after_digits-append (d ∷ ds) (unit_text u) (hd, h) (digits_of-unit u).1,
        trim-IsText (unit_text u) (unit_text-IsText u),
        multiplier-unit u,
      )
      (sized (ltb (value_from 0 (d ∷ ds)) word_mod) (value_from 0 (d ∷ ds)) (unit_size u))
