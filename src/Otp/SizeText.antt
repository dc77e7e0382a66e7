-- ===== src/Otp/SizeText.antt =====
-- otp/src/lib.rs: `parse_size`, on the code points of a text.
pub mod Units
mod Examples
use rust_encryption.Common.{
  ℕ, zero, suc, ◌+◌, ◌-◌, ◌*◌, ◌^◌, ◌<◌, ◌≤◌, ◌≡◌, refl, sym, ap, ◌∙◌, Bool, true, false, ◌&&◌,
  ◌||◌, List, [], ◌∷◌, ◌++◌, Bytes, Result, ok, err, Option, none, some, ltb, leb, ◌==◌,
  if◌then◌else◌, bytes_eq, ok_or, fail_if, ◌>>=◌, ◌>>◌,
}
use rust_encryption.Common.Text.{codes}
use rust_encryption.Common.Words.{word_mod}

-- The messages, without the texts in them.
pub data SizeError : Type 0 where
  empty no_integer invalid_integer unknown_unit too_large : SizeError

-- `char::is_whitespace`, the property White_Space of Unicode.
unfoldable pub is_whitespace : ℕ → Bool
is_whitespace c =
    (leb 9 c && leb c 13)
    || (c == 32)
    || (c == 133)
    || (c == 160)
    || (c == 5760)
    || (leb 8192 c && leb c 8202)
    || (c == 8232)
    || (c == 8233)
    || (c == 8239)
    || (c == 8287)
    || (c == 12288)

unfoldable pub trim_start : Bytes → Bytes
trim_start [] = []
trim_start (c ∷ cs) = if is_whitespace c then trim_start cs else c ∷ cs

-- What is left when the end of a text is trimmed.
unfoldable pub trim_end : Bytes → Bytes
trim_end [] = []
trim_end (c ∷ cs) =
    let rest = trim_end cs in if is_whitespace c && bytes_eq rest [] then [] else c ∷ rest

unfoldable pub trim : Bytes → Bytes
unfolding trim_start trim_end
trim text = trim_end (trim_start text)

abbrev pub is_ascii_digit : ℕ → Bool
is_ascii_digit c = leb 48 c && leb c 57

-- `&text[..digit_end]` and `&text[digit_end..]`
unfoldable pub digits_of : Bytes → Bytes
digits_of [] = []
digits_of (c ∷ cs) = let rest = digits_of cs in if is_ascii_digit c then c ∷ rest else []

unfoldable pub after_digits : Bytes → Bytes
after_digits [] = []
after_digits (c ∷ cs) = let rest = after_digits cs in if is_ascii_digit c then rest else c ∷ cs

-- The number that digits stand for, after the value of those in front.
unfoldable pub value_from : ℕ → Bytes → ℕ
value_from n [] = n
value_from n (c ∷ cs) = value_from (n * 10 + (c - 48)) cs

-- `str::parse::<u64>` on ASCII digits
unfoldable pub parse_u64 : Bytes → Result SizeError ℕ
unfolding value_from
parse_u64 digits =
    if ltb (value_from 0 digits) word_mod then ok (value_from 0 digits) else err invalid_integer

abbrev pub to_ascii_lowercase : ℕ → ℕ
to_ascii_lowercase c = if leb 65 c && leb c 90 then c + 32 else c

unfoldable pub lowercase : Bytes → Bytes
lowercase [] = []
lowercase (c ∷ cs) = to_ascii_lowercase c ∷ lowercase cs

unfoldable pub multiplier : Bytes → Result SizeError ℕ
multiplier unit =
    if bytes_eq unit [] || bytes_eq unit (codes "b")
    then ok 1
    else if bytes_eq unit (codes "kb")
    then ok 1000
    else if bytes_eq unit (codes "mb")
    then ok 1000000
    else if bytes_eq unit (codes "gb")
    then ok 1000000000
    else if bytes_eq unit (codes "tb")
    then ok 1000000000000
    else if bytes_eq unit (codes "kib")
    then ok 1024
    else if bytes_eq unit (codes "mib")
    then ok 1048576
    else if bytes_eq unit (codes "gib")
    then ok 1073741824
    else if bytes_eq unit (codes "tib")
    then ok 1099511627776
    else err unknown_unit

-- `checked_mul`
unfoldable pub checked_size : ℕ → ℕ → Result SizeError ℕ
checked_size number unit =
    if ltb (number * unit) word_mod then ok (number * unit) else err too_large

-- The part after trimming.
unfoldable pub parse_trimmed : Bytes → Result SizeError ℕ
parse_trimmed text =
    fail_if (bytes_eq text []) empty
    >> (fail_if (bytes_eq (digits_of text) []) no_integer
        >> (parse_u64 (digits_of text) >>= λ number.
            multiplier (lowercase (trim (after_digits text))) >>= λ unit. checked_size number unit))

unfoldable pub parse_size : Bytes → Result SizeError ℕ
parse_size text = parse_trimmed (trim text)
