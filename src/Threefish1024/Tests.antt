-- ===== src/Threefish1024/Tests.antt =====
-- The `threefish1024` crate on concrete headers and states.
use mathlib.Core.List.{map}
use rust_encryption.Common.{
  ◌+◌, ◌*◌, ◌-◌, ◌^◌, true, ◌≡◌, refl, ◌∙◌, [], ◌∷◌, ◌++◌, arith, Bytes, length, replicate,
  all_bytes, all_bytes→IsBytes, some, ok, err,
}
use rust_encryption.Common.Words.{from_le_bytes}
use rust_encryption.Threefish1024.Error.{crypto_length}
use rust_encryption.Threefish1024.Sample.{toy, length-toy}
use rust_encryption.Threefish1024.Header.{Header, encode, decode}
use rust_encryption.Threefish1024.Header.Codec.{IsHeader, decode-encode, encode-decode}
use rust_encryption.Threefish1024.Ctr.{chunks_of_8, ThreefishCtr, new, apply_keystream}
use rust_encryption.Threefish1024.Ctr.Stream.{xor_stream, IsCipher}
use rust_encryption.Threefish1024.Ctr.State.{IsAt, new-IsAt}
use rust_encryption.Threefish1024.Ctr.Apply.{apply_keystream-xor_stream}
use rust_encryption.Threefish1024.Ctr.Pieces.{
  apply_keystream-append, apply_keystream-apply_keystream,
}
use rust_encryption.Threefish1024.Ctr.Exhausted.{apply_keystream_exhausted}

abbrev header : Header
header = record { plaintext_len = 1000; salt = replicate 32 7; tweak = replicate 16 9 }

header-IsHeader : IsHeader header
header-IsHeader = record { salt_size = refl; tweak_size = refl; len_fits = omega arith }

decode-encode_example : decode (encode header) ≡ ok header
decode-encode_example = decode-encode header header-IsHeader

abbrev key : Bytes
key = replicate 128 3

abbrev tweak : Bytes
tweak = 1 ∷ replicate 15 0

abbrev message : Bytes
message = 104 ∷ 105 ∷ replicate 200 33

new_cipher : IsCipher (new toy key tweak).cipher
unfolding new
new_cipher words h =
    length-toy (map from_le_bytes (chunks_of_8 16 key)) (map from_le_bytes (chunks_of_8 2 tweak))
      words
    ∙ h

state-IsAt : IsAt 0 (new toy key tweak)
state-IsAt = new-IsAt toy key tweak

encode-decode_example : IsHeader header × (encode header ≡ encode header)
encode-decode_example =
    encode-decode (encode header) header (all_bytes→IsBytes (encode header) bytes) size
      decode-encode_example
  where
    bytes : all_bytes (encode header) ≡ true
    bytes = unfold encode in refl

    size : length (encode header) ≡ 80
    size = unfold encode in refl

apply_keystream-xor_stream_example :
    (c : ThreefishCtr) × (apply_keystream (new toy key tweak) message
      ≡ some (ok (c, xor_stream (new toy key tweak).cipher 0 message)))
    × IsAt (0 + length message) c
    × (c.cipher ≡ (new toy key tweak).cipher)
apply_keystream-xor_stream_example =
    apply_keystream-xor_stream 0 (new toy key tweak) message new_cipher state-IsAt (omega arith)

apply_keystream-append_example :
    (c1 c2 c3 : ThreefishCtr) × (out1 out2 : Bytes) × (apply_keystream (new toy key tweak) message
      ≡ some (ok (c1, out1)))
    × (apply_keystream c1 message ≡ some (ok (c2, out2)))
    × (apply_keystream (new toy key tweak) (message ++ message) ≡ some (ok (c3, out1 ++ out2)))
apply_keystream-append_example =
    apply_keystream-append 0 (new toy key tweak) message message new_cipher state-IsAt (omega arith)

apply_keystream-apply_keystream_example :
    (c1 c2 : ThreefishCtr) × (out : Bytes) × (apply_keystream (new toy key tweak) message
      ≡ some (ok (c1, out)))
    × (apply_keystream (new toy key tweak) out ≡ some (ok (c2, message)))
    × (length out ≡ length message)
apply_keystream-apply_keystream_example =
    apply_keystream-apply_keystream toy key tweak message new_cipher
      (all_bytes→IsBytes message refl) (omega arith)

-- A state whose counter has no more blocks.
abbrev spent : ThreefishCtr
spent = record {
  cipher = toy [] [];
  counter = 2 ^ 64 - 1;
  keystream = replicate 128 0;
  offset = 128;
}

spent-IsAt : IsAt ((2 ^ 64 - 1) * 128) spent
spent-IsAt = record {
  position = omega arith;
  offset_fits = omega arith;
  counter_fits = omega arith;
  keystream_is = λ h. absurd (omega arith);
}

apply_keystream_exhausted_example : apply_keystream spent message ≡ some (err crypto_length)
apply_keystream_exhausted_example =
    apply_keystream_exhausted ((2 ^ 64 - 1) * 128) spent message spent-IsAt (omega arith)
      (omega arith)
