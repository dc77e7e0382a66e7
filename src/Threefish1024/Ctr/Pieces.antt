-- ===== src/Threefish1024/Ctr/Pieces.antt =====
-- `ThreefishCtr` as the streaming code uses it: one state over many reads, and the same key twice.
use rust_encryption.Common.{
  ℕ, ◌+◌, ◌*◌, ◌-◌, ◌≤◌, ◌^◌, ◌≡◌, sym, ap, ◌∙◌, List, ◌++◌, arith, Bytes, IsBytes, length, some,
  ok, length-append,
}
use rust_encryption.Threefish1024.Ctr.{Cipher, ThreefishCtr, new, apply_keystream}
use rust_encryption.Threefish1024.Ctr.Stream.{
  xor_stream, IsCipher, xor_stream-append, length-xor_stream, xor_stream-xor_stream,
}
use rust_encryption.Threefish1024.Ctr.State.{IsAt, new-IsAt}
use rust_encryption.Threefish1024.Ctr.Apply.{apply_keystream-xor_stream}

-- However the bytes are cut into reads: a call on the first part and a call, with the state that
-- it left, on the second part both return, and their results together are the bytes that one call
-- returns. The calls start at position `pos` of the stream, and the counter has blocks for all the
-- bytes.
pub apply_keystream-append :
    (pos : ℕ) (c : ThreefishCtr) (xs ys : Bytes)
    → IsCipher c.cipher
    → IsAt pos c
    → pos + length (xs ++ ys) ≤ (2 ^ 64 - 1) * 128
    → (c1 c2 c3 : ThreefishCtr) × (out1 out2 : Bytes) × (apply_keystream c xs
        ≡ some (ok (c1, out1)))
      × (apply_keystream c1 ys ≡ some (ok (c2, out2)))
      × (apply_keystream c (xs ++ ys) ≡ some (ok (c3, out1 ++ out2)))
apply_keystream-append pos c xs ys hc at room =
    let size = length-append xs ys in
    let (c1, run1, at1, same1) = apply_keystream-xor_stream pos c xs hc at (omega arith) in
    let (c2, run2, at2, same2) =
      apply_keystream-xor_stream (pos + length xs) c1 ys (rw same1 hc) at1 (omega arith) in
    let (c3, run3, at3, same3) = apply_keystream-xor_stream pos c (xs ++ ys) hc at room in
    (
      c1,
      c2,
      c3,
      xor_stream c.cipher pos xs,
      xor_stream c1.cipher (pos + length xs) ys,
      run1,
      run2,
      run3
          ∙ ap (λ (out : Bytes). some (ok (c3, out)))
              (xor_stream-append c.cipher pos xs ys
                ∙ ap
                    (λ (f : Cipher).
                      xor_stream c.cipher pos xs ++ xor_stream f (pos + length xs) ys)
                    (sym same1)),
    )

-- Bytes that were encrypted by a new state come back from a second new state of the same key and
-- tweak, where the cipher keeps its sixteen words and the 64-bit counter has blocks for the bytes.
pub apply_keystream-apply_keystream :
    (new_with_tweak_u64 : List ℕ → List ℕ → Cipher) (key tweak bytes : Bytes)
    → IsCipher (new new_with_tweak_u64 key tweak).cipher
    → IsBytes bytes
    → length bytes ≤ (2 ^ 64 - 1) * 128
    → (c1 c2 : ThreefishCtr) × (out : Bytes) × (apply_keystream
          (new new_with_tweak_u64 key tweak)
          bytes
        ≡ some (ok (c1, out)))
      × (apply_keystream (new new_with_tweak_u64 key tweak) out ≡ some (ok (c2, bytes)))
      × (length out ≡ length bytes)
apply_keystream-apply_keystream f key tweak bytes hc hb room =
    let c = new f key tweak in
    let at = new-IsAt f key tweak in
    let out = xor_stream c.cipher 0 bytes in
    let size = length-xor_stream c.cipher 0 bytes in
    let (c1, run1, at1, same1) = apply_keystream-xor_stream 0 c bytes hc at (omega arith) in
    let (c2, run2, at2, same2) = apply_keystream-xor_stream 0 c out hc at (omega arith) in
    (
      c1,
      c2,
      out,
      run1,
      run2
          ∙ ap (λ (back : Bytes). some (ok (c2, back))) (xor_stream-xor_stream c.cipher 0 bytes hb),
      size,
    )
