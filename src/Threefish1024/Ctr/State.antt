-- ===== src/Threefish1024/Ctr/State.antt =====
-- `ThreefishCtr` at a position of the key stream, and what one round of `apply_keystream` does there.
use rust_encryption.Common.{
  ℕ, ◌+◌, ◌*◌, ◌-◌, ◌≤◌, ◌<◌, ◌^◌, ◌≡◌, refl, sym, ap, ◌∙◌, List, ◌++◌, arith, Bytes, length, take,
  drop, take-append-drop, ok, ◌==◌, inl, inr, Bool-cases, ==→eq, min, length-take, length-drop, min,
}
use rust_encryption.Common.Xor.{xor_zip}
use rust_encryption.Threefish1024.Ctr.{Cipher, ThreefishCtr, new, refill, refill_if_spent, consume}
use rust_encryption.Threefish1024.Ctr.Stream.{
  block, xor_stream, IsCipher, xor_block, xor_stream-append,
}

-- The state stands at position `pos` of the stream: `counter` blocks were made, the bytes of the
-- last one before `offset` are spent, and `keystream` holds that block while bytes of it are left.
pub record IsAt (pos : ℕ) (c : ThreefishCtr) : Type 0 where
  pub position : pos + 128 ≡ c.counter * 128 + c.offset
  pub offset_fits : c.offset ≤ 128
  pub counter_fits : c.counter < 2 ^ 64
  pub keystream_is : c.offset < 128 → c.keystream ≡ block c.cipher (c.counter - 1)

refill-IsAt :
    (pos : ℕ) (c : ThreefishCtr)
    → IsAt pos c
    → c.offset ≡ 128
    → pos < (2 ^ 64 - 1) * 128
    → (c' : ThreefishCtr) × (refill c ≡ ok c')
      × IsAt pos c'
      × (c'.offset < 128)
      × (c'.cipher ≡ c.cipher)
unfolding refill
refill-IsAt pos c at spent room = (
  record c { counter = c.counter + 1; keystream = block c.cipher c.counter; offset = 0 },
  ground arith,
  record {
    position = omega arith;
    offset_fits = omega arith;
    counter_fits = omega (arith, at.position);
    keystream_is = λ _. ap (block c.cipher) {x = c.counter} {y = c.counter + 1 - 1} (omega arith);
  },
  omega arith,
  refl,
)

-- The test for a refill leaves a state with bytes to spend, at the same position.
pub ready-IsAt :
    (pos : ℕ) (c : ThreefishCtr)
    → IsAt pos c
    → pos < (2 ^ 64 - 1) * 128
    → (c' : ThreefishCtr) × (refill_if_spent c ≡ ok c')
      × IsAt pos c'
      × (c'.offset < 128)
      × (c'.cipher ≡ c.cipher)
unfolding refill_if_spent
ready-IsAt pos c at room = elim (Bool-cases (c.offset == 128)) [
  | inl e ↦
      let (c', made, at', left, same) = refill-IsAt pos c at (==→eq _ _ e) room in
      (c', rw (e, made), at', left, same)
  | inr e ↦ (c, rw e, at, ground (arith, at.offset_fits, e), refl)
]

abbrev pub count_of : ThreefishCtr → Bytes → ℕ
count_of c bytes = min (128 - c.offset) (length bytes)

pub consume_done :
    (pos : ℕ) (c : ThreefishCtr) (bytes : Bytes)
    → IsCipher c.cipher
    → IsAt pos c
    → c.offset < 128
    → (consume c bytes).1 ≡ xor_stream c.cipher pos (take (count_of c bytes) bytes)
unfolding consume
consume_done pos c bytes hc at left =
    let n = count_of c bytes in
    let size : length (take n bytes) ≡ n = omega (arith, length-take {0} n bytes) in
    ap (λ (ks : Bytes). xor_zip (take n bytes) (take (c.offset + n - c.offset) (drop c.offset ks)))
      (at.keystream_is left)
    ∙ ap
        (λ (t : ℕ).
          xor_zip (take n bytes) (take t (drop c.offset (block c.cipher (c.counter - 1)))))
        {x = c.offset + n - c.offset} {y = length (take n bytes)} (omega arith)
    ∙ xor_block c.cipher hc (c.counter - 1) c.offset (take n bytes) (omega arith)
    ∙ ap (λ (t : ℕ). xor_stream c.cipher t (take n bytes)) {x = (c.counter - 1) * 128 + c.offset}
        {y = pos} (omega (arith, at.position))

pub consume-IsAt :
    (pos : ℕ) (c : ThreefishCtr) (bytes : Bytes)
    → IsAt pos c
    → c.offset < 128
    → IsAt (pos + count_of c bytes) (consume c bytes).0
unfolding consume
consume-IsAt pos c bytes at left = record {
  position = omega (arith, at.position);
  offset_fits = omega arith;
  counter_fits = at.counter_fits;
  keystream_is = λ _. at.keystream_is left;
}

pub consume_cipher : (c : ThreefishCtr) (bytes : Bytes) → (consume c bytes).0.cipher ≡ c.cipher
unfolding consume
consume_cipher c bytes = refl

pub consume_rest :
    (c : ThreefishCtr) (bytes : Bytes) → (consume c bytes).2 ≡ drop (count_of c bytes) bytes
unfolding consume
consume_rest c bytes = refl

pub consume_rest_size :
    (c : ThreefishCtr) (bytes : Bytes)
    → length (consume c bytes).2 ≡ length bytes - count_of c bytes
unfolding consume
consume_rest_size c bytes = length-drop {0} (count_of c bytes) bytes

pub whole_stream :
    (cipher : Cipher) (pos n : ℕ) (bytes : Bytes)
    → n ≤ length bytes
    → xor_stream cipher pos (take n bytes) ++ xor_stream cipher (pos + n) (drop n bytes)
      ≡ xor_stream cipher pos bytes
whole_stream cipher pos n bytes fits =
    ap
      (λ (t : ℕ).
        xor_stream cipher pos (take n bytes) ++ xor_stream cipher (pos + t) (drop n bytes))
      {x = n} {y = length (take n bytes)} (omega (arith, length-take {0} n bytes))
    ∙ sym (xor_stream-append cipher pos (take n bytes) (drop n bytes))
    ∙ ap (xor_stream cipher pos) (take-append-drop n bytes)

pub joined :
    (pos : ℕ) (c : ThreefishCtr) (bytes : Bytes)
    → IsCipher c.cipher
    → IsAt pos c
    → c.offset < 128
    → (consume c bytes).1
        ++ xor_stream (consume c bytes).0.cipher (pos + count_of c bytes) (consume c bytes).2
      ≡ xor_stream c.cipher pos bytes
joined pos c bytes hc at left =
    rw (consume_done pos c bytes hc at left, consume_cipher c bytes, consume_rest c bytes)
      (whole_stream c.cipher pos (count_of c bytes) bytes (omega arith))

pub new-IsAt :
    (new_with_tweak_u64 : List ℕ → List ℕ → Cipher) (key tweak : Bytes)
    → IsAt 0 (new new_with_tweak_u64 key tweak)
unfolding new
new-IsAt f key tweak = record {
  position = refl;
  offset_fits = omega arith;
  counter_fits = omega arith;
  keystream_is = λ h. absurd (omega arith);
}
