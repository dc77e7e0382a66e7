-- ===== src/Threefish1024/Ctr/Exhausted.antt =====
-- The end of the 64-bit counter.
use rust_encryption.Common.{
  ℕ, zero, suc, ◌+◌, ◌*◌, ◌-◌, ◌≤◌, ◌<◌, ◌^◌, ◌≡◌, [], ◌∷◌, arith, Bytes, length, some, err, inl,
  inr, ltb, ltb→lt, Bool-cases,
}
use rust_encryption.Threefish1024.Error.{crypto_length}
use rust_encryption.Threefish1024.Ctr.{
  ThreefishCtr, refill, refill_if_spent, consume, apply_loop, apply_keystream,
}
use rust_encryption.Threefish1024.Ctr.State.{
  IsAt, ready-IsAt, count_of, consume-IsAt, consume_rest_size,
}
use rust_encryption.Threefish1024.Ctr.Apply.{apply_loop_next, apply_loop_stop}

refill_exhausted :
    (pos : ℕ) (c : ThreefishCtr)
    → IsAt pos c
    → pos ≡ (2 ^ 64 - 1) * 128
    → refill_if_spent c ≡ err crypto_length
unfolding refill_if_spent refill
refill_exhausted pos c at end =
    let spent : c.offset ≡ 128 = omega (arith, at.position, at.offset_fits, at.counter_fits) in
    let last : c.counter ≡ 2 ^ 64 - 1 = omega (arith, at.position) in ground arith

apply_loop_exhausted :
    (fuel pos : ℕ) (c : ThreefishCtr) (bytes : Bytes)
    → IsAt pos c
    → pos ≤ (2 ^ 64 - 1) * 128
    → length bytes ≤ fuel
    → (2 ^ 64 - 1) * 128 < pos + length bytes
    → apply_loop fuel c bytes ≡ some (err crypto_length)
apply_loop_exhausted fuel pos c [] at before fuel_ok beyond = absurd (omega arith)
apply_loop_exhausted zero pos c (b ∷ bs) at before fuel_ok beyond = absurd (omega arith)
apply_loop_exhausted (suc fuel) pos c (b ∷ bs) at before fuel_ok beyond =
    elim (Bool-cases (ltb pos ((2 ^ 64 - 1) * 128))) [
      | inr full ↦
          let end : pos ≡ (2 ^ 64 - 1) * 128 = ground arith in
          apply_loop_stop fuel c b bs crypto_length (refill_exhausted pos c at end)
      | inl room ↦
          let (c1, made, at1, left, same) = ready-IsAt pos c at (ltb→lt _ _ room) in
          let rest_size = consume_rest_size c1 (b ∷ bs) in
          apply_loop_next fuel c c1 b bs (err crypto_length) made (
            apply_loop_exhausted fuel (pos + count_of c1 (b ∷ bs)) (consume c1 (b ∷ bs)).0
              (consume c1 (b ∷ bs)).2 (consume-IsAt pos c1 (b ∷ bs) at1 left)
              (omega (arith, at1.position, at1.counter_fits)) (omega arith) (omega arith))
    ]

-- Asked for more bytes than the 64-bit counter has blocks for, `apply_keystream` returns
-- `CryptoLength`: the counter does not wrap.
pub apply_keystream_exhausted :
    (pos : ℕ) (c : ThreefishCtr) (bytes : Bytes)
    → IsAt pos c
    → pos ≤ (2 ^ 64 - 1) * 128
    → (2 ^ 64 - 1) * 128 < pos + length bytes
    → apply_keystream c bytes ≡ some (err crypto_length)
unfolding apply_keystream
apply_keystream_exhausted pos c bytes at before beyond =
    apply_loop_exhausted (length bytes) pos c bytes at before (omega arith) beyond
