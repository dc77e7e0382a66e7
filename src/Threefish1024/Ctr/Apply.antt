-- ===== src/Threefish1024/Ctr/Apply.antt =====
-- `apply_keystream` against the key stream by position.
use mathlib.Core.Path.{subst}
use mathlib.Core.Option
use rust_encryption.Common.{
  run-injective, ℕ, zero, suc, ◌+◌, ◌*◌, ◌-◌, ◌≤◌, ◌<◌, ◌^◌, ◌≡◌, refl, sym, ap, ◌∙◌, [], ◌∷◌, ◌++◌,
  arith, Bytes, length, ◌>>=◌, Option, some, Result, ok, err,
}
use rust_encryption.Threefish1024.Error.{Error}
use rust_encryption.Threefish1024.Ctr.{
  Cipher, ThreefishCtr, refill_if_spent, consume, apply_loop, apply_keystream,
}
use rust_encryption.Threefish1024.Ctr.Stream.{xor_stream, IsCipher}
use rust_encryption.Threefish1024.Ctr.State.{
  IsAt, ready-IsAt, count_of, consume-IsAt, consume_cipher, consume_rest_size, joined,
}

-- What a round does with the result of the test for a refill.
abbrev select :
    ℕ → ℕ → Bytes → Result Error ThreefishCtr → Option (Result Error (ThreefishCtr × Bytes))
select fuel b bs (err e) = some (err e)
select fuel b bs (ok c) =
    Option.map (λ r. r >>= λ p. ok (p.0, (consume c (b ∷ bs)).1 ++ p.1))
      (apply_loop fuel (consume c (b ∷ bs)).0 (consume c (b ∷ bs)).2)

-- One round of the loop.
pub apply_loop_next :
    (fuel : ℕ) (c c1 : ThreefishCtr) (b : ℕ) (bs : Bytes) (r : Result Error (ThreefishCtr × Bytes))
    → refill_if_spent c ≡ ok c1
    → apply_loop fuel (consume c1 (b ∷ bs)).0 (consume c1 (b ∷ bs)).2 ≡ some r
    → apply_loop (suc fuel) c (b ∷ bs) ≡ some (r >>= λ p. ok (p.0, (consume c1 (b ∷ bs)).1 ++ p.1))
unfolding apply_loop
apply_loop_next fuel c c1 b bs r made looped =
    ap (select fuel b bs) made
    ∙ ap (Option.map (λ r. r >>= λ p. ok (p.0, (consume c1 (b ∷ bs)).1 ++ p.1))) looped

pub apply_loop_stop :
    (fuel : ℕ) (c : ThreefishCtr) (b : ℕ) (bs : Bytes) (e : Error)
    → refill_if_spent c ≡ err e
    → apply_loop (suc fuel) c (b ∷ bs) ≡ some (err e)
unfolding apply_loop
apply_loop_stop fuel c b bs e failed = ap (select fuel b bs) failed

-- What a run of the loop from position `pos` comes to.
abbrev Runs : ℕ → ℕ → ThreefishCtr → Bytes → Type 0
Runs fuel pos c bytes =
    (c' : ThreefishCtr) × (apply_loop fuel c bytes ≡ some (ok (c', xor_stream c.cipher pos bytes)))
    × IsAt (pos + length bytes) c'
    × (c'.cipher ≡ c.cipher)

apply_loop_round :
    (fuel pos : ℕ) (c c1 : ThreefishCtr) (b : ℕ) (bs : Bytes)
    → IsCipher c1.cipher
    → IsAt pos c1
    → c1.offset < 128
    → c1.cipher ≡ c.cipher
    → refill_if_spent c ≡ ok c1
    → Runs fuel (pos + count_of c1 (b ∷ bs)) (consume c1 (b ∷ bs)).0 (consume c1 (b ∷ bs)).2
    → Runs (suc fuel) pos c (b ∷ bs)
apply_loop_round fuel pos c c1 b bs hc at left same made (c', looped, at', same') = (
  c',
  apply_loop_next fuel c c1 b bs _ made looped
      ∙ ap (λ (bytes : Bytes). some (ok (c', bytes))) (joined pos c1 (b ∷ bs) hc at left)
      ∙ ap (λ (f : Cipher). some (ok (c', xor_stream f pos (b ∷ bs)))) same,
  subst (λ (p : ℕ). IsAt p c') (omega (arith, consume_rest_size c1 (b ∷ bs))) at',
  same' ∙ consume_cipher c1 (b ∷ bs) ∙ same,
)

apply_loop_lem :
    (fuel pos : ℕ) (c : ThreefishCtr) (bytes : Bytes)
    → IsCipher c.cipher
    → IsAt pos c
    → length bytes ≤ fuel
    → pos + length bytes ≤ (2 ^ 64 - 1) * 128
    → Runs fuel pos c bytes
unfolding apply_loop
apply_loop_lem fuel pos c [] hc at fuel_ok room =
    (c, refl, subst (λ (p : ℕ). IsAt p c) {x = pos} {y = pos + 0} (omega arith) at, refl)
apply_loop_lem zero pos c (b ∷ bs) hc at fuel_ok room = absurd (omega arith)
apply_loop_lem (suc fuel) pos c (b ∷ bs) hc at fuel_ok room =
    let (c1, made, at1, left, same) = ready-IsAt pos c at (omega arith) in
    let hc1 : IsCipher c1.cipher = rw same hc in
    let rest_size = consume_rest_size c1 (b ∷ bs) in
    apply_loop_round fuel pos c c1 b bs hc1 at1 left same made (
      apply_loop_lem fuel (pos + count_of c1 (b ∷ bs)) (consume c1 (b ∷ bs)).0
        (consume c1 (b ∷ bs)).2 (rw (consume_cipher c1 (b ∷ bs)) hc1)
        (consume-IsAt pos c1 (b ∷ bs) at1 left) (omega arith) (omega arith))

-- At position `pos` of the stream of its cipher, and with no more bytes than the 64-bit counter
-- has blocks for, `apply_keystream` runs to its end and returns: each byte is xored with the byte
-- of the stream at its own position, and the new state stands behind the last one.
pub apply_keystream-xor_stream :
    (pos : ℕ) (c : ThreefishCtr) (bytes : Bytes)
    → IsCipher c.cipher
    → IsAt pos c
    → pos + length bytes ≤ (2 ^ 64 - 1) * 128
    → (c' : ThreefishCtr) × (apply_keystream c bytes
        ≡ some (ok (c', xor_stream c.cipher pos bytes)))
      × IsAt (pos + length bytes) c'
      × (c'.cipher ≡ c.cipher)
unfolding apply_keystream
apply_keystream-xor_stream pos c bytes hc at room =
    apply_loop_lem (length bytes) pos c bytes hc at (omega arith) room

-- The same, from a result that is known.
pub apply_keystream-eq-ok :
    (pos : ℕ) (c c' : ThreefishCtr) (bytes out : Bytes)
    → IsCipher c.cipher
    → IsAt pos c
    → pos + length bytes ≤ (2 ^ 64 - 1) * 128
    → apply_keystream c bytes ≡ some (ok (c', out))
    → (out ≡ xor_stream c.cipher pos bytes) × IsAt (pos + length bytes) c' × (c'.cipher ≡ c.cipher)
apply_keystream-eq-ok pos c c' bytes out hc at room h =
    let (c2, run, at2, same) = apply_keystream-xor_stream pos c bytes hc at room in
    let p = run-injective (sym h ∙ run) in
    let state : c' ≡ c2 = ap (λ (q : ThreefishCtr × Bytes). q.0) p in
    (
      ap (λ (q : ThreefishCtr × Bytes). q.1) p,
      subst (IsAt (pos + length bytes)) (sym state) at2,
      ap (λ (t : ThreefishCtr). t.cipher) state ∙ same,
    )
