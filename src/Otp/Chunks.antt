-- ===== src/Otp/Chunks.antt =====
-- `while remaining > 0 { let amount = remaining.min(IO_BUFFER_SIZE); ...; remaining -= amount; }`:
-- the amounts of the rounds.
use rust_encryption.Common.{
  ℕ, zero, suc, ◌+◌, ◌-◌, ◌/◌, ◌≤◌, ◌<◌, ◌≡◌, refl, List, [], ◌∷◌, arith, min, All, length,
}
use rust_encryption.Otp.Size.{io_buffer_size}

-- On fuel, a unit for each round; every amount takes a byte at least.
unfoldable pub amounts_from : ℕ → ℕ → List ℕ
amounts_from zero remaining = []
amounts_from (suc fuel) zero = []
amounts_from (suc fuel) (suc n) =
    min (suc n) io_buffer_size ∷ amounts_from fuel (suc n - min (suc n) io_buffer_size)

unfoldable pub amounts : ℕ → List ℕ
unfolding amounts_from
amounts remaining = amounts_from remaining remaining

abbrev pub sum : List ℕ → ℕ
sum [] = 0
sum (n ∷ ns) = n + sum ns

sum-amounts_from : (fuel n : ℕ) → n ≤ fuel → sum (amounts_from fuel n) ≡ n
unfolding amounts_from
sum-amounts_from zero n h = omega arith
sum-amounts_from (suc fuel) zero h = refl
sum-amounts_from (suc fuel) (suc n) h =
    omega (arith, sum-amounts_from fuel (suc n - min (suc n) io_buffer_size) (omega arith))

-- The fuel is enough.
pub sum-amounts : (n : ℕ) → sum (amounts n) ≡ n
unfolding amounts
sum-amounts n = sum-amounts_from n n (omega arith)

rounds-amounts_from :
    (fuel n : ℕ)
    → n ≤ fuel
    → All (λ amount. (0 < amount) × (amount ≤ io_buffer_size)) (amounts_from fuel n)
      × (length (amounts_from fuel n) ≡ (n + (io_buffer_size - 1)) / io_buffer_size)
unfolding amounts_from
rounds-amounts_from zero n h = (tt, omega arith)
rounds-amounts_from (suc fuel) zero h = (tt, refl)
rounds-amounts_from (suc fuel) (suc n) h =
    let rest = rounds-amounts_from fuel (suc n - min (suc n) io_buffer_size) (omega arith) in
    (((omega arith, omega arith), rest.0), omega (arith, rest.1))

-- The loops over the buffer take exactly the bytes asked for, in rounds of at least one byte that
-- never pass the end of the buffer, and in as few rounds as a buffer of that size allows.
pub amounts_bounds :
    (n : ℕ)
    → (sum (amounts n) ≡ n)
      × All (λ amount. (0 < amount) × (amount ≤ io_buffer_size)) (amounts n)
      × (length (amounts n) ≡ (n + (io_buffer_size - 1)) / io_buffer_size)
unfolding amounts
amounts_bounds n =
    let rounds = rounds-amounts_from n n (omega arith) in (sum-amounts n, rounds.0, rounds.1)
