-- ===== src/Riscv/Bits.antt =====
-- Single bits of the registers of riscv-os/include/riscv.h.
use Prim.Native.Nat.{max, min, bit_or, bit_and, bit_and-bitwise}
use os.Common.{ℕ, zero, suc, ◌+◌, ◌*◌, ◌/◌, ◌%◌, ◌^◌, ◌≤◌, ◌≡◌, refl, ap, ◌∙◌, arith}
use os.Vm.Bits.{bit_or_half, bit_or_low, bit_and_digit, digitwise_enough}

-- Bit `k`.
abbrev pub bit : ℕ → ℕ → ℕ
bit zero a = a % 2
bit (suc k) a = bit k (a / 2)

pub bit_bound : (k a : ℕ) → bit k a ≤ 1
bit_bound zero a = omega arith
bit_bound (suc k) a = bit_bound k (a / 2)

bit_and_step : (a b : ℕ) → bit_and a b ≡ bit_and (a / 2) (b / 2) * 2 + min (a % 2) (b % 2)
bit_and_step zero b = omega (arith, bit_and-bitwise 0 b, bit_and-bitwise 0 (b / 2))
bit_and_step (suc a) b = omega (
  arith,
  bit_and-bitwise (suc a) b,
  bit_and-bitwise (suc a / 2) (b / 2),
  digitwise_enough (λ _. 0) min a (suc a / 2) (suc a / 2) (b / 2) (omega arith) (omega arith),
)

bit_and_half : (a b : ℕ) → bit_and a b / 2 ≡ bit_and (a / 2) (b / 2)
bit_and_half a b = omega (arith, bit_and_step a b)

pub bit-bit_or : (k a b : ℕ) → bit k (bit_or a b) ≡ max (bit k a) (bit k b)
bit-bit_or zero a b = bit_or_low a b
bit-bit_or (suc k) a b = ap (bit k) (bit_or_half a b) ∙ bit-bit_or k (a / 2) (b / 2)

pub bit-bit_and : (k a b : ℕ) → bit k (bit_and a b) ≡ min (bit k a) (bit k b)
bit-bit_and zero a b = bit_and_digit a b
bit-bit_and (suc k) a b = ap (bit k) (bit_and_half a b) ∙ bit-bit_and k (a / 2) (b / 2)

bit_and_zero : (a : ℕ) → bit_and a 0 ≡ 0
bit_and_zero a = go a a (omega arith)
  where
    go : (n a : ℕ) → a ≤ n → bit_and a 0 ≡ 0
    go zero zero h = refl
    go zero (suc a) h = absurd (omega arith)
    go (suc n) a h = omega (arith, bit_and_step a 0, go n (a / 2) (omega arith))

-- `a & (1 << k)`
pub bit_and_power : (k a : ℕ) → bit_and a (2 ^ k) ≡ bit k a * 2 ^ k
bit_and_power zero a = omega (arith, bit_and_step a 1, bit_and_zero (a / 2))
bit_and_power (suc k) a =
    let twice : 2 ^ suc k ≡ 2 ^ k * 2 = omega arith in
    let half : 2 ^ suc k / 2 ≡ 2 ^ k = omega (arith, twice) in
    let even : 2 ^ suc k % 2 ≡ 0 = omega (arith, twice) in
    let high : bit_and (a / 2) (2 ^ suc k / 2) ≡ bit k (a / 2) * 2 ^ k =
      ap (bit_and (a / 2)) half ∙ bit_and_power k (a / 2) in
    bit_and_step a (2 ^ suc k) ∙ rw (high, even, twice) (omega arith)
