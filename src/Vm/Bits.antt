-- ===== src/Vm/Bits.antt =====
-- The fields of a page table entry (riscv-os/kernel/vm.c: PA2PTE, PTE_PA, PTE_V): what `|` and `&`
-- make of them.
use Prim.Native.Nat.{max, min, bit_or, bit_and, digits, bit_or-bitwise, bit_and-bitwise}
use os.Common.{
  ℕ, zero, suc, ◌+◌, ◌*◌, ◌/◌, ◌%◌, ◌^◌, ◌≤◌, ◌<◌, ◌≡◌, refl, sym, ap, ◌∙◌, arith, true, false,
}
use os.Vm.{pte_v, pte_pa, pa2pte, is_valid}

-- The result of an operation on digits, by the digits of the first number that are left; `keep` is
-- for the digits of the second number behind them.
module _ (keep : ℕ → ℕ) (op : ℕ → ℕ → ℕ) where
  abbrev digitwise : ℕ → ℕ → ℕ → ℕ
  digitwise n a b = digits keep op n a b

  -- More digits than the first number has are enough.
  pub digitwise_enough : (n m a b : ℕ) → a ≤ n → a ≤ m → digitwise n a b ≡ digitwise m a b
  digitwise_enough zero zero a b h k = refl
  digitwise_enough zero (suc m) zero b h k = refl
  digitwise_enough zero (suc m) (suc a) b h k = absurd (omega arith)
  digitwise_enough (suc n) zero zero b h k = refl
  digitwise_enough (suc n) zero (suc a) b h k = absurd (omega arith)
  digitwise_enough (suc n) (suc m) zero b h k = refl
  digitwise_enough (suc n) (suc m) (suc a) b h k =
      omega (arith, digitwise_enough n m (suc a / 2) (b / 2) (omega arith) (omega arith))

bit_or_zero_left : (b : ℕ) → bit_or 0 b ≡ b
bit_or_zero_left b = bit_or-bitwise 0 b

-- `|` works digit by digit.
bit_or_digit : (a b : ℕ) → bit_or a b ≡ bit_or (a / 2) (b / 2) * 2 + max (a % 2) (b % 2)
bit_or_digit zero b = omega (arith, bit_or_zero_left b, bit_or_zero_left (b / 2))
bit_or_digit (suc a) b = omega (
  arith,
  bit_or-bitwise (suc a) b,
  bit_or-bitwise (suc a / 2) (b / 2),
  digitwise_enough (λ d. d) max a (suc a / 2) (suc a / 2) (b / 2) (omega arith) (omega arith),
)

pub bit_or_half : (a b : ℕ) → bit_or a b / 2 ≡ bit_or (a / 2) (b / 2)
bit_or_half a b = omega (arith, bit_or_digit a b)

pub bit_or_low : (a b : ℕ) → bit_or a b % 2 ≡ max (a % 2) (b % 2)
bit_or_low a b = omega (arith, bit_or_digit a b)

bit_or-zero : (a : ℕ) → bit_or a 0 ≡ a
bit_or-zero a = go a a (omega arith)
  where
    go : (n a : ℕ) → a ≤ n → bit_or a 0 ≡ a
    go zero zero h = refl
    go zero (suc a) h = absurd (omega arith)
    go (suc n) a h = omega (arith, bit_or_digit a 0, go n (a / 2) (omega arith))

-- `a >> k`
abbrev halves : ℕ → ℕ → ℕ
halves zero a = a
halves (suc k) a = halves k (a / 2)

-- Shifts to the right pass through `|`.
halves-bit_or : (k a b : ℕ) → halves k (bit_or a b) ≡ bit_or (halves k a) (halves k b)
halves-bit_or zero a b = refl
halves-bit_or (suc k) a b = ap (halves k) (bit_or_half a b) ∙ halves-bit_or k (a / 2) (b / 2)

halves_ten : (a : ℕ) → halves 10 a ≡ a / 2 ^ 10
halves_ten a = omega arith

-- The flags do not reach the address,
flags-address : (a f : ℕ) → f < 2 ^ 10 → bit_or a f / 2 ^ 10 ≡ a / 2 ^ 10
flags-address a f h =
    let none : halves 10 f ≡ 0 = omega arith in
    sym (halves_ten (bit_or a f))
    ∙ halves-bit_or 10 a f
    ∙ ap (bit_or (halves 10 a)) none
    ∙ bit_or-zero (halves 10 a)
    ∙ halves_ten a

pub bit_and_digit : (a b : ℕ) → bit_and a b % 2 ≡ min (a % 2) (b % 2)
bit_and_digit zero b = omega (arith, bit_and-bitwise 0 b)
bit_and_digit (suc a) b = omega (arith, bit_and-bitwise (suc a) b)

-- and PTE_V is set.
pub is_valid-flag : (a : ℕ) → is_valid (bit_or a pte_v) ≡ true
is_valid-flag a = ground (arith, bit_and_digit (bit_or a 1) 1, bit_or_low a 1)

pub is_valid_zero : is_valid 0 ≡ false
is_valid_zero = refl

-- An address of a page, less than 2 ^ 56, is got back.
pub pte_pa-pa2pte :
    (pa f : ℕ) → pa % 2 ^ 12 ≡ 0 → pa < 2 ^ 56 → f < 2 ^ 10 → pte_pa (bit_or (pa2pte pa) f) ≡ pa
pte_pa-pa2pte pa f h k l =
    ap (λ n. n * 2 ^ 12 % 2 ^ 64) (flags-address (pa2pte pa) f l) ∙ (omega arith)
