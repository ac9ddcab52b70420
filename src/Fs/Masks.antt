-- ===== src/Fs/Masks.antt =====
-- The bits of the bitmap in riscv-os/kernel/fs.c, set by balloc and cleared by bfree. The laws of
-- one byte are checked for all its values.
use Prim.Native.Nat.{bit_and, bit_or, bit_xor}
use os.Common.{
  ℕ, zero, suc, ◌/◌, ◌%◌, ◌^◌, ◌<◌, ◌≡◌, inl, inr, refl, sym, ap, ◌∙◌, arith, Bool, true, false,
  not, ◌&&◌, ◌||◌, ◌==◌, ltb, Bool-cases, ltb→lt,
}
use os.Machine.{Block}
use os.Fs.Bitmap.{clear, set_bit, clear_bit}

-- The test holds for every number below `n`.
abbrev pub all_below : ℕ → (ℕ → Bool) → Bool
all_below zero f = true
all_below (suc n) f = f n && all_below n f

pub all_below-at : (n i : ℕ) (f : ℕ → Bool) → i < n → all_below n f ≡ true → f i ≡ true
all_below-at zero i f h e = absurd (omega arith)
all_below-at (suc n) i f h e = elim (Bool-cases (i == n)) [
  | inl same ↦ (let here : i ≡ n = ground arith in ap f here ∙ (ground arith))
  | inr other ↦ all_below-at n i f (ground arith) (ground arith)
]

-- Both answer alike.
abbrev iff : Bool → Bool → Bool
iff true b = b
iff false b = not b

iff→eq : (a b : Bool) → iff a b ≡ true → a ≡ b
iff→eq true b e = sym e
iff→eq false true e = e
iff→eq false false e = refl

abbrev bit_clear : ℕ → ℕ → Bool
bit_clear a j = bit_and a (2 ^ j) == 0

-- `a |= 1 << i` in the view of bit `j`.
abbrev set_test : ℕ → ℕ → ℕ → Bool
set_test a i j = iff (bit_clear (bit_or a (2 ^ i)) j) (not (j == i) && bit_clear a j)

-- `a &= ~(1 << i)` in the view of bit `j`.
abbrev clear_test : ℕ → ℕ → ℕ → Bool
clear_test a i j = iff (bit_clear (bit_and a (bit_xor 255 (2 ^ i))) j) ((j == i) || bit_clear a j)

abbrev width_test : ℕ → ℕ → Bool
width_test a i = ltb (bit_or a (2 ^ i)) 256 && ltb (bit_and a (bit_xor 255 (2 ^ i))) 256

all_set : all_below 256 (λ a. all_below 8 (λ i. all_below 8 (set_test a i))) ≡ true
all_set = refl

all_clear : all_below 256 (λ a. all_below 8 (λ i. all_below 8 (clear_test a i))) ≡ true
all_clear = refl

all_width : all_below 256 (λ a. all_below 8 (width_test a)) ≡ true
all_width = refl

set_byte :
    (a i j : ℕ)
    → a < 256
    → i < 8
    → j < 8
    → bit_clear (bit_or a (2 ^ i)) j ≡ (not (j == i) && bit_clear a j)
set_byte a i j ha hi hj = iff→eq _ _ (
    all_below-at 8 j (set_test a i) hj (
      all_below-at 8 i (λ m. all_below 8 (set_test a m)) hi
        (all_below-at 256 a (λ v. all_below 8 (λ m. all_below 8 (set_test v m))) ha all_set)))

clear_byte :
    (a i j : ℕ)
    → a < 256
    → i < 8
    → j < 8
    → bit_clear (bit_and a (bit_xor 255 (2 ^ i))) j ≡ ((j == i) || bit_clear a j)
clear_byte a i j ha hi hj = iff→eq _ _ (
    all_below-at 8 j (clear_test a i) hj (
      all_below-at 8 i (λ m. all_below 8 (clear_test a m)) hi
        (all_below-at 256 a (λ v. all_below 8 (λ m. all_below 8 (clear_test v m))) ha all_clear)))

pub set_byte_width : (a i : ℕ) → a < 256 → i < 8 → bit_or a (2 ^ i) < 256
set_byte_width a i ha hi =
    let both : width_test a i ≡ true =
      all_below-at 8 i (width_test a) hi
        (all_below-at 256 a (λ v. all_below 8 (width_test v)) ha all_width) in
    ltb→lt (bit_or a (2 ^ i)) 256 (ground arith)

pub clear_byte_width : (a i : ℕ) → a < 256 → i < 8 → bit_and a (bit_xor 255 (2 ^ i)) < 256
clear_byte_width a i ha hi =
    let both : width_test a i ≡ true =
      all_below-at 8 i (width_test a) hi
        (all_below-at 256 a (λ v. all_below 8 (width_test v)) ha all_width) in
    ltb→lt (bit_and a (bit_xor 255 (2 ^ i))) 256 (ground arith)

-- Setting the bit of a block marks that one and leaves every other bit, and clearing it frees that
-- one and leaves every other bit; the byte it is in has 8 bits.
pub set_bit-clear_bit :
    (bits : Block) (bi bj : ℕ)
    → bits (bi / 8) < 256
    → (clear (set_bit bits bi) bj ≡ (not (bj == bi) && clear bits bj))
      × (clear (clear_bit bits bi) bj ≡ ((bj == bi) || clear bits bj))
unfolding set_bit clear_bit
set_bit-clear_bit bits bi bj h = elim (Bool-cases (bj / 8 == bi / 8)) [
  | inl same ↦
      let e : bi / 8 ≡ bj / 8 = ground arith in
      let place : (bj % 8 == bi % 8) ≡ (bj == bi) = ground arith in
      let byte = bits (bi / 8) in
      (
        rw (same, set_bit)
            (set_byte byte (bi % 8) (bj % 8) h (omega arith) (omega arith)
              ∙ ap (λ t. not t && bit_clear byte (bj % 8)) place
              ∙ ap (λ m. not (bj == bi) && bit_clear (bits m) (bj % 8)) e),
        rw (same, clear_bit)
            (clear_byte byte (bi % 8) (bj % 8) h (omega arith) (omega arith)
              ∙ ap (λ t. t || bit_clear byte (bj % 8)) place
              ∙ ap (λ m. (bj == bi) || bit_clear (bits m) (bj % 8)) e),
      )
  | inr other ↦
      let apart : (bj == bi) ≡ false = ground arith in
      (rw (other, apart) refl, rw (other, apart) refl)
]

-- The bitmap keeps to bytes.
pub set_bit_width :
    (bits : Block) (bi : ℕ) → ((i : ℕ) → bits i < 256) → (i : ℕ) → set_bit bits bi i < 256
unfolding set_bit
set_bit_width bits bi h i = elim (Bool-cases (i == bi / 8)) [
  | inl same ↦
      rw (same, set_bit) (set_byte_width (bits (bi / 8)) (bi % 8) (h (bi / 8)) (omega arith))
  | inr other ↦ rw (other, set_bit) (h i)
]

pub clear_bit_width :
    (bits : Block) (bi : ℕ) → ((i : ℕ) → bits i < 256) → (i : ℕ) → clear_bit bits bi i < 256
unfolding clear_bit
clear_bit_width bits bi h i = elim (Bool-cases (i == bi / 8)) [
  | inl same ↦
      rw (same, clear_bit) (clear_byte_width (bits (bi / 8)) (bi % 8) (h (bi / 8)) (omega arith))
  | inr other ↦ rw (other, clear_bit) (h i)
]

pub clear-zero : (j : ℕ) → clear (λ _. 0) j ≡ true
clear-zero j = all_below-at 8 (j % 8) (bit_clear 0) (omega arith) refl
