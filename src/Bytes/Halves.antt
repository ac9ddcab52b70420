-- ===== src/Bytes/Halves.antt =====
-- 16-bit fields of a block: written and read, among themselves and beside 32-bit ones.
use os.Common.{ℕ, ◌+◌, ◌%◌, ◌^◌, ◌≤◌, ◌≡◌, ◌⊎◌, arith}
use os.Machine.{Block}
use os.Bytes.{get16, set16, get32, set32}

pub get16-set16 : (b : Block) (o v : ℕ) → get16 (set16 b o v) o ≡ v % 2 ^ 16
unfolding get16 set16
get16-set16 b o v = ground arith

pub get16-set16_apart :
    (b : Block) (o p v : ℕ) → (o + 2 ≤ p) ⊎ (p + 2 ≤ o) → get16 (set16 b p v) o ≡ get16 b o
unfolding get16 set16
get16-set16_apart b o p v h = ground arith

pub get16-set32_apart :
    (b : Block) (o p v : ℕ) → (o + 2 ≤ p) ⊎ (p + 4 ≤ o) → get16 (set32 b p v) o ≡ get16 b o
unfolding get16 set32
get16-set32_apart b o p v h = ground arith

pub get32-set16_apart :
    (b : Block) (o p v : ℕ) → (o + 4 ≤ p) ⊎ (p + 2 ≤ o) → get32 (set16 b p v) o ≡ get32 b o
unfolding get32 set16
get32-set16_apart b o p v h = ground arith
