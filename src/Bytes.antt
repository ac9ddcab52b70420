-- ===== src/Bytes.antt =====
-- Fields of structures in a block: 32-bit words, the least significant byte first, as the code's
-- casts of `b->data` read and write them on RISC-V.
pub mod Halves
use os.Common.{
  ℕ, ◌+◌, ◌-◌, ◌*◌, ◌/◌, ◌%◌, ◌^◌, ◌≤◌, ◌≡◌, ◌⊎◌, arith, update, if◌then◌else◌, leb, ltb, ◌&&◌,
}
use os.Machine.{Block}

unfoldable pub get32 : Block → ℕ → ℕ
get32 b o = b o + 256 * b (o + 1) + 65536 * b (o + 2) + 16777216 * b (o + 3)

unfoldable pub set32 : Block → ℕ → ℕ → Block
set32 b o v =
    update
      (update (update (update b o (v % 256)) (o + 1) (v / 256 % 256)) (o + 2) (v / 65536 % 256))
      (o + 3) (v / 16777216 % 256)

-- 16-bit fields.
unfoldable pub get16 : Block → ℕ → ℕ
get16 b o = b o + 256 * b (o + 1)

unfoldable pub set16 : Block → ℕ → ℕ → Block
set16 b o v = update (update b o (v % 256)) (o + 1) (v / 256 % 256)

-- A word that was written is read back, cut to 32 bits.
pub get32-set32 : (b : Block) (o v : ℕ) → get32 (set32 b o v) o ≡ v % 2 ^ 32
unfolding get32 set32
get32-set32 b o v = ground arith

-- A word apart from the one written stays.
pub get32-set32_apart :
    (b : Block) (o p v : ℕ) → (o + 4 ≤ p) ⊎ (p + 4 ≤ o) → get32 (set32 b p v) o ≡ get32 b o
unfolding get32 set32
get32-set32_apart b o p v h = ground arith

-- memset: `n` bytes from `o` are `c`.
unfoldable pub clear_bytes : Block → ℕ → ℕ → Block
clear_bytes b o n j = if leb o j && ltb j (o + n) then 0 else b j

-- memmove between two arrays: `n` bytes from `from` in `src` go to `o` in `dst`.
unfoldable pub move_bytes : Block → ℕ → Block → ℕ → ℕ → Block
move_bytes dst o src from n j = if leb o j && ltb j (o + n) then src (from + (j - o)) else dst j
