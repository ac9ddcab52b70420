-- ===== src/Fs/Bits.antt =====
-- The bitmap of riscv-os/kernel/fs.c: the search of balloc.
use os.Common.{
  ℕ, zero, suc, ◌+◌, ◌%◌, ◌^◌, ◌≤◌, ◌<◌, ◌≡◌, inl, inr, ap, ◌∙◌, subst, arith, true, false, ltb,
  ◌==◌, Bool-cases, Option, none, some,
}
use os.Machine.{Block}
use os.Fs.Bitmap.{clear, find_clear}

-- What a search from `from` has found: the first clear bit below the size, or that every bit before
-- the end of the block or of the disk is set.
pub data Found (bits : Block) (bno size from end : ℕ) : Option ℕ → Type 0 where
  first :
      (bi : ℕ)
      → from ≤ bi
      → bi < end
      → bno + bi < size
      → clear bits bi ≡ true
      → ((j : ℕ) → from ≤ j → j < bi → clear bits j ≡ false)
      → Found bits bno size from end (some bi)
  full :
      ((j : ℕ) → from ≤ j → j < end → bno + j < size → clear bits j ≡ false)
      → Found bits bno size from end none

-- A set bit before what a search has found.
Found-before :
    (bits : Block) (bno size from end : ℕ) (r : Option ℕ)
    → clear bits from ≡ false
    → Found bits bno size (from + 1) end r
    → Found bits bno size from end r
Found-before bits bno size from end r set (first bi a b c d e) =
    first bi (omega arith) b c d (λ j h k. elim (Bool-cases (j == from)) [
      | inl same ↦ ap (clear bits) (ground arith) ∙ set
      | inr other ↦ e j (ground arith) k
    ])
Found-before bits bno size from end r set (full e) = full (λ j h k l.
    elim (Bool-cases (j == from)) [
      | inl same ↦ ap (clear bits) (ground arith) ∙ set
      | inr other ↦ e j (ground arith) k l
    ])

-- The search of balloc in the bitmap block of the blocks from `bno` on finds the first bit from `bi`
-- on that is clear and belongs to a block of the disk, or none if there is no such bit among those
-- left; the numbers of the blocks do not wrap around.
pub find_clear-Found :
    (rounds bi bno size : ℕ) (bits : Block)
    → size < 2 ^ 32
    → bno + bi + rounds < 2 ^ 32
    → Found bits bno size bi (bi + rounds) (find_clear rounds bi bno size bits)
unfolding find_clear
find_clear-Found zero bi bno size bits h k = full (λ j l m. absurd (omega arith))
find_clear-Found (suc rounds) bi bno size bits h k =
    let next = find_clear rounds (bi + 1) bno size bits in
    let rest : Found bits bno size (bi + 1) (bi + suc rounds) next =
      subst (λ end. Found bits bno size (bi + 1) end next) (omega arith)
        (find_clear-Found rounds (bi + 1) bno size bits h (omega arith)) in
    elim (Bool-cases (ltb ((bno + bi) % 2 ^ 32) size)) [
      | inl inside ↦ elim (Bool-cases (clear bits bi)) [
        | inl free ↦
            rw (inside, free, find_clear)
              (first bi (omega arith) (omega arith) (ground arith) free
                (λ j l m. absurd (omega arith)))
        | inr set ↦
            rw (inside, set, find_clear)
              (Found-before bits bno size bi (bi + suc rounds) next set rest)
      ]
      | inr outside ↦ rw (outside, find_clear) (full (λ j l m n. absurd (ground arith)))
    ]
