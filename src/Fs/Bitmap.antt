-- ===== src/Fs/Bitmap.antt =====
-- Blocks of the disk (riscv-os/kernel/fs.c: readsb, bzero, balloc, bfree).
use Prim.Native.Nat.{bit_and, bit_or, bit_xor}
use os.Common.{
  ℕ, zero, suc, ◌+◌, ◌*◌, ◌/◌, ◌%◌, ◌^◌, Bool, true, false, if◌then◌else◌, ltb, ◌==◌, update,
  Option, none, some, M, pure, get, modify, fail, spin, ◌>>=◌, ◌>>◌,
}
use os.Machine.{Machine, Block, Superblock, bsize, set_buf}
use os.Bytes.{get32, clear_bytes}
use os.Bio.{bread, brelse}
use os.Log.{bwrite}

-- `BPB`, the bits of a block.
abbrev pub bpb : ℕ
bpb = bsize * 8

abbrev pub bblock : ℕ → Superblock → ℕ
bblock b sb = b / bpb + sb.bmapstart

-- Replaces the bytes of a buffer.
abbrev pub edit : ℕ → (Block → Block) → M Machine (Unit {0})
edit i f = modify (λ s. set_buf i (record (s.buf i) { bytes = f (s.buf i).bytes }) s)

-- The fields of the superblock, in the order of the structure.
abbrev pub decode_sb : Block → Superblock
decode_sb b = record {
  magic = get32 b 0;
  size = get32 b 4;
  nblocks = get32 b 8;
  ninodes = get32 b 12;
  nlog = get32 b 16;
  logstart = get32 b 20;
  inodestart = get32 b 24;
  bmapstart = get32 b 28;
}

unfoldable pub readsb : ℕ → M Machine (Unit {0})
readsb dev = do i ← bread dev 1; modify (λ s. record s { sb = decode_sb (s.buf i).bytes }); brelse i

unfoldable pub bzero : ℕ → ℕ → M Machine (Unit {0})
bzero dev bno = do i ← bread dev bno; edit i (λ b. clear_bytes b 0 bsize); bwrite i; brelse i

-- `1 << (bi % 8)`
abbrev pub mask : ℕ → ℕ
mask bi = 2 ^ (bi % 8)

-- Is the bit clear?
abbrev pub clear : Block → ℕ → Bool
clear bits bi = bit_and (bits (bi / 8)) (mask bi) == 0

-- `bits[byte_index] |= mask`
unfoldable pub set_bit : Block → ℕ → Block
set_bit bits bi = update bits (bi / 8) (bit_or (bits (bi / 8)) (mask bi))

-- `bits[byte_index] &= ~mask`
unfoldable pub clear_bit : Block → ℕ → Block
clear_bit bits bi = update bits (bi / 8) (bit_and (bits (bi / 8)) (bit_xor 255 (mask bi)))

-- The inner loop of balloc, for the bits left from `bi`: the first clear one below the size.
unfoldable pub find_clear : ℕ → ℕ → ℕ → ℕ → Block → Option ℕ
find_clear zero bi bno size bits = none
find_clear (suc rounds) bi bno size bits = elim (ltb ((bno + bi) % 2 ^ 32) size) [
  | false ↦ none
  | true ↦ elim (clear bits bi) [
    | true ↦ some bi
    | false ↦ find_clear rounds (bi + 1) bno size bits
  ]
]

-- What balloc does with the bitmap block in buffer `i`, the next blocks being looked for by `next`.
unfoldable pub balloc_found : ℕ → ℕ → ℕ → Option ℕ → M Machine ℕ → M Machine ℕ
balloc_found dev bno i (some bi) next = do
  edit i (λ bits. set_bit bits bi)
  bwrite i
  brelse i
  bzero dev ((bno + bi) % 2 ^ 32)
  pure ((bno + bi) % 2 ^ 32)
balloc_found dev bno i none next = brelse i >> next

-- The outer loop, by the bitmap blocks that are left.
unfoldable pub balloc_loop : ℕ → ℕ → ℕ → M Machine ℕ
unfolding balloc_found
balloc_loop zero dev bno = spin
balloc_loop (suc rounds) dev bno = do
  s ← get
  if ltb bno s.sb.size
      then (do
        i ← bread dev (bblock bno s.sb)
        t ← get
        balloc_found dev bno i (find_clear bpb 0 bno s.sb.size (t.buf i).bytes)
            (balloc_loop rounds dev ((bno + bpb) % 2 ^ 32)))
      else fail "balloc: out of blocks"

unfoldable pub balloc : ℕ → M Machine ℕ
unfolding balloc_loop
balloc dev = do s ← get; balloc_loop (suc (suc (s.sb.size / bpb))) dev 0

unfoldable pub bfree : ℕ → ℕ → M Machine (Unit {0})
bfree dev bno = do
  s ← get
  i ← bread dev (bblock bno s.sb)
  let bi = bno % bpb
  t ← get
  if clear (t.buf i).bytes bi
      then fail "bfree: block not allocated"
      else do edit i (λ bits. clear_bit bits bi); bwrite i; brelse i
