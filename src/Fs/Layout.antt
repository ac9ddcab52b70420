-- ===== src/Fs/Layout.antt =====
-- The empty file system that riscv-os/kernel/virtio_disk.c makes (virtio_disk_init).
use os.Common.{
  ℕ, zero, suc, ◌+◌, ◌-◌, ◌*◌, ◌/◌, ◌%◌, ◌≤◌, ◌<◌, ◌≡◌, refl, ap, ◌∙◌, arith, false, not, ◌&&◌,
  ◌==◌, ltb, leb,
}
use os.Machine.{Block, fssize}
use os.Fs.Bitmap.{bpb, clear, set_bit, decode_sb}
use os.Bytes.{get32, set32}
use os.Fs.Masks.{clear-zero, set_bit-clear_bit, set_bit_width}
use os.Fs.Inodes.{ipb}
use os.Fs.Format.{layout, data_start, mark_used, format}

-- The blocks from `first` up to `last` have room for the items, `per` to a block, and all but the
-- last are full.
abbrev Fills : ℕ → ℕ → ℕ → ℕ → Type 0
Fills items per first last =
    (first ≤ last) × (items ≤ (last - first) * per) × ((last - first) * per < items + per)

mark_used-clear :
    (rounds bno : ℕ) (bits : Block) (j : ℕ)
    → ((i : ℕ) → bits i < 256)
    → bno + rounds ≤ bpb
    → clear (mark_used rounds bno bits) j
      ≡ (not (leb bno j && ltb j (bno + rounds)) && clear bits j)
unfolding mark_used
mark_used-clear zero bno bits j h k =
    let none : (leb bno j && ltb j (bno + zero)) ≡ false = ground arith in rw none refl
mark_used-clear (suc rounds) bno bits j h k =
    let here : bno % bpb ≡ bno = omega arith in
    let one = set_bit bits (bno % bpb) in
    let split : (not (leb (bno + 1) j && ltb j (bno + 1 + rounds))
          && (not (j == bno) && clear bits j))
        ≡ (not (leb bno j && ltb j (bno + suc rounds)) && clear bits j) =
      ground arith in
    mark_used-clear rounds (bno + 1) one j (set_bit_width bits (bno % bpb) h) (omega arith)
    ∙ ap (λ c. not (leb (bno + 1) j && ltb j (bno + 1 + rounds)) && c)
        ((set_bit-clear_bit bits (bno % bpb) j (h (bno % bpb / 8))).0
          ∙ ap (λ m. not (j == m) && clear bits j) here)
    ∙ split

-- On the disk that virtio_disk_init leaves, readsb finds the layout in block 1: from block 2 on the
-- log, the inodes, the bitmap and the data follow each other up to the end of the disk, with as many
-- blocks as hold the inodes and the bits and no more. The bitmap has a set bit for the blocks before
-- the first data block and for no other, and no inode is in use.
pub format_lem :
    (decode_sb (format 1) ≡ layout)
    × (layout.size ≡ fssize)
    × (layout.logstart ≡ 2)
    × (layout.logstart + layout.nlog ≡ layout.inodestart)
    × Fills layout.ninodes ipb layout.inodestart layout.bmapstart
    × Fills layout.size bpb layout.bmapstart data_start
    × (data_start + layout.nblocks ≡ fssize)
    × ((j : ℕ) → j < bpb → clear (format layout.bmapstart) j ≡ leb data_start j)
    × ((b i : ℕ) → layout.inodestart ≤ b → b < layout.bmapstart → format b i ≡ 0)
unfolding format layout data_start get32 set32
format_lem = (
  refl,
  refl,
  refl,
  refl,
  (omega arith, omega arith, omega arith),
  (omega arith, omega arith, omega arith),
  refl,
  λ j h.
      mark_used-clear data_start 0 (λ _. 0) j (λ i. omega arith) (omega arith)
      ∙ ap (λ c. not (leb 0 j && ltb j (0 + data_start)) && c) (clear-zero j)
      ∙ (ground arith),
  λ b i low high. ground arith,
)
