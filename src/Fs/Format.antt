-- ===== src/Fs/Format.antt =====
-- The empty file system on the RAM disk (riscv-os/kernel/virtio_disk.c: virtio_disk_init), binit of
-- riscv-os/kernel/bio.c, which calls it, and fs_init of riscv-os/kernel/fs.c, which mounts it.
use os.Common.{
  ℕ, zero, suc, ◌+◌, ◌-◌, ◌*◌, ◌/◌, ◌%◌, not, if◌then◌else◌, ◌==◌, update, M, get, modify, fail,
  ◌>>=◌, ◌>>◌,
}
use os.Lock.{initlock}
use os.Machine.{Machine, Block, Superblock, bsize, fssize, logsize}
use os.Bytes.{get16, set16, set32, clear_bytes}
use os.Bio.{binit_ring, bread, brelse}
use os.Log.{bwrite, initlog}
use os.Fs.Bitmap.{bpb, edit, set_bit, readsb, balloc}
use os.Fs.Inodes.{ipb, iblock, iinit, dinode_at, dinode_size, t_unused, t_dir}
use os.Fs.Directories.{dirent_size, rootino}

-- `FSMAGIC`
abbrev pub fsmagic : ℕ
fsmagic = 270544960

-- The blocks that the given number of items fills, `per` to a block.
abbrev pub blocks_for : ℕ → ℕ → ℕ
blocks_for items per = (items + per - 1) / per

-- The layout, and the first data block.
unfoldable pub layout : Superblock
layout = record {
  magic = fsmagic;
  size = fssize;
  nblocks = fssize - (2 + logsize + blocks_for 200 ipb + blocks_for fssize bpb);
  ninodes = 200;
  nlog = logsize;
  logstart = 2;
  inodestart = 2 + logsize;
  bmapstart = 2 + logsize + blocks_for 200 ipb;
}

unfoldable pub data_start : ℕ
unfolding layout
data_start = layout.bmapstart + blocks_for layout.size bpb

abbrev pub encode_sb : Superblock → Block → Block
encode_sb sb b =
    set32
      (set32
        (set32
          (set32 (set32 (set32 (set32 (set32 b 0 sb.magic) 4 sb.size) 8 sb.nblocks) 12 sb.ninodes)
            16 sb.nlog)
          20 sb.logstart)
        24 sb.inodestart)
      28 sb.bmapstart

-- `for (uint32 bno = 0; bno < data_start; bno++)`, by the rounds left from `bno`.
unfoldable pub mark_used : ℕ → ℕ → Block → Block
mark_used zero bno bits = bits
mark_used (suc rounds) bno bits = mark_used rounds (bno + 1) (set_bit bits (bno % bpb))

-- The disk as virtio_disk_init leaves it.
unfoldable pub format : ℕ → Block
unfolding layout data_start mark_used
format =
    update (update (λ _ _. 0) 1 (encode_sb layout (λ _. 0))) layout.bmapstart
      (mark_used data_start 0 (λ _. 0))

unfoldable pub virtio_disk_init : M Machine (Unit {0})
unfolding format
virtio_disk_init = modify (λ s. record s { ramdisk = format })

unfoldable pub binit : M Machine (Unit {0})
unfolding virtio_disk_init
binit = do
  virtio_disk_init
  modify (λ s. record s { bcache_lock = initlock; buf = binit_ring s.buf })

unfoldable pub fileinit : M Machine (Unit {0})
fileinit = modify (λ s. record s { ftable_lock = initlock })

-- The dinode of the root, with its first block.
abbrev pub root_dinode : ℕ → Block → Block
root_dinode o b =
    set32 (set16 (set16 (clear_bytes b o dinode_size) o t_dir) (o + 6) 1) (o + 8) (2 * dirent_size)

-- `.` and `..`; all other entries are cleared.
abbrev pub root_entries : Block → Block
root_entries b =
    let one = update (set16 (clear_bytes b 0 bsize) 0 rootino) 2 46 in
    update (update (set16 one dirent_size rootino) (dirent_size + 2) 46) (dirent_size + 3) 46

-- `if (dip->type == T_UNUSED)` of fs_init: the inode block is in buffer `b`.
unfoldable pub create_root : ℕ → ℕ → M Machine (Unit {0})
create_root dev b = do
  edit b (root_dinode (dinode_at rootino))
  bno ← balloc dev
  edit b (λ v. set32 v (dinode_at rootino + 12) bno)
  bwrite b
  brelse b
  bdata ← bread dev bno
  edit bdata root_entries
  bwrite bdata
  brelse bdata

unfoldable pub mount_root : ℕ → M Machine (Unit {0})
unfolding create_root
mount_root dev = do
  s ← get
  b ← bread dev (iblock rootino s.sb)
  t ← get
  if get16 (t.buf b).bytes (dinode_at rootino) == t_unused then create_root dev b else brelse b

unfoldable pub fs_init : ℕ → M Machine (Unit {0})
unfolding binit fileinit mount_root
fs_init dev = do
  binit
  fileinit
  readsb dev
  s ← get
  if not (s.sb.magic == fsmagic)
      then fail "fs_init: bad superblock magic"
      else do iinit; initlog dev s.sb; mount_root dev
