-- ===== src/FsDebug.antt =====
-- riscv-os/kernel/fs_debug.c: the counts of free blocks and inodes, and the check of the file
-- system. Of the lines on the console the numbers are kept that the dumps print, in order.
pub mod Looks
pub mod Counts
pub mod Balance
pub mod Notes
pub mod Inodes
pub mod Verdict
pub mod Check
pub mod References
pub mod Upkeep
use os.Common.{
  ℕ, zero, suc, ◌+◌, ◌-◌, ◌*◌, ◌/◌, ◌%◌, ◌^◌, Bool, true, false, not, if◌then◌else◌, ltb, leb, ◌==◌,
  update, List, [], ◌∷◌, ◌++◌, M, pure, get, spin, ◌>>=◌, ◌>>◌,
}
use os.Machine.{Machine, Superblock, Inode, Block}
use os.Bytes.{get16, get32, clear_bytes}
use os.Bio.{bread, brelse}
use os.Fs.Bitmap.{bpb, bblock, clear}
use os.Fs.Contents.{minus_one}
use os.Fs.Directories.{rootdev}
use os.Fs.Inodes.{ninode, ndirect, nindirect, iblock, dinode_at, t_unused}

unfoldable pub bitmap_isset : ℕ → ℕ → M Machine ℕ
bitmap_isset dev bno = do
  s ← get
  i ← bread dev (bblock bno s.sb)
  t ← get
  brelse i
  pure (if clear (t.buf i).bytes (bno % bpb) then 0 else 1)

abbrev pub calc_nbitmap : Superblock → ℕ
calc_nbitmap sb = (sb.size + bpb - 1) % 2 ^ 32 / bpb

abbrev pub calc_datastart : Superblock → ℕ
calc_datastart sb = (sb.bmapstart + calc_nbitmap sb) % 2 ^ 32

-- The loop over the blocks, by the rounds left.
unfoldable pub count_blocks_loop : ℕ → ℕ → ℕ → ℕ → M Machine ℕ
count_blocks_loop zero dev bno free = spin
count_blocks_loop (suc rounds) dev bno free = do
  s ← get
  if ltb bno s.sb.size
      then (do
        set ← bitmap_isset dev bno
        count_blocks_loop rounds dev ((bno + 1) % 2 ^ 32)
            (if set == 0 then (free + 1) % 2 ^ 32 else free))
      else pure free

unfoldable pub count_free_blocks : M Machine ℕ
unfolding count_blocks_loop
count_free_blocks = do s ← get; count_blocks_loop (suc s.sb.size) rootdev (calc_datastart s.sb) 0

-- The loop over the inodes, by the rounds left.
unfoldable pub count_inodes_loop : ℕ → ℕ → ℕ → ℕ → M Machine ℕ
count_inodes_loop zero dev inum free = spin
count_inodes_loop (suc rounds) dev inum free = do
  s ← get
  if ltb inum s.sb.ninodes
      then (do
        i ← bread dev (iblock inum s.sb)
        t ← get
        brelse i
        count_inodes_loop rounds dev ((inum + 1) % 2 ^ 32) (
            if get16 (t.buf i).bytes (dinode_at inum) == t_unused
            then (free + 1) % 2 ^ 32
            else free))
      else pure free

unfoldable pub count_free_inodes : M Machine ℕ
unfolding count_inodes_loop
count_free_inodes = do s ← get; count_inodes_loop (suc s.sb.ninodes) rootdev 1 0

unfoldable pub debug_disk_io : M Machine (List ℕ)
debug_disk_io = do s ← get; pure (s.disk_read_count ∷ s.disk_write_count ∷ [])

-- The places of the inode cache from `i` on, by the number of them left.
unfoldable pub usage_loop : ℕ → ℕ → (ℕ → Inode) → List ℕ
usage_loop zero i inode = []
usage_loop (suc rounds) i inode =
    let x = inode i in
    let rest = usage_loop rounds (i + 1) inode in
    if ltb 0 x.ref
    then i ∷ x.dev ∷ x.inum ∷ x.ref ∷ (if x.valid then 1 else 0) ∷ x.type ∷ x.size ∷ rest
    else rest

unfoldable pub debug_inode_usage : M Machine (List ℕ)
unfolding usage_loop
debug_inode_usage = do s ← get; pure (usage_loop ninode 0 s.inode)

unfoldable pub debug_filesystem_state : M Machine (List ℕ)
unfolding count_free_blocks count_free_inodes debug_disk_io
debug_filesystem_state = do
  s ← get
  freeb ← count_free_blocks
  freei ← count_free_inodes
  t ← get
  io ← debug_disk_io
  let layout =
      s.sb.size
      ∷ s.sb.nblocks
      ∷ s.sb.ninodes
      ∷ s.sb.nlog
      ∷ s.sb.logstart
      ∷ s.sb.inodestart
      ∷ s.sb.bmapstart
      ∷ calc_datastart s.sb
      ∷ []
  pure (layout ++ freeb ∷ freei ∷ t.buffer_cache_hits ∷ t.buffer_cache_misses ∷ io)

-- `FSCK_MAXBLOCKS`
abbrev pub fsck_maxblocks : ℕ
fsck_maxblocks = 4096

-- The variables of fsck_lite that its inner function changes.
pub record Found : Type 0 where
  pub used : Block
  pub errors : ℕ

abbrev pub bad : Found → Found
bad c = record c { errors = (c.errors + 1) % 2 ^ 32 }

unfoldable pub check_addr : ℕ → ℕ → ℕ → ℕ → Found → M Machine Found
unfolding bitmap_isset
check_addr dev limit datastart addr c =
    if addr == 0
    then pure c
    else if leb limit addr
    then pure (bad c)
    else if ltb addr datastart
    then pure (bad c)
    else if not (c.used addr == 0)
    then pure (bad c)
    else do
      set ← bitmap_isset dev addr
      let d = record c { used = update c.used addr 1 }
      pure (if set == 0 then bad d else d)

-- The loops over the words of buffer `b` from offset `o` on, by the number of them left. check_addr
-- does nothing for a zero, so the test of the second loop before the call is left out.
unfoldable pub check_words : ℕ → ℕ → ℕ → ℕ → ℕ → ℕ → Found → M Machine Found
unfolding check_addr
check_words zero dev limit datastart b o c = pure c
check_words (suc rounds) dev limit datastart b o c = do
  s ← get
  d ← check_addr dev limit datastart (get32 (s.buf b).bytes o) c
  check_words rounds dev limit datastart b (o + 4) d

-- What is done about an indirect block of so many words.
unfoldable pub check_block : ℕ → ℕ → ℕ → ℕ → ℕ → Found → M Machine Found
check_block entries dev limit datastart indirect c = do
  d ← check_addr dev limit datastart indirect c
  ib ← bread dev indirect
  e ← check_words entries dev limit datastart ib 0 d
  brelse ib
  pure e

unfoldable pub check_indirect : ℕ → ℕ → ℕ → ℕ → Found → M Machine Found
check_indirect dev limit datastart indirect c =
    if indirect == 0 then pure c else check_block nindirect dev limit datastart indirect c

-- What is done about the dinode of a file in buffer `b`.
unfoldable pub check_dinode : ℕ → ℕ → ℕ → ℕ → ℕ → Found → M Machine Found
check_dinode dev limit datastart b inum c = do
  d ← check_words ndirect dev limit datastart b (dinode_at inum + 12) c
  s ← get
  check_indirect dev limit datastart (get32 (s.buf b).bytes (dinode_at inum + 12 + 4 * ndirect)) d

-- The body of the loop over the inodes.
unfoldable pub check_inode : ℕ → ℕ → ℕ → ℕ → Found → M Machine Found
check_inode dev limit datastart inum c = do
  s ← get
  b ← bread dev (iblock inum s.sb)
  t ← get
  if get16 (t.buf b).bytes (dinode_at inum) == t_unused
      then brelse b >> pure c
      else (do d ← check_dinode dev limit datastart b inum c; brelse b; pure d)

unfoldable pub fsck_loop : ℕ → ℕ → ℕ → ℕ → ℕ → Found → M Machine Found
fsck_loop zero dev limit datastart inum c = spin
fsck_loop (suc rounds) dev limit datastart inum c = do
  s ← get
  if ltb inum s.sb.ninodes
      then (do
        d ← check_inode dev limit datastart inum c
        fsck_loop rounds dev limit datastart ((inum + 1) % 2 ^ 32) d)
      else pure c

-- With the static array `used` as it is at the call.
unfoldable pub fsck_lite : Block → M Machine ℕ
fsck_lite used = do
  s ← get
  let limit = if ltb s.sb.size fsck_maxblocks then s.sb.size else fsck_maxblocks
  c ←
      fsck_loop (suc s.sb.ninodes) rootdev limit (calc_datastart s.sb) 1
        (record { used = clear_bytes used 0 limit; errors = 0 })
  pure (if c.errors == 0 then 0 else minus_one)
