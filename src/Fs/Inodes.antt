-- ===== src/Fs/Inodes.antt =====
-- Inodes (riscv-os/kernel/fs.c: bmap, and iinit to itrunc).
use os.Common.{
  ℕ, zero, suc, ◌+◌, ◌-◌, ◌*◌, ◌/◌, ◌%◌, Bool, true, false, ◌&&◌, if◌then◌else◌, ltb, leb, ◌==◌,
  update, Option, none, some, Run, ok, hang, M, pure, get, modify, fail, ◌>>=◌, ◌>>◌,
}
use os.Lock.{Cpu, Spinlock, Sleeplock, initlock, initsleeplock, acquire, release}
use os.Machine.{Machine, Block, Inode, Superblock, bsize}
use os.Bytes.{get16, set16, get32, set32}
use os.Bio.{bread, brelse}
use os.Log.{bwrite}
use os.Fs.Bitmap.{edit, balloc}

abbrev pub ninode : ℕ
ninode = 50

abbrev pub ndirect : ℕ
ndirect = 12

-- `sizeof(struct dinode)`: four shorts, the size and the thirteen addresses.
abbrev pub dinode_size : ℕ
dinode_size = 64

abbrev pub ipb : ℕ
ipb = bsize / dinode_size

abbrev pub nindirect : ℕ
nindirect = bsize / 4

abbrev pub maxfile : ℕ
maxfile = ndirect + nindirect

abbrev pub iblock : ℕ → Superblock → ℕ
iblock inum sb = inum / ipb + sb.inodestart

abbrev pub t_unused : ℕ
t_unused = 0

abbrev pub t_dir : ℕ
t_dir = 1

abbrev pub t_file : ℕ
t_file = 2

abbrev pub t_dev : ℕ
t_dev = 3

abbrev pub set_inode : ℕ → Inode → Machine → Machine
set_inode i x s = record s { inode = update s.inode i x }

-- Assigns fields of the inode in place `i`.
abbrev pub change : ℕ → (Inode → Inode) → M Machine (Unit {0})
change i f = modify (λ s. set_inode i (f (s.inode i)) s)

abbrev pub put_icache : Machine → Option (Cpu × Spinlock) → Run Machine (Unit {0})
put_icache s none = hang
put_icache s (some (c, l)) = ok tt (record s { cpu = c; icache_lock = l })

abbrev pub put_ilock : ℕ → Machine → Option (Cpu × Sleeplock) → Run Machine (Unit {0})
put_ilock i s none = hang
put_ilock i s (some (c, l)) =
    ok tt (set_inode i (record (s.inode i) { lock = l }) (record s { cpu = c }))

abbrev pub put_iheld : ℕ → Machine → Option (Bool × Cpu × Sleeplock) → Run Machine Bool
put_iheld i s none = hang
put_iheld i s (some (held, c, l)) =
    ok held (set_inode i (record (s.inode i) { lock = l }) (record s { cpu = c }))

abbrev pub acquire_icache : M Machine (Unit {0})
acquire_icache s = put_icache s (acquire s.cpu s.icache_lock)

abbrev pub release_icache : M Machine (Unit {0})
release_icache s = put_icache s (some (release s.cpu s.icache_lock))

-- The entry of an indirect block, allocated if it is wanted and missing.
unfoldable pub bmap_entry : ℕ → ℕ → ℕ → Bool → M Machine (Unit {0})
bmap_entry dev i bn alloc = do
  s ← get
  if (get32 (s.buf i).bytes (4 * bn) == 0) && alloc
      then (do addr ← balloc dev; edit i (λ b. set32 b (4 * bn) addr); bwrite i)
      else pure tt

-- The part of bmap behind the indirect block `addr`.
unfoldable pub bmap_indirect : ℕ → ℕ → Bool → ℕ → M Machine ℕ
unfolding bmap_entry
bmap_indirect ip bn alloc addr = do
  s ← get
  i ← bread (s.inode ip).dev addr
  bmap_entry (s.inode ip).dev i bn alloc
  t ← get
  brelse i
  pure (get32 (t.buf i).bytes (4 * bn))

-- The address in slot `k` of the inode, allocated if it is wanted and missing.
unfoldable pub bmap_slot : ℕ → ℕ → Bool → M Machine ℕ
bmap_slot ip k alloc = do
  s ← get
  if ((s.inode ip).addrs k == 0) && alloc
      then (do
        addr ← balloc (s.inode ip).dev
        change ip (λ x. record x { addrs = update x.addrs k addr })
        pure addr)
      else pure ((s.inode ip).addrs k)

unfoldable pub bmap : ℕ → ℕ → Bool → M Machine ℕ
unfolding bmap_slot bmap_indirect
bmap ip bn alloc =
    if ltb bn ndirect
    then bmap_slot ip bn alloc
    else if leb nindirect (bn - ndirect)
    then fail "bmap: out of range"
    else do
      addr ← bmap_slot ip ndirect alloc
      if addr == 0 then pure 0 else bmap_indirect ip (bn - ndirect) alloc addr

-- `for (int i = 0; i < NINODE; i++)` of iinit, by the rounds left.
iinit_loop : ℕ → ℕ → (ℕ → Inode) → ℕ → Inode
iinit_loop zero i inode = inode
iinit_loop (suc rounds) i inode =
    iinit_loop rounds (i + 1)
      (update inode i (record (inode i) { ref = 0; valid = false; lock = initsleeplock }))

unfoldable pub iinit : M Machine (Unit {0})
unfolding iinit_loop
iinit = modify (λ s. record s { icache_lock = initlock; inode = iinit_loop ninode 0 s.inode })

-- How the scan of iget ends: at an inode that is in the cache, or at the end, with the first free
-- place, if there is one.
pub data Scan : Type 0 where
  cached : ℕ → Scan
  missing : Option ℕ → Scan

-- A count of references is read without sign, which is the `int` below 2 ^ 31.
abbrev pub is_inode : ℕ → ℕ → Inode → Bool
is_inode dev inum x = ltb 0 x.ref && (x.dev == dev) && (x.inum == inum)

-- `if (empty == 0 && ip->ref == 0) empty = ip;`
abbrev pub note_empty : Option ℕ → ℕ → Inode → Option ℕ
note_empty none i x = if x.ref == 0 then some i else none
note_empty (some e) i x = some e

unfoldable pub iget_scan : ℕ → ℕ → ℕ → ℕ → (ℕ → Inode) → Option ℕ → Scan
iget_scan zero i dev inum inode empty = missing empty
iget_scan (suc rounds) i dev inum inode empty = elim (is_inode dev inum (inode i)) [
  | true ↦ cached i
  | false ↦ iget_scan rounds (i + 1) dev inum inode (note_empty empty i (inode i))
]

unfoldable pub iget_found : ℕ → ℕ → Scan → M Machine ℕ
iget_found dev inum (cached i) = do
  change i (λ x. record x { ref = x.ref + 1 })
  release_icache
  pure i
iget_found dev inum (missing none) = release_icache >> fail "iget: no free inode"
iget_found dev inum (missing (some i)) = do
  change i (λ x. record x { dev = dev; inum = inum; ref = 1; valid = false })
  release_icache
  pure i

unfoldable pub iget : ℕ → ℕ → M Machine ℕ
unfolding iget_scan iget_found
iget dev inum = do
  acquire_icache
  s ← get
  iget_found dev inum (iget_scan ninode 0 dev inum s.inode none)

-- The offset of a dinode in its block, and of its fields.
abbrev pub dinode_at : ℕ → ℕ
dinode_at inum = (inum % ipb) * dinode_size

-- `dip->addrs[i] = ip->addrs[i]`, for the rounds left.
unfoldable pub store_addrs : ℕ → ℕ → (ℕ → ℕ) → ℕ → Block → Block
store_addrs zero i addrs o b = b
store_addrs (suc rounds) i addrs o b =
    store_addrs rounds (i + 1) addrs o (set32 b (o + 12 + 4 * i) (addrs i))

-- `ip->addrs[i] = dip->addrs[i]`, for the rounds left.
unfoldable pub load_addrs : ℕ → ℕ → Block → ℕ → (ℕ → ℕ) → ℕ → ℕ
load_addrs zero i b o addrs = addrs
load_addrs (suc rounds) i b o addrs =
    load_addrs rounds (i + 1) b o (update addrs i (get32 b (o + 12 + 4 * i)))

unfoldable pub store_dinode : Inode → ℕ → Block → Block
unfolding store_addrs
store_dinode x o b = store_addrs (ndirect + 1) 0 x.addrs o (
    set32 (set16 (set16 (set16 (set16 b o x.type) (o + 2) x.major) (o + 4) x.minor) (o + 6) x.nlink)
      (o + 8) x.size)

unfoldable pub load_dinode : Block → ℕ → Inode → Inode
unfolding load_addrs
load_dinode b o x = record x {
  type = get16 b o;
  major = get16 b (o + 2);
  minor = get16 b (o + 4);
  nlink = get16 b (o + 6);
  size = get32 b (o + 8);
  addrs = load_addrs (ndirect + 1) 0 b o x.addrs;
}
