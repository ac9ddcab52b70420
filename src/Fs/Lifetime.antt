-- ===== src/Fs/Lifetime.antt =====
-- The life of an inode (riscv-os/kernel/fs.c: ialloc to itrunc).
use os.Common.{
  ℕ, zero, suc, ◌+◌, ◌-◌, ◌*◌, ◌^◌, ◌%◌, true, false, not, ◌&&◌, ◌||◌, if◌then◌else◌, ltb, ◌==◌,
  update, Option, none, some, M, pure, get, fail, ◌>>=◌, ◌>>◌,
}
use os.Lock.{acquiresleep, releasesleep, holdingsleep}
use os.Machine.{Machine, Block}
use os.Bytes.{get16, set16, get32, clear_bytes}
use os.Bio.{bread, brelse}
use os.Log.{bwrite}
use os.Fs.Bitmap.{edit, bfree}
use os.Fs.Inodes.{
  ndirect, nindirect, iblock, dinode_at, dinode_size, t_unused, change, put_ilock, put_iheld,
  acquire_icache, release_icache, iget, store_dinode, load_dinode,
}

-- The dinode that ialloc makes: all zero but its type and one link.
abbrev fresh_dinode : ℕ → ℕ → Block → Block
fresh_dinode type o b = set16 (set16 (clear_bytes b o dinode_size) o type) (o + 6) 1

-- `for (uint32 inum = 1; inum < sb.ninodes; inum++)`, by the rounds left.
unfoldable pub ialloc_loop : ℕ → ℕ → ℕ → ℕ → M Machine ℕ
ialloc_loop zero inum dev type = fail "ialloc: no inodes"
ialloc_loop (suc rounds) inum dev type = do
  s ← get
  i ← bread dev (iblock inum s.sb)
  t ← get
  if get16 (t.buf i).bytes (dinode_at inum) == t_unused
      then (do
        edit i (fresh_dinode type (dinode_at inum))
        bwrite i
        brelse i
        ip ← iget dev inum
        change ip (λ x. record x { type = type; nlink = 1 })
        pure ip)
      else (brelse i >> ialloc_loop rounds (inum + 1) dev type)

unfoldable pub ialloc : ℕ → ℕ → M Machine ℕ
unfolding ialloc_loop
ialloc dev type = do s ← get; ialloc_loop (s.sb.ninodes - 1) 1 dev type

-- `if (!ip->valid)` of ilock.
unfoldable pub ilock_load : ℕ → M Machine (Unit {0})
ilock_load i = do
  s ← get
  b ← bread (s.inode i).dev (iblock (s.inode i).inum s.sb)
  t ← get
  change i (load_dinode (t.buf b).bytes (dinode_at (s.inode i).inum))
  brelse b
  change i (λ x. record x { valid = true })
  u ← get
  if (u.inode i).type == t_unused then fail "ilock: no type" else pure tt

-- The argument may be the null pointer.
unfoldable pub ilock : Option ℕ → M Machine (Unit {0})
unfolding ilock_load
ilock none = fail "ilock: bad ip"
ilock (some i) = do
  s ← get
  if ltb (s.inode i).ref 1 then fail "ilock: bad ip" else do
    (λ t. put_ilock i t (acquiresleep t.cpu (t.inode i).lock))
    t ← get
    if not (t.inode i).valid then ilock_load i else pure tt

unfoldable pub iunlock : Option ℕ → M Machine (Unit {0})
iunlock none = fail "iunlock"
iunlock (some i) = do
  held ← (λ t. put_iheld i t (holdingsleep t.cpu (t.inode i).lock))
  s ← get
  if not held || ltb (s.inode i).ref 1
      then fail "iunlock"
      else (λ t. put_ilock i t (releasesleep t.cpu (t.inode i).lock))

unfoldable pub iupdate : ℕ → M Machine (Unit {0})
iupdate i = do
  s ← get
  b ← bread (s.inode i).dev (iblock (s.inode i).inum s.sb)
  edit b (λ v. store_dinode (s.inode i) (dinode_at (s.inode i).inum) v)
  bwrite b
  brelse b

-- The direct blocks, by the rounds left.
unfoldable pub trunc_direct : ℕ → ℕ → ℕ → M Machine (Unit {0})
trunc_direct zero k i = pure tt
trunc_direct (suc rounds) k i = do
  s ← get
  (if (s.inode i).addrs k == 0 then pure tt else (do
    bfree (s.inode i).dev ((s.inode i).addrs k)
    change i (λ x. record x { addrs = update x.addrs k 0 })))
  trunc_direct rounds (k + 1) i

-- The entries of the indirect block in buffer `b`, by the rounds left.
unfoldable pub trunc_entries : ℕ → ℕ → ℕ → ℕ → M Machine (Unit {0})
trunc_entries zero k dev b = pure tt
trunc_entries (suc rounds) k dev b = do
  s ← get
  (if get32 (s.buf b).bytes (4 * k) == 0
      then pure tt
      else bfree dev (get32 (s.buf b).bytes (4 * k)))
  trunc_entries rounds (k + 1) dev b

unfoldable pub trunc_indirect : ℕ → M Machine (Unit {0})
unfolding trunc_entries
trunc_indirect i = do
  s ← get
  let dev = (s.inode i).dev
  let addr = (s.inode i).addrs ndirect
  if addr == 0 then pure tt else do
    b ← bread dev addr
    trunc_entries nindirect 0 dev b
    brelse b
    bfree dev addr
    change i (λ x. record x { addrs = update x.addrs ndirect 0 })

unfoldable pub itrunc : ℕ → M Machine (Unit {0})
unfolding trunc_direct trunc_indirect iupdate
itrunc i = do
  trunc_direct ndirect 0 i
  trunc_indirect i
  change i (λ x. record x { size = 0 })
  iupdate i

-- The last reference to an inode with no links deletes it.
unfoldable pub iput_delete : ℕ → M Machine (Unit {0})
unfolding itrunc iupdate ilock iunlock
iput_delete i = do
  release_icache
  ilock (some i)
  itrunc i
  change i (λ x. record x { type = t_unused })
  iupdate i
  iunlock (some i)
  acquire_icache
  change i (λ x. record x { valid = false })

unfoldable pub iput : ℕ → M Machine (Unit {0})
unfolding iput_delete
iput i = do
  acquire_icache
  s ← get
  (if ((s.inode i).ref == 1) && (s.inode i).valid && ((s.inode i).nlink == 0)
      then iput_delete i
      else pure tt)
  change i (λ x. record x { ref = (x.ref + 2 ^ 32 - 1) % 2 ^ 32 })
  release_icache
