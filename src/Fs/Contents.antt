-- ===== src/Fs/Contents.antt =====
-- File contents (riscv-os/kernel/fs.c: readi, writei, stati). The memory that they copy to or from
-- is an array with a start address; an `int` result is its 32-bit word.
use os.Common.{
  ℕ, zero, suc, ◌+◌, ◌-◌, ◌*◌, ◌/◌, ◌%◌, ◌^◌, true, false, ◌||◌, if◌then◌else◌, ltb, ◌==◌, M, pure,
  get, fail, spin, ◌>>=◌, ◌>>◌,
}
use os.Machine.{Machine, Block, Inode, bsize}
use os.Bytes.{move_bytes}
use os.Bio.{bread, brelse}
use os.Log.{bwrite}
use os.Fs.Bitmap.{edit}
use os.Fs.Inodes.{maxfile, bmap, change}
use os.Fs.Lifetime.{iupdate}

-- `(int)-1`
abbrev pub minus_one : ℕ
minus_one = 2 ^ 32 - 1

-- What readi returns, and the array that it has copied to.
pub record Copied : Type 0 where
  pub count : ℕ
  pub memory : ℕ → ℕ

-- `m`: the bytes of this round.
abbrev pub chunk : ℕ → ℕ → ℕ
chunk off left = if ltb left (bsize - off % bsize) then left else bsize - off % bsize

-- `while (tot < n)` of readi, by the rounds left; a round copies a byte at least.
unfoldable pub readi_loop : ℕ → ℕ → Block → ℕ → ℕ → ℕ → ℕ → M Machine Block
readi_loop zero ip mem dst off n tot = spin
readi_loop (suc rounds) ip mem dst off n tot =
    if ltb tot n
    then (do
      let m = chunk off (n - tot)
      addr ← bmap ip (off / bsize) false
      if addr == 0 then fail "readi: addr == 0" else do
        s ← get
        b ← bread (s.inode ip).dev addr
        t ← get
        brelse b
        readi_loop rounds ip (move_bytes mem (dst + tot) (t.buf b).bytes (off % bsize) m) dst
            ((off + m) % 2 ^ 32) n (tot + m))
    else pure mem

-- `n`, cut to what the file has.
abbrev pub clip : ℕ → ℕ → ℕ → ℕ
clip off n size = if ltb size ((off + n) % 2 ^ 32) then size - off else n

unfoldable pub readi : ℕ → Block → ℕ → ℕ → ℕ → M Machine Copied
unfolding readi_loop
readi ip mem dst off n = do
  s ← get
  let size = (s.inode ip).size
  if ltb size off || ltb ((off + n) % 2 ^ 32) off
      then pure (record { count = 0; memory = mem })
      else (do
        read ← readi_loop (suc (clip off n size)) ip mem dst off (clip off n size) 0
        pure (record { count = clip off n size; memory = read }))

-- `while (tot < n)` of writei, by the rounds left; `off` as the loop leaves it.
unfoldable pub writei_loop : ℕ → ℕ → Block → ℕ → ℕ → ℕ → ℕ → M Machine ℕ
writei_loop zero ip mem src off n tot = spin
writei_loop (suc rounds) ip mem src off n tot =
    if ltb tot n
    then (do
      let m = chunk off (n - tot)
      addr ← bmap ip (off / bsize) true
      if addr == 0 then fail "writei: addr == 0" else do
        s ← get
        b ← bread (s.inode ip).dev addr
        edit b (λ bytes. move_bytes bytes (off % bsize) mem (src + tot) m)
        bwrite b
        brelse b
        writei_loop rounds ip mem src ((off + m) % 2 ^ 32) n (tot + m))
    else pure off

unfoldable pub writei : ℕ → Block → ℕ → ℕ → ℕ → M Machine ℕ
unfolding writei_loop
writei ip mem src off n = do
  s ← get
  if ltb (s.inode ip).size off
        || ltb ((off + n) % 2 ^ 32) off
        || ltb (maxfile * bsize) ((off + n) % 2 ^ 32)
      then pure minus_one
      else (do
        end ← writei_loop (suc n) ip mem src off n 0
        change ip (λ x. if ltb x.size end then record x { size = end } else x)
        iupdate ip
        pure n)

pub record Stat : Type 0 where
  pub type : ℕ
  pub nlink : ℕ
  pub dev : ℕ
  pub ino : ℕ
  pub size : ℕ

unfoldable pub stati : Inode → Stat
stati x = record { type = x.type; nlink = x.nlink; dev = x.dev; ino = x.inum; size = x.size }
