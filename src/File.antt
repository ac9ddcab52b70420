-- ===== src/File.antt =====
-- Open files (riscv-os/kernel/file.c). A file is its place in the table; an `int` is its 32-bit word.
pub mod Table
use os.Common.{
  ℕ, zero, suc, ◌+◌, ◌-◌, ◌*◌, ◌/◌, ◌%◌, ◌^◌, Bool, true, false, not, ◌&&◌, ◌||◌, if◌then◌else◌,
  ltb, leb, ◌==◌, Option, none, some, update, Run, ok, hang, M, pure, get, modify, fail, spin,
  ◌>>=◌, ◌>>◌,
}
use os.Lock.{Cpu, Spinlock, acquire, release}
use os.Machine.{Machine, File, bsize}
use os.Bytes.{set16, set32}
use os.Log.{begin_op, end_op}
use os.Fs.Lifetime.{ilock, iunlock, iput}
use os.Fs.Contents.{Stat, minus_one, readi, writei, stati}

abbrev pub nfile : ℕ
nfile = 100

abbrev pub fd_none : ℕ
fd_none = 0

abbrev pub fd_inode : ℕ
fd_inode = 1

abbrev pub fd_device : ℕ
fd_device = 2

abbrev pub maxopblocks : ℕ
maxopblocks = 10

abbrev pub set_file : ℕ → File → Machine → Machine
set_file f x s = record s { file = update s.file f x }

abbrev pub put_ftable : Machine → Option (Cpu × Spinlock) → Run Machine (Unit {0})
put_ftable s none = hang
put_ftable s (some (c, l)) = ok tt (record s { cpu = c; ftable_lock = l })

abbrev pub acquire_ftable : M Machine (Unit {0})
acquire_ftable s = put_ftable s (acquire s.cpu s.ftable_lock)

abbrev pub release_ftable : M Machine (Unit {0})
release_ftable s = put_ftable s (some (release s.cpu s.ftable_lock))

-- `for (int i = 0; i < NFILE; i++)` of filealloc, by the rounds left: the first place not in use.
unfoldable pub find_file : ℕ → ℕ → (ℕ → File) → Option ℕ
find_file zero i file = none
find_file (suc rounds) i file = elim ((file i).ref == 0) [
  | true ↦ some i
  | false ↦ find_file rounds (i + 1) file
]

unfoldable pub filealloc_at : Option ℕ → M Machine (Option ℕ)
filealloc_at none = release_ftable >> pure none
filealloc_at (some i) = do
  modify (λ s. set_file i (record (s.file i) { ref = 1 }) s)
  release_ftable
  pure (some i)

unfoldable pub filealloc : M Machine (Option ℕ)
unfolding find_file filealloc_at
filealloc = do acquire_ftable; s ← get; filealloc_at (find_file nfile 0 s.file)

-- filedup with the lock held.
unfoldable pub filedup_held : ℕ → M Machine ℕ
filedup_held f = do
  s ← get
  if ltb (s.file f).ref 1 then release_ftable >> fail "filedup" else do
    modify (λ t. set_file f (record (t.file f) { ref = (t.file f).ref + 1 }) t)
    release_ftable
    pure f

unfoldable pub filedup : ℕ → M Machine ℕ
unfolding filedup_held
filedup f = acquire_ftable >> filedup_held f

-- What fileclose does with the copy of a file that has no references left.
unfoldable pub close_inode : File → M Machine (Unit {0})
close_inode ff =
    if ff.type == fd_inode || ff.type == fd_device
    then (elim ff.ip [ none ↦ spin | some ip ↦ do begin_op; iput ip; end_op ])
    else pure tt

abbrev pub cleared : File → File
cleared x = record x { type = fd_none; readable = false; writable = false; ip = none; off = 0 }

-- fileclose with the lock held.
unfoldable pub fileclose_held : ℕ → M Machine (Unit {0})
unfolding close_inode
fileclose_held f = do
  s ← get
  if ltb (s.file f).ref 1 then release_ftable >> fail "fileclose" else do
    modify (λ t. set_file f (record (t.file f) { ref = (t.file f).ref - 1 }) t)
    t ← get
    if ltb 0 (t.file f).ref then release_ftable else do
      modify (λ u. set_file f (cleared (u.file f)) u)
      release_ftable
      close_inode (t.file f)

unfoldable pub fileclose : ℕ → M Machine (Unit {0})
unfolding fileclose_held
fileclose f = acquire_ftable >> fileclose_held f

abbrev pub is_open : File → Bool
is_open x = (x.type == fd_inode) || (x.type == fd_device)

-- Locks the inode that a file stands for; on the null pointer ilock panics.
abbrev pub lock_ip : Option ℕ → M Machine ℕ
lock_ip none = ilock none >> spin
lock_ip (some ip) = ilock (some ip) >> pure ip

-- The structure that filestat stores, by its fields' offsets.
abbrev pub store_stat : Stat → ℕ → (ℕ → ℕ) → ℕ → ℕ
store_stat st a mem =
    set32
      (set32
        (set32 (set32 (set16 (set16 mem a st.type) (a + 2) st.nlink) (a + 4) st.dev) (a + 8) st.ino)
        (a + 16) st.size)
      (a + 20) (st.size / 2 ^ 32)

unfoldable pub filestat : ℕ → ℕ → M Machine ℕ
filestat f addr = do
  s ← get
  if not (is_open (s.file f)) then pure minus_one else do
    ip ← lock_ip (s.file f).ip
    t ← get
    iunlock (some ip)
    modify (λ u. record u { memory = store_stat (stati (t.inode ip)) addr u.memory })
    pure 0

-- Is the word positive as an `int`?
abbrev pub positive : ℕ → Bool
positive r = ltb 0 r && ltb r (2 ^ 31)

-- `if (r > 0) f->off += r;`
abbrev pub advance : ℕ → ℕ → M Machine (Unit {0})
advance f r = modify (λ s.
    if positive r
    then set_file f (record (s.file f) { off = ((s.file f).off + r) % 2 ^ 32 }) s
    else s)

unfoldable pub fileread : ℕ → ℕ → ℕ → M Machine ℕ
fileread f addr n = do
  s ← get
  if not (s.file f).readable
      then pure minus_one
      else if not (is_open (s.file f))
      then pure minus_one
      else do
        ip ← lock_ip (s.file f).ip
        t ← get
        r ← readi ip t.memory addr (s.file f).off n
        modify (λ u. record u { memory = r.memory })
        advance f r.count
        iunlock (some ip)
        pure r.count

-- One transaction of filewrite: what writei returns.
unfoldable pub write_piece : ℕ → ℕ → ℕ → M Machine ℕ
write_piece f addr n = do
  begin_op
  s ← get
  ip ← lock_ip (s.file f).ip
  t ← get
  r ← writei ip t.memory addr (t.file f).off n
  advance f r
  iunlock (some ip)
  end_op
  pure r

abbrev pub piece : ℕ → ℕ
piece left = if ltb (maxopblocks * bsize) left then maxopblocks * bsize else left

-- `while (tot < n)` of filewrite, by the rounds left, and what is returned after it.
unfoldable pub filewrite_loop : ℕ → ℕ → ℕ → ℕ → ℕ → M Machine ℕ
unfolding write_piece
filewrite_loop zero f addr n tot = spin
filewrite_loop (suc rounds) f addr n tot =
    if ltb tot n && ltb n (2 ^ 31)
    then (do
      r ← write_piece f ((addr + tot) % 2 ^ 64) (piece (n - tot))
      if leb (2 ^ 31) r
          then pure minus_one
          else if r == 0
          then pure minus_one
          else filewrite_loop rounds f addr n (tot + r))
    else pure (if tot == n then n else minus_one)

unfoldable pub filewrite : ℕ → ℕ → ℕ → M Machine ℕ
unfolding filewrite_loop
filewrite f addr n = do
  s ← get
  if not (s.file f).writable
      then pure minus_one
      else if not (is_open (s.file f))
      then pure minus_one
      else filewrite_loop (suc n) f addr n 0
