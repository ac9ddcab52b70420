-- ===== src/Syscalls/Files.antt =====
-- The system calls on files (riscv-os/kernel/sysfile.c).
use os.Common.{
  ℕ, zero, suc, ◌+◌, ◌%◌, ◌^◌, Bool, true, false, not, ◌&&◌, ◌||◌, if◌then◌else◌, leb, ◌==◌, update,
  Option, none, some, List, M, pure, get, modify, ◌>>=◌, ◌>>◌,
}
use os.Machine.{Machine, Block}
use os.Fs.Inodes.{t_dir, t_file, t_dev, change}
use os.Fs.Lifetime.{ialloc, ilock, iunlock, iupdate, iput}
use os.Fs.Directories.{dirlookup, dirlink}
use os.Fs.Paths.{nameiparent}
use os.Syscalls.{Frame, argint}

abbrev pub nofile : ℕ
nofile = 16

abbrev pub maxpath : ℕ
maxpath = 128

-- `*pfd` and `*pf`.
pub record Opened : Type 0 where
  pub fd : ℕ
  pub file : ℕ

unfoldable pub argfd_at : ℕ → Option ℕ → Option Opened
argfd_at fd none = none
argfd_at fd (some f) = some (record { fd = fd; file = f })

unfoldable pub argfd : Option Frame → ℕ → M Machine (Option Opened)
unfolding argint argfd_at
argfd frame n = do
  fd ← argint frame n
  s ← get
  pure (if leb nofile fd then none else argfd_at fd (s.ofile fd))

abbrev pub is_free : Option ℕ → Bool
is_free none = true
is_free (some f) = false

-- `for (int fd = 0; fd < NOFILE; fd++)`, by the rounds left: the first free descriptor.
unfoldable pub find_fd : ℕ → ℕ → (ℕ → Option ℕ) → Option ℕ
find_fd zero fd ofile = none
find_fd (suc rounds) fd ofile = elim (is_free (ofile fd)) [
  | true ↦ some fd
  | false ↦ find_fd rounds (fd + 1) ofile
]

unfoldable pub fdalloc_at : ℕ → Option ℕ → M Machine (Option ℕ)
fdalloc_at f none = pure none
fdalloc_at f (some fd) = do
  modify (λ s. record s { ofile = update s.ofile fd (some f) })
  pure (some fd)

-- None is the result -1.
unfoldable pub fdalloc : ℕ → M Machine (Option ℕ)
unfolding find_fd fdalloc_at
fdalloc f = do s ← get; fdalloc_at f (find_fd nofile 0 s.ofile)

-- `create` where the name is taken: the parent is in `dp`, still locked.
unfoldable pub create_existing : ℕ → ℕ → ℕ → M Machine (Option ℕ)
create_existing dp ip type = do
  iunlock (some dp)
  iput dp
  ilock (some ip)
  s ← get
  if (type == t_file) && (((s.inode ip).type == t_file) || ((s.inode ip).type == t_dev))
      then pure (some ip)
      else (do iunlock (some ip); iput ip; pure none)

-- `.`, `..`
abbrev pub dot : Block
dot = update (λ _. 0) 0 46

abbrev pub dotdot : Block
dotdot = update dot 1 46

-- The way back where a directory entry cannot be made.
unfoldable pub create_undo : ℕ → ℕ → M Machine (Option ℕ)
create_undo dp ip = do
  iunlock (some ip)
  change ip (λ x. record x { nlink = 0 })
  iupdate ip
  iunlock (some dp)
  iput ip
  iput dp
  pure none

-- `if (type == T_DIR)`: does it go on?
unfoldable pub create_dots : ℕ → ℕ → ℕ → M Machine Bool
create_dots dp ip type = if not (type == t_dir) then pure true else do
  change dp (λ x. record x { nlink = (x.nlink + 1) % 2 ^ 16 })
  iupdate dp
  s ← get
  one ← dirlink ip dot (s.inode ip).inum
  if not one then pure false else do t ← get; dirlink ip dotdot (t.inode dp).inum

unfoldable pub create_link : ℕ → ℕ → Block → M Machine (Option ℕ)
unfolding create_undo
create_link dp ip name = do
  s ← get
  linked ← dirlink dp name (s.inode ip).inum
  if not linked then create_undo dp ip else do iunlock (some dp); iput dp; pure (some ip)

-- `create` where the name is not taken; ialloc panics rather than return a null pointer.
unfoldable pub create_new : ℕ → Block → ℕ → ℕ → ℕ → M Machine (Option ℕ)
unfolding create_dots create_undo create_link
create_new dp name type major minor = do
  s ← get
  ip ← ialloc (s.inode dp).dev type
  ilock (some ip)
  change ip (λ x. record x { major = major; minor = minor; nlink = 1 })
  iupdate ip
  go ← create_dots dp ip type
  if go then create_link dp ip name else create_undo dp ip

unfoldable pub create_in : Option ℕ → Block → ℕ → ℕ → ℕ → M Machine (Option ℕ)
unfolding create_existing create_new
create_in none name type major minor = pure none
create_in (some dp) name type major minor = do
  ilock (some dp)
  found ← dirlookup dp name
  elim found [ some e ↦ create_existing dp e.ip type | none ↦ create_new dp name type major minor ]

-- None is the null pointer.
unfoldable pub create : List ℕ → ℕ → ℕ → ℕ → M Machine (Option ℕ)
unfolding create_in
create path type major minor = do
  parent ← nameiparent path (λ _. 0)
  create_in parent.ip parent.name type major minor
