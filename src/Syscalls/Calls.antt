-- ===== src/Syscalls/Calls.antt =====
-- The system calls on files (riscv-os/kernel/sysfile.c: sys_dup to sys_open).
use Prim.Native.Nat.{bit_and}
use os.Common.{
  ℕ, Bool, not, ◌&&◌, ◌||◌, if◌then◌else◌, ◌==◌, update, Option, none, some, List, M, pure, get,
  modify, ◌>>=◌, ◌>>◌,
}
use os.Machine.{Machine, File}
use os.Fs.Inodes.{t_dir, t_file}
use os.Fs.Lifetime.{ilock, iunlock, itrunc, iput}
use os.Fs.Paths.{namei}
use os.Log.{begin_op, end_op}
use os.File.{fd_inode, set_file, filealloc, filedup, fileclose, filestat, fileread, filewrite}
use os.Syscalls.{Frame, failure, sign_extend, argint, argaddr, argstr}
use os.Syscalls.Files.{maxpath, argfd, fdalloc, create}

abbrev pub o_rdonly : ℕ
o_rdonly = 0

abbrev pub o_wronly : ℕ
o_wronly = 1

abbrev pub o_rdwr : ℕ
o_rdwr = 2

abbrev pub o_create : ℕ
o_create = 512

abbrev pub o_trunc : ℕ
o_trunc = 1024

abbrev pub has_flag : ℕ → ℕ → Bool
has_flag omode flag = not (bit_and omode flag == 0)

unfoldable pub sys_dup : Option Frame → M Machine ℕ
unfolding argfd fdalloc filedup
sys_dup frame = do
  old ← argfd frame 0
  elim old [
    | none ↦ pure failure
    | some o ↦ do
      new ← fdalloc o.file
      elim new [ none ↦ pure failure | some fd ↦ filedup o.file >>= (λ f. pure fd) ]
  ]

unfoldable pub sys_read : Option Frame → M Machine ℕ
unfolding argfd fileread
sys_read frame = do
  got ← argfd frame 0
  elim got [
    | none ↦ pure failure
    | some o ↦ do
      p ← argaddr frame 1
      n ← argint frame 2
      r ← fileread o.file p n
      pure (sign_extend r)
  ]

unfoldable pub sys_write : Option Frame → M Machine ℕ
unfolding argfd filewrite
sys_write frame = do
  got ← argfd frame 0
  elim got [
    | none ↦ pure failure
    | some o ↦ do
      p ← argaddr frame 1
      n ← argint frame 2
      r ← filewrite o.file p n
      pure (sign_extend r)
  ]

unfoldable pub sys_close : Option Frame → M Machine ℕ
unfolding argfd fileclose
sys_close frame = do
  got ← argfd frame 0
  elim got [
    | none ↦ pure failure
    | some o ↦ do
      modify (λ s. record s { ofile = update s.ofile o.fd none })
      fileclose o.file
      pure 0
  ]

unfoldable pub sys_fstat : Option Frame → M Machine ℕ
unfolding argfd filestat
sys_fstat frame = do
  got ← argfd frame 0
  elim got [
    | none ↦ pure failure
    | some o ↦ do addr ← argaddr frame 1; r ← filestat o.file addr; pure (sign_extend r)
  ]

-- The way out of sys_open with the inode locked.
unfoldable pub open_undo : ℕ → M Machine ℕ
open_undo ip = do iunlock (some ip); iput ip; end_op; pure failure

-- The inode in sys_open, locked; none where it has given up and returned -1.
unfoldable pub open_existing : ℕ → Option ℕ → M Machine (Option ℕ)
unfolding open_undo
open_existing omode none = end_op >> pure none
open_existing omode (some ip) = do
  ilock (some ip)
  s ← get
  if ((s.inode ip).type == t_dir) && not (omode == o_rdonly)
      then open_undo ip >>= (λ r. pure none)
      else pure (some ip)

unfoldable pub open_created : Option ℕ → M Machine (Option ℕ)
open_created none = end_op >> pure none
open_created (some ip) = pure (some ip)

unfoldable pub open_inode : List ℕ → ℕ → M Machine (Option ℕ)
unfolding open_existing open_created
open_inode path omode =
    if has_flag omode o_create
    then create path t_file 0 0 >>= open_created
    else namei path >>= open_existing omode

-- What `f` is set to.
abbrev pub opened_file : ℕ → ℕ → File → File
opened_file omode ip x = record x {
  type = fd_inode;
  ip = some ip;
  off = 0;
  readable = not (has_flag omode o_wronly);
  writable = has_flag omode o_wronly || has_flag omode o_rdwr;
}

-- The end of sys_open, with a file and a descriptor.
unfoldable pub open_finish : ℕ → ℕ → ℕ → ℕ → M Machine ℕ
open_finish omode ip f fd = do
  modify (λ s. set_file f (opened_file omode ip (s.file f)) s)
  s ← get
  (if has_flag omode o_trunc && ((s.inode ip).type == t_file) then itrunc ip else pure tt)
  iunlock (some ip)
  end_op
  pure fd

unfoldable pub open_file : ℕ → ℕ → Option ℕ → M Machine ℕ
unfolding open_finish open_undo
open_file omode ip none = open_undo ip
open_file omode ip (some f) = do
  fd ← fdalloc f
  elim fd [ none ↦ fileclose f >> open_undo ip | some d ↦ open_finish omode ip f d ]

unfoldable pub open_path : List ℕ → ℕ → M Machine ℕ
unfolding open_inode open_file
open_path path omode = do
  begin_op
  found ← open_inode path omode
  elim found [ none ↦ pure failure | some ip ↦ filealloc >>= open_file omode ip ]

unfoldable pub sys_open : Option Frame → M Machine ℕ
unfolding open_path
sys_open frame = do
  got ← argstr frame 0 maxpath
  elim got [ none ↦ pure failure | some path ↦ argint frame 1 >>= open_path path ]
