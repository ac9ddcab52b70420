-- ===== src/Fs/Directories.antt =====
-- Directories and paths (riscv-os/kernel/fs.c: strncmp_local, dirlookup to nameiparent). A name is an
-- array of characters, a path the list of its characters up to the final 0.
use os.Common.{
  ℕ, zero, suc, ◌+◌, ◌-◌, ◌/◌, ◌%◌, ◌^◌, Bool, true, false, not, ◌&&◌, if◌then◌else◌, ltb, ◌==◌,
  update, Option, none, some, M, pure, get, fail, spin, ◌>>=◌, String,
}
use os.Machine.{Machine, Block}
use os.Bytes.{get16, set16}
use os.Fs.Inodes.{iget, t_dir}
use os.Fs.Contents.{readi, writei}

abbrev pub dirsiz : ℕ
dirsiz = 14

-- `sizeof(struct dirent)`
abbrev pub dirent_size : ℕ
dirent_size = 16

abbrev pub rootdev : ℕ
rootdev = 1

abbrev pub rootino : ℕ
rootino = 1

-- `/`
abbrev pub slash : ℕ
slash = 47

-- The comparison of at most the given number of characters, from place `i` on.
unfoldable pub strncmp_local : ℕ → ℕ → Block → Block → ℕ
strncmp_local zero i s t = 0
strncmp_local (suc n) i s t =
    let rest = strncmp_local n (i + 1) s t in
    if not (s i == 0) && not (t i == 0) && (s i == t i) then rest else (s i + 2 ^ 32 - t i) % 2 ^ 32

unfoldable pub namecmp : Block → Block → ℕ
unfolding strncmp_local
namecmp s t = strncmp_local dirsiz 0 s t

-- The entry at `off` in the bytes of a directory entry that readi fills.
unfoldable pub read_dirent : String → ℕ → Block → ℕ → M Machine Block
read_dirent complaint dp de off = do
  r ← readi dp de 0 off dirent_size
  if not (r.count == dirent_size) then fail complaint else pure r.memory

-- `de.name`
abbrev pub dirent_name : Block → Block
dirent_name de i = de (2 + i)

-- The inode that dirlookup finds, and `*poff`.
pub record Entry : Type 0 where
  pub ip : ℕ
  pub off : ℕ

-- The loop of dirlookup, by the rounds left.
unfoldable pub dirlookup_loop : ℕ → ℕ → Block → Block → ℕ → M Machine (Option Entry)
unfolding read_dirent namecmp
dirlookup_loop zero dp name de off = spin
dirlookup_loop (suc rounds) dp name de off = do
  s ← get
  if ltb off (s.inode dp).size
      then (do
        e ← read_dirent "dirlookup: read" dp de off
        if not (get16 e 0 == 0) && (namecmp name (dirent_name e) == 0)
            then (do
              t ← get
              ip ← iget (t.inode dp).dev (get16 e 0)
              pure (some (record { ip = ip; off = off })))
            else dirlookup_loop rounds dp name e ((off + dirent_size) % 2 ^ 32))
      else pure none

unfoldable pub dirlookup : ℕ → Block → M Machine (Option Entry)
unfolding dirlookup_loop
dirlookup dp name = do
  s ← get
  if not ((s.inode dp).type == t_dir)
      then fail "dirlookup: not DIR"
      else dirlookup_loop (suc (suc ((s.inode dp).size / dirent_size))) dp name (λ _. 0) 0

-- The loop of dirlink that looks for a free entry, by the rounds left: its offset, or the end.
unfoldable pub find_free : ℕ → ℕ → Block → ℕ → M Machine ℕ
unfolding read_dirent
find_free zero dp de off = spin
find_free (suc rounds) dp de off = do
  s ← get
  if ltb off (s.inode dp).size
      then (do
        e ← read_dirent "dirlink: read" dp de off
        if get16 e 0 == 0 then pure off else find_free rounds dp e ((off + dirent_size) % 2 ^ 32))
      else pure off

-- The copy of the name into `de`, whose other bytes are 0, for the rounds left from `i`.
unfoldable pub copy_name : ℕ → ℕ → Block → Block → Block
copy_name zero i name de = de
copy_name (suc rounds) i name de =
    let rest = copy_name rounds (i + 1) name (update de (2 + i) (name i)) in
    if name i == 0 then update de (2 + i) 0 else rest

unfoldable pub make_dirent : Block → ℕ → Block
unfolding copy_name
make_dirent name inum = copy_name dirsiz 0 name (set16 (λ _. 0) 0 inum)

unfoldable pub dirlink_at : ℕ → Block → ℕ → ℕ → M Machine Bool
unfolding make_dirent
dirlink_at dp name inum off = do
  r ← writei dp (make_dirent name inum) 0 off dirent_size
  if not (r == dirent_size) then fail "dirlink: write" else pure true

-- False is the result -1.
unfoldable pub dirlink : ℕ → Block → ℕ → M Machine Bool
unfolding dirlookup find_free dirlink_at
dirlink dp name inum = do
  found ← dirlookup dp name
  elim found [
    | some e ↦ pure false
    | none ↦ do
      s ← get
      off ← find_free (suc (suc ((s.inode dp).size / dirent_size))) dp (λ _. 0) 0
      dirlink_at dp name inum off
  ]
