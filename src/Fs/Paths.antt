-- ===== src/Fs/Paths.antt =====
-- Path names (riscv-os/kernel/fs.c: skipelem, namex, namei, nameiparent).
use os.Common.{
  ℕ, zero, suc, ◌+◌, Bool, true, false, not, ◌&&◌, if◌then◌else◌, ltb, ◌==◌, update, Option, none,
  some, List, [], ◌∷◌, M, pure, get, spin, ◌>>=◌, ◌>>◌,
}
use os.Machine.{Machine, Block}
use os.Fs.Inodes.{iget, t_dir}
use os.Fs.Lifetime.{ilock, iunlock, iput}
use os.Fs.Directories.{Entry, dirsiz, rootdev, rootino, slash, dirlookup}

-- `while (*path == '/') path++;`
unfoldable pub skip_slashes : List ℕ → List ℕ
skip_slashes [] = []
skip_slashes (c ∷ path) = let rest = skip_slashes path in if c == slash then rest else c ∷ path

-- The path that is left, and the name that was copied.
pub record Rest : Type 0 where
  pub path : List ℕ
  pub name : Block

-- `name[len] = 0`
abbrev pub end_elem : List ℕ → Block → ℕ → Rest
end_elem path name len = record { path = path; name = update name len 0 }

-- The copy of a component: DIRSIZ characters at most, then a 0 at `len`.
unfoldable pub copy_elem : List ℕ → ℕ → Block → Rest
copy_elem [] len name = end_elem [] name len
copy_elem (c ∷ path) len name =
    let stop = end_elem (c ∷ path) name len in
    let next = copy_elem path (len + 1) (update name len c) in
    let cut = copy_elem path len name in
    if c == slash then stop else if ltb len dirsiz then next else cut

unfoldable pub skipelem_at : List ℕ → Block → Option Rest
unfolding copy_elem
skipelem_at [] name = none
skipelem_at (c ∷ path) name =
    let r = copy_elem (c ∷ path) 0 name in some (record r { path = skip_slashes r.path })

-- None is the null pointer.
unfoldable pub skipelem : List ℕ → Block → Option Rest
unfolding skip_slashes skipelem_at
skipelem path name = skipelem_at (skip_slashes path) name

-- The inode of a path (none for the null pointer), and the array for the last name.
pub record Named : Type 0 where
  pub ip : Option ℕ
  pub name : Block

abbrev pub is_empty : List ℕ → Bool
is_empty [] = true
is_empty (c ∷ path) = false

-- `name[i] = elem[i]` for the DIRSIZ characters.
abbrev pub copy_whole : Block → Block → Block
copy_whole name elem i = if ltb i dirsiz then elem i else name i

unfoldable pub namex_child : ℕ → Block → Option Entry → (ℕ → M Machine Named) → M Machine Named
namex_child ip name none descend = iput ip >> pure (record { ip = none; name = name })
namex_child ip name (some e) descend = iput ip >> descend e.ip

-- The end of the path: the inode itself, but for nameiparent there is no parent.
unfoldable pub namex_end : Bool → ℕ → Block → M Machine Named
namex_end true ip name = iput ip >> pure (record { ip = none; name = name })
namex_end false ip name = pure (record { ip = some ip; name = name })

-- One round of the loop of namex in the inode `ip`, for the component that skipelem found.
unfoldable pub namex_step : Bool → ℕ → Block → Rest → (ℕ → M Machine Named) → M Machine Named
unfolding namex_child
namex_step parent ip name r descend = do
  ilock (some ip)
  s ← get
  if not ((s.inode ip).type == t_dir)
      then (do iunlock (some ip); iput ip; pure (record { ip = none; name = name }))
      else if parent && is_empty r.path
      then (do iunlock (some ip); pure (record { ip = some ip; name = copy_whole name r.name }))
      else (do next ← dirlookup ip r.name; iunlock (some ip); namex_child ip name next descend)

-- The loop of namex, by the rounds left; every round takes a character of the path at least.
unfoldable pub namex_loop : ℕ → Bool → List ℕ → Block → ℕ → Block → M Machine Named
unfolding namex_step namex_end
namex_loop zero parent path elem ip name = spin
namex_loop (suc rounds) parent path elem ip name = elim (skipelem path elem) [
  | none ↦ namex_end parent ip name
  | some r ↦ namex_step parent ip name r (λ next. namex_loop rounds parent r.path r.name next name)
]

unfoldable pub path_length : List ℕ → ℕ
path_length [] = 0
path_length (c ∷ path) = suc (path_length path)

-- Every path starts at the root, which an empty path does not give back.
unfoldable pub namex : List ℕ → Bool → Block → M Machine Named
unfolding namex_loop path_length
namex path parent name = do
  ip ← iget rootdev rootino
  if is_empty path
      then pure (record { ip = none; name = name })
      else namex_loop (suc (path_length path)) parent path (λ _. 0) ip name

-- The array for the name is a null pointer, and is not written.
unfoldable pub namei : List ℕ → M Machine (Option ℕ)
unfolding namex
namei path = do r ← namex path false (λ _. 0); pure r.ip

unfoldable pub nameiparent : List ℕ → Block → M Machine Named
unfolding namex
nameiparent path name = namex path true name
