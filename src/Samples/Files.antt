-- ===== src/Samples/Files.antt =====
-- The theorems of the file system's parts at sample states.
use os.Common.{
  ℕ, ◌+◌, ◌%◌, ◌<◌, ◌≡◌, ◌⊎◌, refl, not, ◌&&◌, ◌||◌, ◌==◌, arith, Option, none, some, [], ◌∷◌, ok,
  panic, Lowest, update,
}
use os.Machine.{Machine, Block, Inode}
use os.Fs.Bitmap.{clear, set_bit, clear_bit, find_clear}
use os.Fs.Masks.{set_bit-clear_bit}
use os.Fs.Inodes.{store_dinode, load_dinode}
use os.Fs.Dinodes.{IsNarrow, IsLoaded, load-store_dinode}
use os.Fs.Paths.{skip_slashes, skipelem}
use os.Fs.Elements.{named, skipelem_lem}
use os.Fs.Inodes.{iget}
use os.Fs.Cache.{Got, iget-Got}
use os.Fs.Unique.{IsUnique, IsGot, iget-IsUnique}
use os.File.{nfile, filealloc, filedup, fileclose}
use os.File.Table.{unused_file, settled, with_ref, filealloc_lem, filedup-fileclose}
use os.Samples.{booted}

-- The blocks 0, 1 and 3 are in use.
abbrev marked : Block
marked = update (λ _. 0) 0 11

marked_clear : find_clear 20 0 0 1024 marked ≡ some 2
unfolding find_clear
marked_clear = refl

set_bit-clear_bit_example :
    (clear (set_bit marked 2) 3 ≡ (not (3 == 2) && clear marked 3))
    × (clear (clear_bit marked 2) 3 ≡ ((3 == 2) || clear marked 3))
set_bit-clear_bit_example = set_bit-clear_bit marked 2 3 (omega arith)

abbrev small_file : Inode
small_file = record (booted.inode 0) { type = 2; nlink = 1; size = 4097; addrs = λ j. 40 + j % 2 }

small_file-IsNarrow : IsNarrow small_file
small_file-IsNarrow = record {
  type = omega arith;
  major = omega arith;
  minor = omega arith;
  nlink = omega arith;
  size = omega arith;
  addrs = λ j. omega arith;
}

load-store_dinode_example :
    IsLoaded small_file
      (booted.inode 1)
      (load_dinode (store_dinode small_file 64 (booted.ramdisk 32)) 64 (booted.inode 1))
load-store_dinode_example =
    load-store_dinode small_file (booted.inode 1) 64 (booted.ramdisk 32) small_file-IsNarrow

filealloc_lem_example :
    (r : Option ℕ) × Lowest (unused_file booted.file) 0 nfile r
    × (filealloc booted
        ≡ ok r
            (settled (elim r as (λ _. Machine) [ none ↦ booted | some i ↦ with_ref i 1 booted ])))
filealloc_lem_example = filealloc_lem booted refl

-- Two descriptors stand for file 5.
abbrev shared : Machine
shared = with_ref 5 2 booted

filedup-fileclose_example :
    (((shared.file 5).ref ≡ 0)
      × (filedup 5 shared ≡ panic "filedup")
      × (fileclose 5 shared ≡ panic "fileclose"))
    ⊎ ((0 < (shared.file 5).ref)
        × (filedup 5 shared ≡ ok 5 (settled (with_ref 5 ((shared.file 5).ref + 1) shared)))
        × (fileclose 5 (settled (with_ref 5 ((shared.file 5).ref + 1) shared))
            ≡ ok tt (settled shared)))
filedup-fileclose_example = filedup-fileclose 5 shared refl

iget-Got_example : Got 1 1 booted (iget 1 1 booted)
iget-Got_example = iget-Got 1 1 booted refl

booted-IsUnique : IsUnique booted.inode
booted-IsUnique dev inum i j hi hj a b = cc a

iget-IsUnique_example :
    ((i : ℕ) × (t : Machine) × (iget 1 1 booted ≡ ok i t) × IsGot 1 1 booted i t)
    ⊎ (iget 1 1 booted ≡ panic "iget: no free inode")
iget-IsUnique_example = iget-IsUnique 1 1 booted refl booted-IsUnique

-- `//ab/c`
skipelem_lem_example :
    skipelem (47 ∷ 47 ∷ 97 ∷ 98 ∷ 47 ∷ 99 ∷ []) (λ _. 7)
    ≡ some (record { path = skip_slashes (47 ∷ 99 ∷ []); name = named (97 ∷ 98 ∷ []) (λ _. 7) })
skipelem_lem_example =
    skipelem_lem (47 ∷ 47 ∷ []) 97 (98 ∷ []) (47 ∷ 99 ∷ []) (λ _. 7) (refl, (refl, tt))
      (refl, (refl, tt)) refl
