-- ===== src/FsDebug/Notes.antt =====
-- What fsck_lite (riscv-os/kernel/fs_debug.c) notes about the block numbers that it comes across.
use os.Common.{
  ℕ, zero, suc, ◌+◌, ◌*◌, ◌<◌, ◌≤◌, ◌≡◌, inl, inr, refl, ap, ◌∙◌, arith, Bool, if◌then◌else◌, not,
  ltb, leb, ◌==◌, Bool-cases, ◌∈◌, update, List, [], ◌∷◌, ◌++◌, length,
}
use os.Machine.{Machine, Buf, Block, Superblock, nbuf}
use os.Bytes.{get16, get32}
use os.Fs.Bitmap.{clear}
use os.Fs.Inodes.{ndirect, nindirect, iblock, dinode_at, t_unused}
use os.Store.Updates.{IsDone-then}
use os.FsDebug.{Found, bad, check_addr, check_words}
use os.FsDebug.Looks.{IsMarked, IsView, IsView-done, Looks, Looks-nothing, bitmap_isset-Looks}

abbrev pub seen : ℕ → Found → Found
seen addr c = record c { used = update c.used addr 1 }

-- What check_addr notes about a block number, with the bitmap `bits`.
abbrev pub note : Block → ℕ → ℕ → ℕ → Found → Found
note bits limit datastart addr c =
    if addr == 0
    then c
    else if leb limit addr
    then bad c
    else if ltb addr datastart
    then bad c
    else if not (c.used addr == 0)
    then bad c
    else if clear bits addr
    then bad (seen addr c)
    else seen addr c

unfoldable pub note_all : Block → ℕ → ℕ → List ℕ → Found → Found
note_all bits limit datastart [] c = c
note_all bits limit datastart (a ∷ rest) c =
    note_all bits limit datastart rest (note bits limit datastart a c)

-- `n` words of a block, from offset `o` on.
unfoldable pub words : ℕ → ℕ → Block → List ℕ
words zero o b = []
words (suc n) o b = get32 b o ∷ words n (o + 4) b

-- The address of the indirect block of an inode.
abbrev pub indirect_of : (ℕ → Block) → Superblock → ℕ → ℕ
indirect_of d sb inum = get32 (d (iblock inum sb)) (dinode_at inum + 12 + 4 * ndirect)

abbrev pub is_unused : (ℕ → Block) → Superblock → ℕ → Bool
is_unused d sb inum = get16 (d (iblock inum sb)) (dinode_at inum) == t_unused

abbrev pub indirect_refs : (ℕ → Block) → ℕ → List ℕ
indirect_refs d a = if a == 0 then [] else a ∷ words nindirect 0 (d a)

-- The block numbers in an inode and in its indirect block, zeros included.
abbrev pub refs : (ℕ → Block) → Superblock → ℕ → List ℕ
refs d sb inum =
    if is_unused d sb inum
    then []
    else words ndirect (dinode_at inum + 12) (d (iblock inum sb))
      ++ indirect_refs d (indirect_of d sb inum)

module _ (d : ℕ → Block) (sb : Superblock) (dev limit datastart : ℕ) (mark : IsMarked sb)
    (covered : limit ≤ sb.size) where
  pub check_addr-Looks :
      (out : List ℕ) (s : Machine) (addr : ℕ) (c : Found)
      → IsView d sb dev out s
      → length out < nbuf
      → Looks
          (check_addr dev limit datastart addr c)
          d
          out
          s
          (note (d sb.bmapstart) limit datastart addr c)
  unfolding check_addr
  check_addr-Looks out s addr c h room = elim (Bool-cases (addr == 0)) [
    | inl none ↦ rw none (Looks-nothing d sb dev out s c h)
    | inr some ↦ elim (Bool-cases (leb limit addr)) [
      | inl above ↦ rw (some, above) (Looks-nothing d sb dev out s (bad c) h)
      | inr below ↦ elim (Bool-cases (ltb addr datastart)) [
        | inl metadata ↦ rw (some, below, metadata) (Looks-nothing d sb dev out s (bad c) h)
        | inr behind ↦ elim (Bool-cases (c.used addr == 0)) [
          | inr again ↦ rw (some, below, behind, again) (Looks-nothing d sb dev out s (bad c) h)
          | inl first ↦
              let (t, run, r) =
                bitmap_isset-Looks d sb dev out s addr mark h (ground (arith, covered)) room in
              elim (Bool-cases (clear (d sb.bmapstart) addr)) [
                | inl free ↦ (t, rw (some, below, behind, first, free) (rw (run, free) refl), r)
                | inr taken ↦ (t, rw (some, below, behind, first, taken) (rw (run, taken) refl), r)
              ]
        ]
      ]
    ]
  ]

  pub check_words-Looks :
      (rounds b o blk : ℕ) (out : List ℕ) (s : Machine) (c : Found)
      → IsView d sb dev out s
      → b ∈ out
      → (s.buf b).blockno ≡ blk
      → length out < nbuf
      → Looks
          (check_words rounds dev limit datastart b o c)
          d
          out
          s
          (note_all (d sb.bmapstart) limit datastart (words rounds o (d blk)) c)
  unfolding check_words words note_all
  check_words-Looks zero b o blk out s c h m e room = Looks-nothing d sb dev out s c h
  check_words-Looks (suc rounds) b o blk out s c h m e room =
      let a = get32 (d blk) o in
      let bytes : (s.buf b).bytes ≡ d blk = h.same b m ∙ ap d e in
      let next = note (d sb.bmapstart) limit datastart a c in
      let (t, run, r) = check_addr-Looks out s a c h room in
      let (u, run', r') =
        check_words-Looks rounds b (o + 4) blk out t next (IsView-done d sb dev out s t h r) m
          (ap (λ (x : Buf). x.blockno) (r.kept b m) ∙ e) room in
      (u, rw (bytes, run, run') refl, IsDone-then s t u out d d r r')
