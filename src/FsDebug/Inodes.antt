-- ===== src/FsDebug/Inodes.antt =====
-- The loop of fsck_lite (riscv-os/kernel/fs_debug.c) over the inodes.
use os.Common.{
  ℕ, suc, ◌+◌, ◌<◌, ◌≤◌, ◌≡◌, ◌≢◌, inl, inr, refl, sym, ap, ◌∙◌, subst, arith, true, false, ◌==◌,
  ==→ne, Bool-cases, ◌∈◌, List, [], ◌∷◌, ◌++◌, length, ok,
}
use os.Machine.{Machine, Buf, Block, Superblock, nbuf, fssize}
use os.Bio.{bread}
use os.Fs.Inodes.{ndirect, nindirect, iblock, dinode_at}
use os.Store.Sessions.{IsApart, IsOpened, bread-IsOpened}
use os.Store.Updates.{IsDone-then}
use os.FsDebug.{Found, check_block, check_indirect, check_dinode, check_inode}
use os.FsDebug.Looks.{
  IsMarked, IsView, IsView-done, Looks, Looks-nothing, IsDone-look, opened-IsView, close,
}
use os.FsDebug.Notes.{
  note, note_all, words, refs, indirect_refs, indirect_of, is_unused, check_addr-Looks,
  check_words-Looks,
}

-- fsck_lite can read the block of the inode and, if there is one, the indirect block: they are on
-- the disk, and they, the bitmap's block and each other are different.
pub record IsReachable (d : ℕ → Block) (sb : Superblock) (inum : ℕ) : Type 0 where
  pub home : iblock inum sb < fssize
  pub home_ne : iblock inum sb ≢ sb.bmapstart
  pub indirect :
      is_unused d sb inum ≡ false
      → indirect_of d sb inum ≢ 0
      → (indirect_of d sb inum < fssize)
        × (indirect_of d sb inum ≢ sb.bmapstart)
        × (indirect_of d sb inum ≢ iblock inum sb)

pub note_all-append :
    (bits : Block) (limit datastart : ℕ) (xs ys : List ℕ) (c : Found)
    → note_all bits limit datastart (xs ++ ys) c
      ≡ note_all bits limit datastart ys (note_all bits limit datastart xs c)
unfolding note_all
note_all-append bits limit datastart [] ys c = refl
note_all-append bits limit datastart (x ∷ xs) ys c =
    note_all-append bits limit datastart xs ys (note bits limit datastart x c)

module _ (d : ℕ → Block) (sb : Superblock) (dev limit datastart : ℕ) (mark : IsMarked sb)
    (covered : limit ≤ sb.size) where
  abbrev noted : List ℕ → Found → Found
  noted = note_all (d sb.bmapstart) limit datastart

  opening :
      (out : List ℕ) (s : Machine) (b : ℕ)
      → IsView d sb dev out s
      → b < fssize
      → IsApart s out b
      → length out < nbuf
      → (i : ℕ) × (t : Machine) × (bread dev b s ≡ ok i t) × IsOpened s out b i t
  opening out s b h inside apart room =
      let (i, t, run, r) = bread-IsOpened s out b h.is_open inside apart room in
      (i, t, subst (λ n. bread n b s ≡ ok i t) h.dev_eq run, r)

  check_block-Looks :
      (entries : ℕ) (out : List ℕ) (s : Machine) (a : ℕ) (c : Found)
      → IsView d sb dev out s
      → a < fssize
      → a ≢ sb.bmapstart
      → IsApart s out a
      → suc (length out) < nbuf
      → Looks
          (check_block entries dev limit datastart a c)
          d
          out
          s
          (noted (a ∷ words entries 0 (d a)) c)
  unfolding check_block note_all
  check_block-Looks entries out s a c h inside ne apart room =
      let n = note (d sb.bmapstart) limit datastart a c in
      let (t, run, r) =
        check_addr-Looks d sb dev limit datastart mark covered out s a c h (omega arith) in
      let vt = IsView-done d sb dev out s t h r in
      let apart' : IsApart t out a =
        λ j m e. apart j m (sym (ap (λ (x : Buf). x.blockno) (r.kept j m)) ∙ e) in
      let (i, u, run1, o) = opening out t a vt inside apart' (omega arith) in
      let vu = opened-IsView d sb dev out t u a i vt o ne in
      let (w, run2, r2) =
        check_words-Looks d sb dev limit datastart mark covered entries i 0 a (i ∷ out) u n vu
          (ground arith) o.blockno_eq room in
      let (x, run3, r3) = close d sb dev out t u a i vt o ne w r2 in
      (x, rw (run, run1, run2, run3) refl, IsDone-then s t x out d d r r3)

  without_indirect :
      (out : List ℕ) (s : Machine) (a : ℕ) (c : Found)
      → IsView d sb dev out s
      → (a == 0) ≡ true
      → Looks (check_indirect dev limit datastart a c) d out s (noted (indirect_refs d a) c)
  unfolding check_indirect note_all
  without_indirect out s a c h none = rw none (Looks-nothing d sb dev out s c h)

  with_indirect :
      (out : List ℕ) (s : Machine) (a : ℕ) (c : Found)
      → (a == 0) ≡ false
      → Looks
          (check_block nindirect dev limit datastart a c)
          d
          out
          s
          (noted (a ∷ words nindirect 0 (d a)) c)
      → Looks (check_indirect dev limit datastart a c) d out s (noted (indirect_refs d a) c)
  unfolding check_indirect
  with_indirect out s a c some l = rw some l

  check_indirect-Looks :
      (out : List ℕ) (s : Machine) (a : ℕ) (c : Found)
      → IsView d sb dev out s
      → (a ≢ 0 → (a < fssize) × (a ≢ sb.bmapstart) × IsApart s out a)
      → suc (length out) < nbuf
      → Looks (check_indirect dev limit datastart a c) d out s (noted (indirect_refs d a) c)
  check_indirect-Looks out s a c h fit room = elim (Bool-cases (a == 0)) [
    | inl none ↦ without_indirect out s a c h none
    | inr some ↦
        let (inside, ne, apart) = fit (==→ne a 0 some) in
        with_indirect out s a c some (check_block-Looks nindirect out s a c h inside ne apart room)
  ]

  check_dinode-Looks :
      (inum b : ℕ) (s : Machine) (c : Found)
      → IsView d sb dev (b ∷ []) s
      → IsReachable d sb inum
      → is_unused d sb inum ≡ false
      → (s.buf b).blockno ≡ iblock inum sb
      → Looks (check_dinode dev limit datastart b inum c) d (b ∷ []) s (
          noted
            (words ndirect (dinode_at inum + 12) (d (iblock inum sb))
              ++ indirect_refs d (indirect_of d sb inum))
            c)
  unfolding check_dinode
  check_dinode-Looks inum b s c h k used home =
      let direct = words ndirect (dinode_at inum + 12) (d (iblock inum sb)) in
      let a = indirect_of d sb inum in
      let n = noted direct c in
      let first : b ∈ (b ∷ []) = ground arith in
      let (t, run, r) =
        check_words-Looks d sb dev limit datastart mark covered ndirect b (dinode_at inum + 12)
          (iblock inum sb) (b ∷ []) s c h first home (omega arith) in
      let v = IsView-done d sb dev (b ∷ []) s t h r in
      let home' : (t.buf b).blockno ≡ iblock inum sb =
        ap (λ (x : Buf). x.blockno) (r.kept b first) ∙ home in
      let bytes : (t.buf b).bytes ≡ d (iblock inum sb) = v.same b first ∙ ap d home' in
      let fit : a ≢ 0 → (a < fssize) × (a ≢ sb.bmapstart) × IsApart t (b ∷ []) a = λ ne.
        (let (inside, ne', ne'') = k.indirect used ne in
          (
            inside,
            ne',
            λ j m e.
                let only : j ≡ b = ground arith in
                ne'' (sym e ∙ ap (λ x. (t.buf x).blockno) only ∙ home'),
          )) in
      let (u, run', r') = check_indirect-Looks (b ∷ []) t a n v fit (omega arith) in
      (
        u,
        rw (run, bytes, run')
            (ap (λ (x : Found). ok x u)
              (sym
                (note_all-append (d sb.bmapstart) limit datastart direct (indirect_refs d a) c))),
        IsDone-then s t u (b ∷ []) d d r r',
      )

  noted-nothing : (c : Found) → noted [] c ≡ c
  unfolding note_all
  noted-nothing c = refl

  -- What one round does with the inode.
  pub check_inode-Looks :
      (s : Machine) (inum : ℕ) (c : Found)
      → IsView d sb dev [] s
      → IsReachable d sb inum
      → Looks (check_inode dev limit datastart inum c) d [] s (noted (refs d sb inum) c)
  unfolding check_inode
  check_inode-Looks s inum c h k =
      let blk = iblock inum sb in
      let place : iblock inum s.sb ≡ blk = ap (iblock inum) h.sb_eq in
      let (b, t, run, o) = opening [] s blk h k.home (λ j m. cc) (omega arith) in
      let v = opened-IsView d sb dev [] s t blk b h o k.home_ne in
      let bytes : (t.buf b).bytes ≡ d blk = o.bytes ∙ ap (λ (f : ℕ → Block). f blk) h.ramdisk in
      elim (Bool-cases (is_unused d sb inum)) [
        | inl unused ↦
            let (w, run1, r1) =
              close d sb dev [] s t blk b h o k.home_ne t (IsDone-look d sb dev (b ∷ []) t v) in
            (
              w,
              rw (place, run)
                  (rw (bytes, unused, run1) (ap (λ (x : Found). ok x w) (sym (noted-nothing c)))),
              r1,
            )
        | inr used ↦
            let (u, run1, r1) = check_dinode-Looks inum b t c v k used o.blockno_eq in
            let (w, run2, r2) = close d sb dev [] s t blk b h o k.home_ne u r1 in
            (w, rw (place, run) (rw (bytes, used, run1, run2) refl), r2)
      ]
