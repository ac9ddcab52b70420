-- ===== src/FsDebug/Check.antt =====
-- fsck_lite (riscv-os/kernel/fs_debug.c) says whether the block references are consistent.
use os.Common.{
  ℕ, zero, suc, ◌+◌, ◌-◌, ◌*◌, ◌%◌, ◌^◌, ◌<◌, ◌≤◌, ◌≡◌, ◌⊎◌, inl, inr, refl, sym, ap, ◌∙◌, subst,
  arith, true, false, ltb, ◌==◌, Bool-cases, List, [], ◌∷◌, ◌++◌, All, Distinct, length,
  length-append, ok,
}
use os.Machine.{Machine, Block, Superblock}
use os.Bytes.{clear_bytes}
use os.Fs.Contents.{minus_one}
use os.Fs.Directories.{rootdev}
use os.Fs.Inodes.{ndirect, nindirect, iblock, dinode_at}
use os.Store.{IsOpen}
use os.Store.Updates.{IsDone}
use os.Store.Blocks.{bits}
use os.FsDebug.{Found, calc_datastart, check_inode, fsck_loop, fsck_lite, fsck_maxblocks}
use os.FsDebug.Looks.{IsMarked, IsView, Looks, Looks-nothing, Looks-then}
use os.FsDebug.Notes.{note_all, words, refs, indirect_refs, indirect_of, is_unused}
use os.FsDebug.Inodes.{IsReachable, note_all-append, check_inode-Looks}
use os.FsDebug.Verdict.{Fits, nonzero, nonzero-All, note_all-nonzero, verdict, IsNew}

-- The block numbers in `n` inodes from `inum` on.
unfoldable pub all_refs : (ℕ → Block) → Superblock → ℕ → ℕ → List ℕ
all_refs d sb zero inum = []
all_refs d sb (suc n) inum = refs d sb inum ++ all_refs d sb n (inum + 1)

length-words : (n o : ℕ) (b : Block) → length (words n o b) ≡ n
unfolding words
length-words zero o b = refl
length-words (suc n) o b = omega (arith, length-words n (o + 4) b)

length-indirect_refs : (d : ℕ → Block) (a : ℕ) → length (indirect_refs d a) ≤ 1 + nindirect
length-indirect_refs d a = elim (Bool-cases (a == 0)) [
  | inl none ↦ rw none (omega arith)
  | inr some ↦ rw some (omega (arith, length-words nindirect 0 (d a)))
]

length-refs :
    (d : ℕ → Block) (sb : Superblock) (inum : ℕ) → length (refs d sb inum) ≤ ndirect + 1 + nindirect
length-refs d sb inum = elim (Bool-cases (is_unused d sb inum)) [
  | inl unused ↦ rw unused (omega arith)
  | inr used ↦
      let direct = words ndirect (dinode_at inum + 12) (d (iblock inum sb)) in
      let indirect = indirect_refs d (indirect_of d sb inum) in
      rw used (
        omega (
          arith,
          length-append direct indirect,
          length-words ndirect (dinode_at inum + 12) (d (iblock inum sb)),
          length-indirect_refs d (indirect_of d sb inum),
        ))
]

length-all_refs :
    (d : ℕ → Block) (sb : Superblock) (n inum : ℕ)
    → length (all_refs d sb n inum) ≤ n * (ndirect + 1 + nindirect)
unfolding all_refs
length-all_refs d sb zero inum = omega arith
length-all_refs d sb (suc n) inum = omega (
  arith,
  length-append (refs d sb inum) (all_refs d sb n (inum + 1)),
  length-refs d sb inum,
  length-all_refs d sb n (inum + 1),
)

length-nonzero : (xs : List ℕ) → length (nonzero xs) ≤ length xs
length-nonzero [] = omega arith
length-nonzero (x ∷ xs) = elim (Bool-cases (x == 0)) [
  | inl none ↦ rw none (omega (arith, length-nonzero xs))
  | inr some ↦ rw some (omega (arith, length-nonzero xs))
]

-- The loop over the inodes.
module _ (d : ℕ → Block) (sb : Superblock) (dev limit datastart : ℕ) (mark : IsMarked sb)
    (covered : limit ≤ sb.size)
    (reachable : (inum : ℕ) → 1 ≤ inum → inum < sb.ninodes → IsReachable d sb inum) where
  fsck_loop-Looks :
      (rounds n inum : ℕ) (s : Machine) (c : Found)
      → IsView d sb dev [] s
      → 1 ≤ inum
      → sb.ninodes - inum ≡ n
      → n < rounds
      → Looks
          (fsck_loop rounds dev limit datastart inum c)
          d
          []
          s
          (note_all (d sb.bmapstart) limit datastart (all_refs d sb n inum) c)
  unfolding fsck_loop all_refs note_all
  fsck_loop-Looks zero n inum s c h low e fuel = absurd (omega arith)
  fsck_loop-Looks (suc rounds) zero inum s c h low e fuel =
      let count : s.sb.ninodes ≡ sb.ninodes = ap (λ (x : Superblock). x.ninodes) h.sb_eq in
      let end : ltb inum s.sb.ninodes ≡ false = ground (arith, count) in
      rw end (Looks-nothing d sb dev [] s c h)
  fsck_loop-Looks (suc rounds) (suc n) inum s c h low e fuel =
      let count : s.sb.ninodes ≡ sb.ninodes = ap (λ (x : Superblock). x.ninodes) h.sb_eq in
      let more : ltb inum s.sb.ninodes ≡ true = ground (arith, count) in
      let k = reachable inum low (omega arith) in
      let next : (inum + 1) % 2 ^ 32 ≡ inum + 1 = omega (arith, k.home) in
      let here = note_all (d sb.bmapstart) limit datastart (refs d sb inum) c in
      rw (more, next)
        (Looks-then d sb dev (check_inode dev limit datastart inum c)
          (λ f. fsck_loop rounds dev limit datastart (inum + 1) f) [] s here
          (note_all (d sb.bmapstart) limit datastart (refs d sb inum ++ all_refs d sb n (inum + 1))
            c)
          h (check_inode-Looks d sb dev limit datastart mark covered s inum c h k)
          (λ t v.
            subst (Looks (fsck_loop rounds dev limit datastart (inum + 1) here) d [] t)
              (sym (
                note_all-append (d sb.bmapstart) limit datastart (refs d sb inum)
                  (all_refs d sb n (inum + 1)) c))
              (fsck_loop-Looks rounds n (inum + 1) t here v (omega arith) (omega arith)
                (omega arith))))

-- The blocks that the inodes in use refer to, the indirect blocks and what is in them included.
abbrev pub references : Machine → List ℕ
references s = nonzero (all_refs s.ramdisk s.sb (s.sb.ninodes - 1) 1)

-- They are different from each other, in the data area and not free in the bitmap.
abbrev pub IsConsistent : Machine → Type 0
IsConsistent s =
    All (Fits (bits s) s.sb.size (calc_datastart s.sb)) (references s) × Distinct (references s)

module _ (map_bits : Block) (limit datastart : ℕ) (used : Block) where
  IsNew-Fits :
      (xs : List ℕ)
      → All (IsNew map_bits limit datastart (clear_bytes used 0 limit)) xs
      → All (Fits map_bits limit datastart) xs
  IsNew-Fits [] h = tt
  IsNew-Fits (x ∷ xs) h = (h.0.0, IsNew-Fits xs h.1)

  Fits-IsNew :
      (xs : List ℕ)
      → All (Fits map_bits limit datastart) xs
      → All (IsNew map_bits limit datastart (clear_bytes used 0 limit)) xs
  unfolding clear_bytes
  Fits-IsNew [] h = tt
  Fits-IsNew (x ∷ xs) h =
      let below : x < limit = h.0.1 in ((h.0, ground (arith, below)), Fits-IsNew xs h.1)

pub fsck_lite-IsConsistent :
    (s : Machine) (used : Block)
    → IsOpen s []
    → IsMarked s.sb
    → s.log.dev ≡ rootdev
    → ((inum : ℕ) → 1 ≤ inum → inum < s.sb.ninodes → IsReachable s.ramdisk s.sb inum)
    → (t : Machine) × IsDone s [] s.ramdisk t
      × (((fsck_lite used s ≡ ok 0 t) × IsConsistent s)
          ⊎ ((fsck_lite used s ≡ ok minus_one t) × ¬ (IsConsistent s)))
unfolding fsck_lite
fsck_lite-IsConsistent s used o mark dev_eq reachable =
    let n = s.sb.ninodes - 1 in
    let from = calc_datastart s.sb in
    let xs = all_refs s.ramdisk s.sb n 1 in
    let c : Found = record { used = clear_bytes used 0 s.sb.size; errors = 0 } in
    let small : ltb s.sb.size fsck_maxblocks ≡ true = ground (arith, mark.size) in
    let few : n < 65536 = elim (Bool-cases (ltb 65536 s.sb.ninodes)) [
      | inl many ↦
          (let far = (reachable 65536 (omega arith) (ground arith)).home in
            absurd (omega (arith, far)))
      | inr fine ↦ ground arith
    ] in
    let short : 0 + length (nonzero xs) < 2 ^ 32 =
      omega (arith, few, length-nonzero xs, length-all_refs s.ramdisk s.sb n 1) in
    let (t, run, r) =
      fsck_loop-Looks s.ramdisk s.sb rootdev s.sb.size from mark (omega arith) reachable
        (suc s.sb.ninodes) n 1 s c
        (record {
          is_open = o;
          ramdisk = refl;
          sb_eq = refl;
          dev_eq = dev_eq;
          same = λ j m. cc;
          apart = λ j m. cc;
        })
        (omega arith) refl (omega arith) in
    let errors : (note_all (bits s) s.sb.size from xs c).errors
        ≡ (note_all (bits s) s.sb.size from (nonzero xs) c).errors =
      ap (λ (f : Found). f.errors) (note_all-nonzero (bits s) s.sb.size from xs c) in
    (
      t,
      r,
      elim (verdict (bits s) s.sb.size from (nonzero xs) c (nonzero-All xs) short) [
        | inl (none, all_new) ↦
            let fine : (note_all (bits s) s.sb.size from xs c).errors ≡ 0 = errors ∙ none in
            inl (
              rw (small, run, fine) refl,
              (IsNew-Fits (bits s) s.sb.size from used (nonzero xs) all_new.0, all_new.1),
            )
        | inr (some, not_new) ↦
            let wrong : ((note_all (bits s) s.sb.size from xs c).errors == 0) ≡ false =
              ground (arith, errors, some) in
            inr (
              rw (small, run, wrong) refl,
              λ k. not_new (Fits-IsNew (bits s) s.sb.size from used (nonzero xs) k.0, k.1),
            )
      ],
    )
