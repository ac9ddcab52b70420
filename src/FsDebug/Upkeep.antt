-- ===== src/FsDebug/Upkeep.antt =====
-- balloc (riscv-os/kernel/fs.c) keeps what fsck_lite (riscv-os/kernel/fs_debug.c) checks.
use os.Common.{
  ℕ, ◌+◌, ◌-◌, ◌*◌, ◌<◌, ◌≤◌, ◌≡◌, ◌≢◌, ◌⊎◌, inl, inr, sym, ap, ◌∙◌, subst, arith, true, false,
  ◌==◌, List, [], ◌∷◌, All, Distinct, ok, panic, hit,
}
use os.Bytes.{get16, get32}
use os.Machine.{Machine, Log, Above, Superblock, Block, fssize}
use os.Fs.Bitmap.{clear, balloc}
use os.Fs.Directories.{rootdev}
use os.Fs.Inodes.{iblock, ndirect, dinode_at, t_unused}
use os.Store.{IsOpen}
use os.Store.Blocks.{is_free, bits, IsBitmap}
use os.Store.Changes.{IsTaken}
use os.Store.Free.{balloc-IsTaken}
use os.FsDebug.{calc_datastart, fsck_lite}
use os.FsDebug.Looks.{IsMarked}
use os.FsDebug.Notes.{indirect_of}
use os.FsDebug.Inodes.{IsReachable}
use os.FsDebug.Verdict.{Fits, nonzero}
use os.FsDebug.Check.{all_refs, references, IsConsistent, fsck_lite-IsConsistent}
use os.FsDebug.References.{IsSame, all_refs-same, all_refs-at, indirect-at}

IsReachable-same :
    (d e : ℕ → Block) (sb : Superblock) (inum : ℕ)
    → e (iblock inum sb) ≡ d (iblock inum sb)
    → IsReachable d sb inum
    → IsReachable e sb inum
IsReachable-same d e sb inum same r = record {
  home = r.home;
  home_ne = r.home_ne;
  indirect =
      subst
        (λ (b : Block).
          let a = get32 b (dinode_at inum + 12 + 4 * ndirect) in
          (get16 b (dinode_at inum) == t_unused) ≡ false
          → a ≢ 0
          → (a < fssize) × (a ≢ sb.bmapstart) × (a ≢ iblock inum sb))
        (sym same) r.indirect;
}

All-map : (P Q : ℕ → Type 0) (xs : List ℕ) → ((x : ℕ) → P x → Q x) → All P xs → All Q xs
All-map P Q [] f h = tt
All-map P Q (x ∷ xs) f h = (f x h.0, All-map P Q xs f h.1)

-- Each inode can be reached, and its block is in use.
abbrev pub IsSound : Machine → Type 0
IsSound s =
    (inum : ℕ)
    → 1 ≤ inum
    → inum < s.sb.ninodes
    → IsReachable s.ramdisk s.sb inum × (is_free s (iblock inum s.sb) ≡ false)

module _ (s : Machine) (b : ℕ) (t : Machine) (sound : IsSound s) (ok_before : IsConsistent s)
    (free : is_free s b ≡ true) (k : IsTaken s [] b t) where
  sb_same : t.sb ≡ s.sb
  sb_same = ap (λ (a : Above). a.sb) k.above_eq

  home_same :
      (i : ℕ) → 1 ≤ i → i < s.sb.ninodes → t.ramdisk (iblock i s.sb) ≡ s.ramdisk (iblock i s.sb)
  home_same i low below =
      let (r, taken) = sound i low below in
      k.others (iblock i s.sb) (λ e. cc (free, taken, ap (is_free s) e)) r.home_ne

  taken-IsSame : (i : ℕ) → 1 ≤ i → i < 1 + (s.sb.ninodes - 1) → IsSame s.ramdisk t.ramdisk s.sb i
  taken-IsSame i low below =
      let below' : i < s.sb.ninodes = omega arith in
      record {
        home = home_same i low below';
        indirect = λ used some.
            let P = Fits (bits s) s.sb.size (calc_datastart s.sb) in
            let (_, ne, _) = (sound i low below').0.indirect used some in
            let fits : P (indirect_of s.ramdisk s.sb i) =
              indirect-at P s.ramdisk s.sb i used some
                (all_refs-at P s.ramdisk s.sb (s.sb.ninodes - 1) 1 i low below ok_before.0) in
            k.others (indirect_of s.ramdisk s.sb i) (λ e. cc (free, fits.2, ap (is_free s) e)) ne;
      }

  taken-IsConsistent : IsConsistent t
  taken-IsConsistent =
      let n = s.sb.ninodes - 1 in
      let same : references s ≡ nonzero (all_refs t.ramdisk s.sb n 1) =
        ap nonzero (sym (all_refs-same s.ramdisk t.ramdisk s.sb n 1 taken-IsSame)) in
      let P = Fits (bits s) s.sb.size (calc_datastart s.sb) in
      let Q = Fits (t.ramdisk s.sb.bmapstart) s.sb.size (calc_datastart s.sb) in
      let still : (x : ℕ) → P x → Q x = λ x f. (
        f.0,
        f.1,
        ap (λ (y : Superblock). clear (t.ramdisk y.bmapstart) x) (sym sb_same)
            ∙ k.free x
            ∙ (ground (arith, f.2)),
      ) in
      subst
        (λ (y : Superblock).
          All (Fits (t.ramdisk y.bmapstart) y.size (calc_datastart y))
            (nonzero (all_refs t.ramdisk y (y.ninodes - 1) 1))
          × Distinct (nonzero (all_refs t.ramdisk y (y.ninodes - 1) 1)))
        (sym sb_same)
        (subst (λ xs. All Q xs × Distinct xs) same
          (All-map P Q (references s) still ok_before.0, ok_before.1))

  taken-IsReachable : (inum : ℕ) → 1 ≤ inum → inum < t.sb.ninodes → IsReachable t.ramdisk t.sb inum
  taken-IsReachable =
      subst
        (λ (y : Superblock).
          (inum : ℕ) → 1 ≤ inum → inum < y.ninodes → IsReachable t.ramdisk y inum)
        (sym sb_same)
        (λ inum low below.
          IsReachable-same s.ramdisk t.ramdisk s.sb inum (home_same inum low below)
            (sound inum low below).0)

-- Outside a transaction with no buffer out, on the root device, with one bitmap block that marks
-- itself and the blocks of the inodes, and all indirect blocks being readable: where the blocks
-- that the inodes in use refer to are different from each other, in the data area and marked as
-- used, they are so behind balloc, if it does not panic for want of a free block, and fsck_lite
-- then returns 0.
pub balloc-fsck_lite :
    (s : Machine) (used : Block)
    → IsOpen s []
    → IsBitmap s
    → s.log.dev ≡ rootdev
    → IsSound s
    → IsConsistent s
    → ((b : ℕ) × (t : Machine) × (u : Machine) × (balloc s.log.dev s ≡ ok b t)
        × IsConsistent t
        × (fsck_lite used t ≡ ok 0 u))
      ⊎ (balloc s.log.dev s ≡ panic "balloc: out of blocks")
balloc-fsck_lite s used o m dev_eq sound ok_before =
    elim (balloc-IsTaken s [] o m (λ j m. cc) (omega arith)) [
      | inr (_, fails) ↦ inr fails
      | inl (b, t, hit _ _ _ free _, run, k) ↦
          let after = taken-IsConsistent s b t sound ok_before free k in
          let mark : IsMarked t.sb = record { size = k.bitmap.size; inside = k.bitmap.inside } in
          let (u, _, verdict) =
            fsck_lite-IsConsistent t used k.is_open mark (ap (λ (l : Log). l.dev) k.log ∙ dev_eq)
              (taken-IsReachable s b t sound ok_before free k) in
          elim verdict [
            | inl (fine, _) ↦ inl (b, t, u, run, after, fine)
            | inr (_, wrong) ↦ absurd (wrong after)
          ]
    ]
