-- ===== src/FsDebug/Looks.antt =====
-- Code of riscv-os/kernel/fs_debug.c that only looks at the disk.
use os.Common.{
  ℕ, ◌<◌, ◌%◌, ◌≤◌, ◌≡◌, ◌≢◌, inl, inr, refl, sym, ap, ◌∙◌, subst, arith, if◌then◌else◌, List, ◌∷◌,
  ◌==◌, Bool-cases, ==→eq, ==→ne, ◌∈◌, length, ok, M, and_then,
}
use os.Machine.{Machine, Buf, Block, Log, Superblock, Above, nbuf, fssize}
use os.Bio.{bread, brelse}
use os.Fs.Bitmap.{bpb, bblock, clear}
use os.Store.{IsOpen}
use os.Store.Sessions.{IsOpened, IsApart, bread-IsOpened}
use os.Store.Updates.{IsDone, IsDone-then, IsOpened-then, give_up, give_up_opened}
use os.FsDebug.{bitmap_isset}

-- The bitmap of the disk `d` is one block of it.
pub record IsMarked (sb : Superblock) : Type 0 where
  pub size : sb.size ≤ fssize
  pub inside : sb.bmapstart < fssize

-- Outside a transaction, with the disk `d` and the buffers `out` out, which hold their blocks
-- unedited; none is the bitmap's.
pub record IsView (d : ℕ → Block) (sb : Superblock) (dev : ℕ) (out : List ℕ) (t : Machine)
    : Type 0 where
  pub is_open : IsOpen t out
  pub ramdisk : t.ramdisk ≡ d
  pub sb_eq : t.sb ≡ sb
  pub dev_eq : t.log.dev ≡ dev
  pub same : (j : ℕ) → j ∈ out → (t.buf j).bytes ≡ d (t.buf j).blockno
  pub apart : IsApart t out sb.bmapstart

-- A run that returns `v` and leaves the disk.
abbrev pub Looks : {A : Type 0} → M Machine A → (ℕ → Block) → List ℕ → Machine → A → Type 0
Looks m d out s v = (t : Machine) × (m s ≡ ok v t) × IsDone s out d t

module _ (d : ℕ → Block) (sb : Superblock) (dev : ℕ) where
  pub IsView-done :
      (out : List ℕ) (s t : Machine)
      → IsView d sb dev out s
      → IsDone s out d t
      → IsView d sb dev out t
  IsView-done out s t v r = record {
    is_open = r.is_open;
    ramdisk = r.ramdisk;
    sb_eq = ap (λ (a : Above). a.sb) r.above_eq ∙ v.sb_eq;
    dev_eq = ap (λ (l : Log). l.dev) r.log ∙ v.dev_eq;
    same = λ j m.
        ap (λ (c : Buf). c.bytes) (r.kept j m)
        ∙ v.same j m
        ∙ sym (ap (λ (c : Buf). d c.blockno) (r.kept j m));
    apart = λ j m e. v.apart j m (sym (ap (λ (c : Buf). c.blockno) (r.kept j m)) ∙ e);
  }

  pub IsDone-look : (out : List ℕ) (s : Machine) → IsView d sb dev out s → IsDone s out d s
  IsDone-look out s h = record {
    is_open = h.is_open;
    kept = λ j m. refl;
    ramdisk = h.ramdisk;
    log = refl;
    above_eq = refl;
  }

  pub Looks-nothing :
      {A : Type 0} (out : List ℕ) (s : Machine) (v : A)
      → IsView d sb dev out s
      → Looks (λ t. ok v t) d out s v
  Looks-nothing out s v h = (s, refl, IsDone-look out s h)

  pub Looks-then :
      {A B : Type 0} (m : M Machine A) (k : A → M Machine B) (out : List ℕ) (s : Machine) (v : A)
      (w : B)
      → IsView d sb dev out s
      → Looks m d out s v
      → ((t : Machine) → IsView d sb dev out t → Looks (k v) d out t w)
      → Looks (λ t. and_then (m t) k) d out s w
  Looks-then m k out s v w h (t, run, r) next =
      let (u, run', r') = next t (IsView-done out s t h r) in
      (u, rw run run', IsDone-then s t u out d d r r')

  -- What is between bread and brelse.
  module _ (out : List ℕ) (s t : Machine) (b i : ℕ) (h : IsView d sb dev out s)
      (r : IsOpened s out b i t) (ne : b ≢ sb.bmapstart) where
    pub opened-IsView : IsView d sb dev (i ∷ out) t
    opened-IsView = record {
      is_open = r.is_open;
      ramdisk = r.ramdisk ∙ h.ramdisk;
      sb_eq = ap (λ (a : Above). a.sb) r.above_eq ∙ h.sb_eq;
      dev_eq = ap (λ (l : Log). l.dev) r.log ∙ h.dev_eq;
      same = λ j m. elim (Bool-cases (j == i)) [
        | inl same ↦
            (let e : i ≡ j = sym (==→eq j i same) in
              subst (λ k. (t.buf k).bytes ≡ d (t.buf k).blockno) e
                (r.bytes ∙ ap (λ (f : ℕ → Block). f b) h.ramdisk ∙ sym (ap d r.blockno_eq)))
        | inr other ↦
            (let e : t.buf j ≡ s.buf j = r.others j (==→ne j i other) in
              ap (λ (c : Buf). c.bytes) e
              ∙ h.same j (ground arith)
              ∙ sym (ap (λ (c : Buf). d c.blockno) e))
      ];
      apart = λ j m e. elim (Bool-cases (j == i)) [
        | inl same ↦ ne (sym r.blockno_eq ∙ sym (ap (λ k. (t.buf k).blockno) (==→eq j i same)) ∙ e)
        | inr other ↦
            h.apart j (ground arith)
              (sym (ap (λ (c : Buf). c.blockno) (r.others j (==→ne j i other))) ∙ e)
      ];
    }

    -- The buffer is given back after more looks.
    pub close :
        (u : Machine)
        → IsDone t (i ∷ out) d u
        → (w : Machine) × (brelse i u ≡ ok tt w) × IsDone s out d w
    close u a =
        let v = IsView-done (i ∷ out) t u opened-IsView a in
        let agrees : (u.buf i).bytes ≡ u.ramdisk (u.buf i).blockno =
          v.same i (ground arith) ∙ sym (ap (λ (f : ℕ → Block). f (u.buf i).blockno) v.ramdisk) in
        let (w, run, e) = give_up i u out v.is_open agrees in
        let whole : IsDone t out d w = record {
          is_open = e.is_open;
          kept = λ j m. e.kept j m ∙ a.kept j (ground (arith, m));
          ramdisk = e.ramdisk ∙ v.ramdisk;
          log = e.log ∙ a.log;
          above_eq = e.above_eq ∙ a.above_eq;
        } in
        (w, run, IsOpened-then s t w out b i d r whole)

  -- The bit of a block in the bitmap.
  pub bitmap_isset-Looks :
      (out : List ℕ) (s : Machine) (bno : ℕ)
      → IsMarked sb
      → IsView d sb dev out s
      → bno < sb.size
      → length out < nbuf
      → Looks (bitmap_isset dev bno) d out s (if clear (d sb.bmapstart) bno then 0 else 1)
  unfolding bitmap_isset
  bitmap_isset-Looks out s bno mark h below room =
      let place : bblock bno s.sb ≡ sb.bmapstart =
        omega (arith, mark.size, ap (λ (x : Superblock). x.bmapstart) h.sb_eq) in
      let bit : bno % bpb ≡ bno = omega (arith, mark.size) in
      let (i, t, run, r) = bread-IsOpened s out sb.bmapstart h.is_open mark.inside h.apart room in
      let (u, run', done) = give_up_opened s t out sb.bmapstart i r in
      let run'' : bread dev sb.bmapstart s ≡ ok i t =
        subst (λ n. bread n sb.bmapstart s ≡ ok i t) h.dev_eq run in
      let bytes : (t.buf i).bytes ≡ d sb.bmapstart =
        r.bytes ∙ ap (λ (f : ℕ → Block). f sb.bmapstart) h.ramdisk in
      (
        u,
        rw (place, run'', run', bit)
            (ap (λ (x : Block). ok (if clear x bno then 0 else 1) u) bytes),
        subst (λ e. IsDone s out e u) h.ramdisk done,
      )
