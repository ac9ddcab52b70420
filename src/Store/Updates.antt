-- ===== src/Store/Updates.antt =====
-- What the code between bread and brelse does to the disk, outside a transaction.
use os.Common.{
  ℕ, ◌<◌, ◌≡◌, refl, sym, ap, ◌∙◌, arith, List, ◌∷◌, true, ◌∈◌, has, ne_of_Out, subst, ◌≢◌, ◌<◌,
  length, update, update_self, update_ne, ok, ◌>>◌, ◌>>=◌, M,
}
use os.Lock.{sleeping}
use os.Machine.{Machine, Buf, Block, nbuf, fssize, above}
use os.Bio.{bread, brelse}
use os.Bio.Release.{unplaced, give_back}
use os.Bio.Write.{fill, give_back_ne}
use os.Log.{bwrite}
use os.Fs.Bitmap.{edit}
use os.Store.{IsOpen}
use os.Store.Sessions.{IsOpened, IsApart, bread-IsOpened}
use os.Store.Writes.{fill-IsOpen, put, bwrite-IsOpen, brelse-IsOpen}

-- The disk is now `d`, the buffers that are out are as they were, and so are the log and what
-- stands above the block layer.
pub record IsDone (s : Machine) (out : List ℕ) (d : ℕ → Block) (t : Machine) : Type 0 where
  pub is_open : IsOpen t out
  pub kept : (j : ℕ) → j ∈ out → unplaced (t.buf j) ≡ unplaced (s.buf j)
  pub ramdisk : t.ramdisk ≡ d
  pub log : t.log ≡ s.log
  pub above_eq : above t ≡ above s

pub IsDone-none : (s : Machine) (out : List ℕ) → IsOpen s out → IsDone s out s.ramdisk s
IsDone-none s out o = record {
  is_open = o;
  kept = λ j m. refl;
  ramdisk = refl;
  log = refl;
  above_eq = refl;
}

pub IsDone-then :
    (s t u : Machine) (out : List ℕ) (d e : ℕ → Block)
    → IsDone s out d t
    → IsDone t out e u
    → IsDone s out e u
IsDone-then s t u out d e a b = record {
  is_open = b.is_open;
  kept = λ j m. b.kept j m ∙ a.kept j m;
  ramdisk = b.ramdisk;
  log = b.log ∙ a.log;
  above_eq = b.above_eq ∙ a.above_eq;
}

-- Work that began with bread.
pub IsOpened-then :
    (s t u : Machine) (out : List ℕ) (b i : ℕ) (d : ℕ → Block)
    → IsOpened s out b i t
    → IsDone t out d u
    → IsDone s out d u
IsOpened-then s t u out b i d a r = record {
  is_open = r.is_open;
  kept = λ j m. r.kept j m ∙ ap unplaced (a.others j (λ e. cc (m, a.fresh, ap (λ k. has k out) e)));
  ramdisk = r.ramdisk;
  log = r.log ∙ a.log;
  above_eq = r.above_eq ∙ a.above_eq;
}

-- `brelse` of the buffer that was taken out last, unedited.
pub give_up :
    (i : ℕ) (t : Machine) (out : List ℕ)
    → IsOpen t (i ∷ out)
    → (t.buf i).bytes ≡ t.ramdisk (t.buf i).blockno
    → (u : Machine) × (brelse i t ≡ ok tt u) × IsDone t out t.ramdisk u
give_up i t out o agrees =
    let (run, o') = brelse-IsOpen i t out o agrees in
    (
      give_back i t,
      run,
      record {
        is_open = o';
        kept = λ j m. give_back_ne i j t (λ e. ne_of_Out i j out o.distinct.0 m (sym e));
        ramdisk = refl;
        log = refl;
        above_eq = refl;
      },
    )

-- An edit of that buffer, `bwrite` and `brelse`.
pub flush :
    (i : ℕ) (v : Block) (t : Machine) (out : List ℕ)
    → IsOpen t (i ∷ out)
    → (w : Machine) × (u : Machine) × (bwrite i (fill i v t) ≡ ok tt w)
      × (brelse i w ≡ ok tt u)
      × IsDone t out (update t.ramdisk (t.buf i).blockno v) u
flush i v t out o =
    let m : i ∈ (i ∷ out) = ground arith in
    let (run1, o2) = bwrite-IsOpen i t1 (i ∷ out) m (fill-IsOpen i v t (i ∷ out) m o) in
    let (run2, o3) = brelse-IsOpen i t2 out o2 agrees in
    (
      t2,
      give_back i t2,
      run1,
      run2,
      record {
        is_open = o3;
        kept = λ j n.
            let ne : j ≢ i = λ e. ne_of_Out i j out o.distinct.0 n (sym e) in
            give_back_ne i j t2 ne
            ∙ ap unplaced (
                update_ne t1.buf i j (record (t1.buf i) { disk = true; lock = sleeping true }) ne
                ∙ update_ne t.buf i j (record (t.buf i) { bytes = v }) ne);
        ramdisk = ap (λ (c : Buf). update t.ramdisk c.blockno c.bytes) at1;
        log = refl;
        above_eq = refl;
      },
    )
  where
    t1 : Machine
    t1 = fill i v t

    t2 : Machine
    t2 = put i t1

    at1 : t1.buf i ≡ record (t.buf i) { bytes = v }
    at1 = update_self t.buf i (record (t.buf i) { bytes = v })

    at2 : t2.buf i ≡ record (t1.buf i) { disk = true; lock = sleeping true }
    at2 = update_self t1.buf i (record (t1.buf i) { disk = true; lock = sleeping true })

    agrees : (t2.buf i).bytes ≡ t2.ramdisk (t2.buf i).blockno
    agrees =
        ap (λ (c : Buf). c.bytes) at2
        ∙ sym (update_self t.ramdisk (t1.buf i).blockno (t1.buf i).bytes)
        ∙ ap (λ (c : Buf). t2.ramdisk c.blockno) (sym at2)

-- Both, as the end of work that began with bread.
pub give_up_opened :
    (s t : Machine) (out : List ℕ) (b i : ℕ)
    → IsOpened s out b i t
    → (u : Machine) × (brelse i t ≡ ok tt u) × IsDone s out s.ramdisk u
give_up_opened s t out b i r =
    let agrees : (t.buf i).bytes ≡ t.ramdisk (t.buf i).blockno =
      r.bytes ∙ sym (ap (λ (d : ℕ → Block). d b) r.ramdisk) ∙ sym (ap t.ramdisk r.blockno_eq) in
    let (u, run, done) = give_up i t out r.is_open agrees in
    (u, run, subst (λ d. IsDone s out d u) r.ramdisk (IsOpened-then s t u out b i t.ramdisk r done))

pub flush_opened :
    (s t : Machine) (out : List ℕ) (b i : ℕ) (v : Block)
    → IsOpened s out b i t
    → (w : Machine) × (u : Machine) × (bwrite i (fill i v t) ≡ ok tt w)
      × (brelse i w ≡ ok tt u)
      × IsDone s out (update s.ramdisk b v) u
flush_opened s t out b i v r =
    let (w, u, run1, run2, done) = flush i v t out r.is_open in
    let disk : update t.ramdisk (t.buf i).blockno v ≡ update s.ramdisk b v =
      ap (λ (d : ℕ → Block). update d (t.buf i).blockno v) r.ramdisk
      ∙ ap (λ (n : ℕ). update s.ramdisk n v) r.blockno_eq in
    (
      w,
      u,
      run1,
      run2,
      subst (λ d. IsDone s out d u) disk
          (IsOpened-then s t u out b i (update t.ramdisk (t.buf i).blockno v) r done),
    )

-- A block that is read, edited by `f`, written and released; the buffers that are out are for other
-- blocks.
abbrev pub rewrite : ℕ → ℕ → (Block → Block) → M Machine (Unit {0})
rewrite dev b f = do i ← bread dev b; edit i f; bwrite i; brelse i

pub rewrite-IsDone :
    (s : Machine) (out : List ℕ) (dev b : ℕ) (f : Block → Block)
    → IsOpen s out
    → dev ≡ s.log.dev
    → b < fssize
    → IsApart s out b
    → length out < nbuf
    → (t : Machine) × (rewrite dev b f s ≡ ok tt t)
      × IsDone s out (update s.ramdisk b (f (s.ramdisk b))) t
rewrite-IsDone s out dev b f o dev_eq inside apart room =
    let (i, t, run, r) = bread-IsOpened s out b o inside apart room in
    let (w, u, run1, run2, done) = flush_opened s t out b i (f (t.buf i).bytes) r in
    (
      u,
      rw (dev_eq, run, run1, run2),
      subst (λ (x : Block). IsDone s out (update s.ramdisk b (f x)) u) r.bytes done,
    )
