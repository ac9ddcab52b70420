-- ===== src/Store.antt =====
-- The block layer as riscv-os/kernel/fs.c sees it outside a transaction: bread, bwrite and brelse
-- over the disk as a map of blocks.
pub mod Sessions
pub mod Writes
pub mod Updates
pub mod Blocks
pub mod Changes
pub mod Free
pub mod Loads
pub mod Dinodes
pub mod Reads
pub mod Content
pub mod Files
use os.Common.{
  ℕ, suc, ◌+◌, ◌<◌, ◌≡◌, ◌≢◌, inl, inr, refl, sym, ap, ◌∙◌, subst, arith, true, false, List, [],
  ◌∷◌, ◌==◌, ==→eq, ==→ne, ◌∈◌, has, Out, Distinct, remove, length, length-remove, has-remove,
  ne_of_Out, Bool-cases,
}
use os.Machine.{Machine, Buf, Block, Log, nbuf, fssize}
use os.Lock.{Spinlock}
use os.Bio.Buffers.{IsBuffers}
use os.Bio.Cache.{IsCache}
use os.Bio.Release.{unplaced}

-- A buffer that is out: some code between bread and brelse holds it, and may have edited it.
pub record IsHeld (s : Machine) (order : List ℕ) (j : ℕ) : Type 0 where
  pub mem : j ∈ order
  pub locked : (s.buf j).lock.locked ≡ true
  pub dev_eq : (s.buf j).dev ≡ s.log.dev
  pub inside : (s.buf j).blockno < fssize

-- A buffer that is not out: if it is valid it agrees with the disk.
pub record IsBack (s : Machine) (j : ℕ) : Type 0 where
  pub unlocked : (s.buf j).lock.locked ≡ false
  pub synced :
      (s.buf j).dev ≡ s.log.dev
      → (s.buf j).valid ≡ true
      → (s.buf j).bytes ≡ s.ramdisk (s.buf j).blockno

-- A state outside a transaction, with the buffers `out` out, the last one first.
pub record IsOpen (s : Machine) (out : List ℕ) : Type 0 where
  pub order : List ℕ
  pub cache : IsCache s order
  pub all : length order ≡ nbuf
  pub used : s.log.dev ≢ 0
  pub plain : s.log.outstanding ≡ 0
  pub distinct : Distinct out
  pub held : (j : ℕ) → j ∈ out → IsHeld s order j
  pub back : (j : ℕ) → j ∈ order → has j out ≡ false → IsBack s j

-- A longer list without repetition has an element that the shorter one lacks.
pub lacking :
    (xs out : List ℕ)
    → Distinct xs
    → length out < length xs
    → (j : ℕ) × (j ∈ xs) × (has j out ≡ false)
lacking [] out d h = absurd (omega arith)
lacking (x ∷ xs) out d h = elim (Bool-cases (has x out)) [
  | inl there ↦
      let less : length (remove x out) < length xs = omega (arith, length-remove x out there) in
      let (j, m, free) = lacking xs (remove x out) d.1 less in
      let ne = ne_of_Out x j xs d.0 m in
      (j, ground (arith, m), sym (has-remove x j out there) ∙ (ground (arith, free)))
  | inr free ↦ (x, ground arith, free)
]

pub Out-lacking : (i : ℕ) (xs : List ℕ) → has i xs ≡ false → Out i xs
Out-lacking i [] free = tt
Out-lacking i (x ∷ xs) free = (ground arith, Out-lacking i xs (ground arith))

-- What is kept of a buffer by a step that leaves it, the disk's other blocks and the log.
pub IsHeld-same :
    (s t : Machine) (order after : List ℕ) (j : ℕ)
    → IsHeld s order j
    → has j after ≡ has j order
    → unplaced (t.buf j) ≡ unplaced (s.buf j)
    → t.log ≡ s.log
    → IsHeld t after j
IsHeld-same s t order after j h m same log = record {
  mem = m ∙ h.mem;
  locked = ap (λ (c : Buf). c.lock.locked) same ∙ h.locked;
  dev_eq = ap (λ (c : Buf). c.dev) same ∙ h.dev_eq ∙ sym (ap (λ (l : Log). l.dev) log);
  inside = subst (λ (c : Buf). c.blockno < fssize) (sym same) h.inside;
}

pub IsBack-same :
    (s t : Machine) (j : ℕ)
    → IsBack s j
    → unplaced (t.buf j) ≡ unplaced (s.buf j)
    → t.log ≡ s.log
    → ((s.buf j).dev ≡ s.log.dev → t.ramdisk (s.buf j).blockno ≡ s.ramdisk (s.buf j).blockno)
    → IsBack t j
IsBack-same s t j h same log disk = record {
  unlocked = ap (λ (c : Buf). c.lock.locked) same ∙ h.unlocked;
  synced = λ d v.
      let dev : (s.buf j).dev ≡ s.log.dev =
        sym (ap (λ (c : Buf). c.dev) same) ∙ d ∙ ap (λ (l : Log). l.dev) log in
      ap (λ (c : Buf). c.bytes) same
      ∙ h.synced dev (sym (ap (λ (c : Buf). c.valid) same) ∙ v)
      ∙ sym (disk dev)
      ∙ ap (λ (c : Buf). t.ramdisk c.blockno) (sym same);
}

-- A state that differs above the block layer only.
pub IsOpen-above :
    (s t : Machine) (out : List ℕ)
    → IsOpen s out
    → t.bcache_lock ≡ s.bcache_lock
    → t.buf ≡ s.buf
    → t.log ≡ s.log
    → t.ramdisk ≡ s.ramdisk
    → IsOpen t out
IsOpen-above s t out o lock buf log disk = record {
  order = o.order;
  cache = record {
    lock_free = ap (λ (l : Spinlock). l.locked) lock ∙ o.cache.lock_free;
    bufs = subst (λ f. IsBuffers f o.order) (sym buf) o.cache.bufs;
  };
  all = o.all;
  used = subst (λ (l : Log). l.dev ≢ 0) (sym log) o.used;
  plain = ap (λ (l : Log). l.outstanding) log ∙ o.plain;
  distinct = o.distinct;
  held = λ j m.
      IsHeld-same s t o.order o.order j (o.held j m) refl (ap (λ (f : ℕ → Buf). unplaced (f j)) buf)
        log;
  back = λ j m free.
      IsBack-same s t j (o.back j m free) (ap (λ (f : ℕ → Buf). unplaced (f j)) buf) log
        (λ _. ap (λ (d : ℕ → Block). d (s.buf j).blockno) disk);
}
