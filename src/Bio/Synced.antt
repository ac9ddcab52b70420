-- ===== src/Bio/Synced.antt =====
-- Blocks whose cached copies agree with the disk, and caches none of whose buffers is out.
use os.Common.{
  ℕ, ◌≤◌, ◌<◌, ◌≡◌, ◌≢◌, refl, sym, ap, ◌∙◌, subst, inl, inr, true, false, List, [], ◌∷◌, arith,
  ◌==◌, if◌then◌else◌, Distinct, length, update_self, update_ne, ◌∈◌, has-remove, remove,
  Bool-cases, ==→eq, ==→ne,
}
use os.Machine.{Machine, Buf, Block, fssize}
use os.Bio.{Walk, found, absent, lost, has_key}
use os.Bio.Search.{first, first_sound}
use os.Bio.Buffers.{IsCounted}
use os.Bio.Cache.{IsCache}
use os.Bio.Read.{content, IsReadable, IsRead}
use os.Bio.Release.{give_back}
use os.Bio.Write.{written, give_back_self, give_back_ne}

-- Every valid copy of the block holds what the disk holds.
abbrev pub IsSynced : Machine → List ℕ → ℕ → ℕ → Type 0
IsSynced s order dev b =
    (j : ℕ)
    → j ∈ order
    → has_key dev b (s.buf j) ≡ true
    → (s.buf j).valid ≡ true
    → (s.buf j).bytes ≡ s.ramdisk b

abbrev pub IsIdle : Machine → List ℕ → Type 0
IsIdle s order = (j : ℕ) → j ∈ order → (s.buf j).lock.locked ≡ false

pub content-synced :
    (s : Machine) (order : List ℕ) (dev b : ℕ)
    → IsSynced s order dev b
    → content order dev b s ≡ s.ramdisk b
unfolding content
content-synced s order dev b y = go (first (has_key dev b) s.buf order) refl
  where
    go : (w : Walk) → first (has_key dev b) s.buf order ≡ w → content order dev b s ≡ s.ramdisk b
    go (found i) e =
        let (m, key) = first_sound (has_key dev b) s.buf order i e in
        rw e (elim (Bool-cases (s.buf i).valid) [ inl v ↦ rw v (y i m key v) | inr v ↦ rw v ])
    go absent e = rw e
    go lost e = rw e

-- Reading a block keeps copies and disk in step.
pub IsRead-IsSynced :
    (s t : Machine) (order : List ℕ) (dev blockno i b : ℕ)
    → IsRead s order dev blockno i t
    → IsSynced s order dev b
    → IsSynced t order dev b
IsRead-IsSynced s t order dev blockno i b r y j m key v = elim (Bool-cases (j == i)) [
  | inl same ↦
      let e : j ≡ i = ==→eq j i same in
      let eb : blockno ≡ b = ground (arith, r.blockno_eq) in
      ap (λ n. (t.buf n).bytes) e
      ∙ r.bytes
      ∙ ap (λ n. content order dev n s) eb
      ∙ content-synced s order dev b y
      ∙ ap (λ (d : ℕ → Block). d b) (sym r.ramdisk)
  | inr other ↦
      let e = r.others j (==→ne j i other) in
      ap (λ (c : Buf). c.bytes) e
      ∙ y j m (ap (has_key dev b) (sym e) ∙ key) (ap (λ (c : Buf). c.valid) (sym e) ∙ v)
      ∙ ap (λ (d : ℕ → Block). d b) (sym r.ramdisk)
]

-- Writing a buffer to the disk keeps the other blocks in step, and brings its own into step.
pub written-IsSynced :
    (i : ℕ) (v : Block) (t : Machine) (order : List ℕ) (dev b : ℕ)
    → IsCache t order
    → i ∈ order
    → dev ≢ 0
    → (t.buf i).dev ≡ dev
    → (b ≢ (t.buf i).blockno → IsSynced t order dev b)
    → IsSynced (written i v t) order dev b
written-IsSynced i v t order dev b c m used dev_eq y j n key valid = elim (Bool-cases (j == i)) [
  | inl same ↦
      let e : b ≡ (t.buf i).blockno = ground arith in
      rw same (rw e (sym (update_self t.ramdisk (t.buf i).blockno v)))
  | inr other ↦
      let key' : has_key dev b (t.buf j) ≡ true = rw other at key in
      let ne : b ≢ (t.buf i).blockno =
        λ e. ==→ne j i other (c.unique j i n m (ground arith) (ground arith) (ground arith)) in
      rw other
        (y ne j n key' (rw other at valid) ∙ sym (update_ne t.ramdisk (t.buf i).blockno b v ne))
]

-- So does giving a buffer back.
pub give_back-IsSynced :
    (i : ℕ) (t : Machine) (order : List ℕ) (dev b : ℕ)
    → i ∈ order
    → IsSynced t order dev b
    → IsSynced (give_back i t) (i ∷ remove i order) dev b
give_back-IsSynced i t order dev b m y j n key v = elim (Bool-cases (j == i)) [
  | inl same ↦
      let e : j ≡ i = ==→eq j i same in
      let d = give_back_self i t in
      subst (λ k. ((give_back i t).buf k).bytes ≡ t.ramdisk b) (sym e)
        (ap (λ (c : Buf). c.bytes) d
          ∙ y i m
              (ap (has_key dev b) (sym d)
                ∙ subst (λ k. has_key dev b ((give_back i t).buf k) ≡ true) e key)
              (ap (λ (c : Buf). c.valid) (sym d)
                ∙ subst (λ k. ((give_back i t).buf k).valid ≡ true) e v))
  | inr other ↦
      let d = give_back_ne i j t (==→ne j i other) in
      ap (λ (c : Buf). c.bytes) d
      ∙ y j (sym (has-remove i j order m) ∙ n) (ap (has_key dev b) (sym d) ∙ key)
          (ap (λ (c : Buf). c.valid) (sym d) ∙ v)
]

-- The lock of a buffer when `i` has been given back.
pub give_back-locked :
    (i j : ℕ) (t : Machine)
    → ((give_back i t).buf j).lock.locked ≡ (if j == i then false else (t.buf j).lock.locked)
give_back-locked i j t = elim (Bool-cases (j == i)) [
  | inl same ↦
      let e : j ≡ i = ==→eq j i same in
      rw same (
        subst (λ k. ((give_back i t).buf k).lock.locked ≡ false) (sym e)
          (ap (λ (c : Buf). c.lock.locked) (give_back_self i t)))
  | inr other ↦ rw other (ap (λ (c : Buf). c.lock.locked) (give_back_ne i j t (==→ne j i other)))
]

-- Of two buffers or more one is another than `a`.
another :
    (a : ℕ) (order : List ℕ) → Distinct order → 2 ≤ length order → (j : ℕ) × (j ∈ order) × (j ≢ a)
another a [] d h = absurd (omega arith)
another a (x ∷ []) d h = absurd (omega arith)
another a (x ∷ y ∷ rest) d h = elim (Bool-cases (x == a)) [
  | inl same ↦ (y, ground arith, ground arith)
  | inr other ↦ (x, ground arith, ==→ne x a other)
]

IsCounted-back : (b : Buf) → IsCounted b → b.lock.locked ≡ false → b.refcnt ≡ 0
IsCounted-back b c h = ground arith

-- In an idle cache every block of the disk can be read,
pub IsIdle-IsReadable :
    (s : Machine) (order : List ℕ) (dev b : ℕ)
    → IsCache s order
    → IsIdle s order
    → 2 ≤ length order
    → dev ≢ 0
    → b < fssize
    → IsReadable s order dev b
IsIdle-IsReadable s order dev b c idle two used inside =
    let (j, m, ne) = another 0 order c.ring.distinct.1 two in
    record {
      used = used;
      inside = inside;
      back = λ l n key. idle l n;
      spare = (j, m, IsCounted-back (s.buf j) (c.counted j m) (idle j m));
    }

-- and when it has been, every other block.
pub IsRead-IsReadable :
    (s t : Machine) (order : List ℕ) (dev a i b : ℕ)
    → IsIdle s order
    → IsRead s order dev a i t
    → 2 ≤ length order
    → dev ≢ 0
    → b < fssize
    → b ≢ a
    → IsReadable t order dev b
IsRead-IsReadable s t order dev a i b idle r two used inside ne =
    let (j, m, other) = another i order r.cache.ring.distinct.1 two in
    let still : (l : ℕ) → l ∈ order → l ≢ i → (t.buf l).lock.locked ≡ false =
      λ l n d. ap (λ (c : Buf). c.lock.locked) (r.others l d) ∙ idle l n in
    record {
      used = used;
      inside = inside;
      back = λ l n key. elim (Bool-cases (l == i)) [
        | inl same ↦ absurd (ne (ground (arith, r.blockno_eq)))
        | inr d ↦ still l n (==→ne l i d)
      ];
      spare = (j, m, IsCounted-back (t.buf j) (r.cache.counted j m) (still j m other));
    }
