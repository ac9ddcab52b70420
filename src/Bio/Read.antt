-- ===== src/Bio/Read.antt =====
-- bread: which buffer it returns, what that holds, and what stays as it was.
use os.Common.{
  ℕ, ◌+◌, ◌%◌, ◌^◌, ◌<◌, ◌≡◌, ◌≢◌, refl, sym, ap, ◌∙◌, subst, inl, inr, Bool, true, false, List,
  arith, if◌then◌else◌, update, update_self, update_ne, update-update, ◌∈◌, Bool-cases, eq→==, Run,
  ok, hang, and_then,
}
use os.Machine.{Machine, Buf, Block, fssize, above}
use os.Bio.{Walk, found, absent, lost, has_key, unused, bread_fill, bread}
use os.Bio.Search.{first, backwards, first_sound, first-absent, first-ne-lost, has-backwards}
use os.Bio.Buffers.{IsBuffers, IsKept, update-IsBuffers, sole_of_unique}
use os.Bio.Fill.{filled, fill-valid, fill-miss}
use os.Bio.Cache.{
  IsCache, settle, hit, recycled, bget_list, bget_list_hit, bget_list_miss, bget_lem,
  IsCounted-unused,
}

content_at : Walk → ℕ → Machine → Block
content_at (found i) blockno s = if (s.buf i).valid then (s.buf i).bytes else s.ramdisk blockno
content_at absent blockno s = s.ramdisk blockno
content_at lost blockno s = s.ramdisk blockno

-- What a reader of the block gets: the cached bytes, or else those on the disk.
unfoldable pub content : List ℕ → ℕ → ℕ → Machine → Block
unfolding content_at
content order dev blockno s = content_at (first (has_key dev blockno) s.buf order) blockno s

-- A block that can be read: it is on the disk, its buffer is not out, and some buffer is not out.
pub record IsReadable (s : Machine) (order : List ℕ) (dev blockno : ℕ) : Type 0 where
  pub used : dev ≢ 0
  pub inside : blockno < fssize
  pub back :
      (j : ℕ) → j ∈ order → has_key dev blockno (s.buf j) ≡ true → (s.buf j).lock.locked ≡ false
  pub spare : (j : ℕ) × (j ∈ order) × ((s.buf j).refcnt ≡ 0)

-- What bread leaves: the buffer `i` is out, is for the block and holds its content.
pub record IsRead (s : Machine) (order : List ℕ) (dev blockno i : ℕ) (t : Machine) : Type 0 where
  pub cache : IsCache t order
  pub mem : i ∈ order
  pub was_back : (s.buf i).lock.locked ≡ false
  pub held : (t.buf i).lock.locked ≡ true
  pub dev_eq : (t.buf i).dev ≡ dev
  pub blockno_eq : (t.buf i).blockno ≡ blockno
  pub valid : (t.buf i).valid ≡ true
  pub bytes : (t.buf i).bytes ≡ content order dev blockno s
  pub others : (j : ℕ) → j ≢ i → t.buf j ≡ s.buf j
  pub ramdisk : t.ramdisk ≡ s.ramdisk
  pub log : t.log ≡ s.log
  pub above_eq : above t ≡ above s

key_eq :
    (dev blockno : ℕ) (b : Buf)
    → has_key dev blockno b ≡ true
    → (b.dev ≡ dev) × (b.blockno ≡ blockno)
key_eq dev blockno b h = (ground arith, ground arith)

-- Where bget ends well, the rest of bread does too.
module _ (s : Machine) (order : List ℕ) (dev blockno i : ℕ) (b : Buf) (c : IsCache s order)
    (mem : i ∈ order) (was : (s.buf i).lock.locked ≡ false) (k : IsKept s.buf order i b)
    (held : b.lock.locked ≡ true) (dev_eq : b.dev ≡ dev) (blockno_eq : b.blockno ≡ blockno) where
  settled-IsRead :
      (t : Machine) (b' : Buf)
      → t.bcache_lock.locked ≡ false
      → t.buf ≡ update s.buf i b'
      → IsKept s.buf order i b'
      → b'.lock.locked ≡ true
      → b'.dev ≡ dev
      → b'.blockno ≡ blockno
      → b'.valid ≡ true
      → b'.bytes ≡ content order dev blockno s
      → t.ramdisk ≡ s.ramdisk
      → t.log ≡ s.log
      → above t ≡ above s
      → IsRead s order dev blockno i t
  settled-IsRead t b' lock e k' held' dev' blockno' valid bytes disk log kept =
      let at : t.buf i ≡ b' = ap (λ (f : ℕ → Buf). f i) e ∙ update_self s.buf i b' in
      record {
        cache = record {
          lock_free = lock;
          bufs =
              subst (λ f. IsBuffers f order) (sym e) (update-IsBuffers s.buf order i b' c.bufs k');
        };
        mem = mem;
        was_back = was;
        held = ap (λ (x : Buf). x.lock.locked) at ∙ held';
        dev_eq = ap (λ (x : Buf). x.dev) at ∙ dev';
        blockno_eq = ap (λ (x : Buf). x.blockno) at ∙ blockno';
        valid = ap (λ (x : Buf). x.valid) at ∙ valid;
        bytes = ap (λ (x : Buf). x.bytes) at ∙ bytes;
        others = λ j ne. ap (λ (f : ℕ → Buf). f j) e ∙ update_ne s.buf i j b' ne;
        ramdisk = disk;
        log = log;
        above_eq = kept;
      }

  fill_lem :
      blockno < fssize
      → (b.valid ≡ true → b.bytes ≡ content order dev blockno s)
      → (b.valid ≡ false → content order dev blockno s ≡ s.ramdisk blockno)
      → (t : Machine) × (bread_fill i (settle i b s) ≡ ok i t) × IsRead s order dev blockno i t
  fill_lem inside cached fresh = elim (Bool-cases b.valid) [
    | inl v ↦
        let t : Machine = record (settle i b s) {
          buffer_cache_hits = (s.buffer_cache_hits + 1) % 2 ^ 64;
        } in
        (
          t,
          fill-valid i (settle i b s) (ap (λ (x : Buf). x.valid) (update_self s.buf i b) ∙ v),
          settled-IsRead t b refl refl k held dev_eq blockno_eq v (cached v) refl refl refl,
        )
    | inr v ↦
        let b' : Buf = record b { bytes = s.ramdisk b.blockno; valid = true } in
        (
          filled i b (settle i b s),
          fill-miss i (settle i b s) b (update_self s.buf i b) v
              (subst (λ n. n < fssize) (sym blockno_eq) inside),
          settled-IsRead (filled i b (settle i b s)) b' refl (update-update s.buf i b b')
              (record {
                next = k.next;
                prev = k.prev;
                inner = k.inner;
                count = k.count;
                sole = k.sole;
              })
              held dev_eq blockno_eq refl (ap s.ramdisk blockno_eq ∙ sym (fresh v)) refl refl refl,
        )
  ]

-- bread of a block of the disk returns, if the cache is well formed, no one has the block's buffer
-- out and some buffer is not out: it returns a locked buffer of the list that is for the block and
-- holds its content (the cached bytes if there is a valid copy, those of the disk if not), and
-- touches no other buffer, nor the disk, nor the log, nor what stands above the block layer, and
-- keeps the cache well formed.
pub bread-IsRead :
    (dev blockno : ℕ) (s : Machine) (order : List ℕ)
    → IsCache s order
    → IsReadable s order dev blockno
    → (i : ℕ) × (t : Machine) × (bread dev blockno s ≡ ok i t) × IsRead s order dev blockno i t
unfolding bread bget_list content
bread-IsRead dev blockno s order c r = hits (first (has_key dev blockno) s.buf order) refl
  where
    Goal : Type 0
    Goal = (i : ℕ) × (t : Machine) × (bread dev blockno s ≡ ok i t) × IsRead s order dev blockno i t

    got : Run Machine ℕ → Run Machine ℕ
    got m = and_then m bread_fill

    start : bread dev blockno s ≡ got (bget_list dev blockno order s)
    start = ap got (bget_lem dev blockno s order c)

    misses :
        first (has_key dev blockno) s.buf order ≡ absent
        → (w : Walk) → first unused s.buf (backwards order) ≡ w
        → Goal
    misses none_has (found i) e =
        let (m, free) = first_sound unused s.buf (backwards order) i e in
        let m' = sym (has-backwards i order) ∙ m in
        let (t, run, post) =
          fill_lem s order dev blockno i (recycled dev blockno (s.buf i)) c m'
            (IsCounted-unused (s.buf i) (c.counted i m') free)
            (record {
              next = refl;
              prev = refl;
              inner = refl;
              count = inl (refl, refl);
              sole = λ j n ne. first-absent (has_key dev blockno) s.buf order j none_has n;
            })
            refl refl refl r.inside (λ v. cc) (λ v. ap (λ w. content_at w blockno s) none_has) in
        (
          i,
          t,
          start
              ∙ ap (λ w. got (bget_list_hit dev blockno order w s)) none_has
              ∙ ap (λ w. got (bget_list_miss dev blockno w s)) e
              ∙ run,
          post,
        )
    misses none_has absent e =
        let (j, m, zero_refs) = r.spare in
        absurd (
          cc (
            first-absent unused s.buf (backwards order) j e (has-backwards j order ∙ m),
            eq→== (s.buf j).refcnt 0 zero_refs,
          ))
    misses none_has lost e = absurd (first-ne-lost unused s.buf (backwards order) e)

    hits : (w : Walk) → first (has_key dev blockno) s.buf order ≡ w → Goal
    hits (found i) e =
        let (m, key) = first_sound (has_key dev blockno) s.buf order i e in
        let back = r.back i m key in
        let (dev_eq, blockno_eq) = key_eq dev blockno (s.buf i) key in
        let (t, run, post) =
          fill_lem s order dev blockno i (hit (s.buf i)) c m back
            (record {
              next = refl;
              prev = refl;
              inner = refl;
              count = inl (refl, refl);
              sole = sole_of_unique s.buf order i c.bufs m (λ z. r.used (sym dev_eq ∙ z));
            })
            refl dev_eq blockno_eq r.inside
            (λ v.
              ap (λ (h : Bool). if h then (s.buf i).bytes else s.ramdisk blockno) (sym v)
              ∙ ap (λ w. content_at w blockno s) (sym e))
            (λ v.
              ap (λ w. content_at w blockno s) e
              ∙ ap (λ (h : Bool). if h then (s.buf i).bytes else s.ramdisk blockno) v) in
        (
          i,
          t,
          start
              ∙ ap (λ w. got (bget_list_hit dev blockno order w s)) e
              ∙ ap (λ (h : Bool). got (if h then hang else ok i (settle i (hit (s.buf i)) s))) back
              ∙ run,
          post,
        )
    hits absent e = misses e (first unused s.buf (backwards order)) refl
    hits lost e = absurd (first-ne-lost (has_key dev blockno) s.buf order e)
