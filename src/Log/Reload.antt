-- ===== src/Log/Reload.antt =====
-- read_head through the buffer cache.
use os.Common.{
  ℕ, ◌≤◌, ◌<◌, ◌≡◌, ◌≢◌, inl, inr, refl, sym, ap, ◌∙◌, subst, Bool, false, List, ◌∷◌, arith, ◌==◌,
  ==→ne, Bool-cases, if◌then◌else◌, length, has-remove, length-remove, remove, Run, ok, fail,
  and_then,
}
use os.Machine.{Machine, Buf, Block, Log, LogHeader, fssize, logsize}
use os.Bytes.{get32}
use os.Bio.{brelse}
use os.Bio.Cache.{IsCache}
use os.Bio.Read.{IsRead, bread-IsRead}
use os.Bio.Release.{give_back}
use os.Bio.Write.{brelse-held}
use os.Bio.Synced.{
  IsSynced, IsIdle, content-synced, IsRead-IsSynced, give_back-IsSynced, give_back-locked,
  IsIdle-IsReadable,
}
use os.Log.{read_head, load_blocks, bad_count, set_header}
use os.Log.Install.{IsQuiet}

-- The header that read_head makes out of the bytes of the header block.
abbrev pub loaded : LogHeader → Block → LogHeader
loaded lh hd = record { n = get32 hd 0; block = load_blocks (get32 hd 0) 0 hd lh.block }

-- What read_head does to a quiet state.
pub record IsHeadRead (s : Machine) (order : List ℕ) (t : Machine) (after : List ℕ) : Type 0 where
  pub quiet : IsQuiet t after
  pub ramdisk : t.ramdisk ≡ s.ramdisk
  pub log : t.log ≡ record s.log { lh = loaded s.log.lh (s.ramdisk s.log.start) }
  pub synced : (b : ℕ) → IsSynced s order s.log.dev b → IsSynced t after s.log.dev b

-- What read_head does once the block has been read.
abbrev counted : ℕ → Machine → Machine
counted i t = set_header (record t.log.lh { n = get32 (t.buf i).bytes 0 }) t

abbrev fill_entries : ℕ → Machine → Run Machine (Unit {0})
fill_entries i t = brelse i (
    set_header (record t.log.lh { block = load_blocks t.log.lh.n 0 (t.buf i).bytes t.log.lh.block })
      t)

abbrev after_read : ℕ → Machine → Run Machine (Unit {0})
after_read i t =
    (if bad_count (get32 (t.buf i).bytes 0) then fail "read_head: bad n" else fill_entries i)
      (counted i t)

-- One buffer `i`, out for a block, is given back.
module _ (s t : Machine) (order : List ℕ) (p i : ℕ) (q : IsQuiet s order)
    (r : IsRead s order s.log.dev p i t) where
  release_read : (brelse i t ≡ ok tt (give_back i t)) × IsCache (give_back i t) (i ∷ remove i order)
  release_read = brelse-held i t order r.cache r.mem (λ z. q.used (sym r.dev_eq ∙ z)) r.held

  IsIdle-read : IsIdle (give_back i t) (i ∷ remove i order)
  IsIdle-read j m = give_back-locked i j t ∙ (elim (Bool-cases (j == i)) [
    | inl same ↦ rw same
    | inr other ↦ rw other (
        ap (λ (b : Buf). b.lock.locked) (r.others j (==→ne j i other))
        ∙ q.idle j (sym (has-remove i j order r.mem) ∙ m))
  ])

  two_read : 2 ≤ length (i ∷ remove i order)
  two_read = omega (arith, length-remove i order r.mem, q.two)

good_count : (n : ℕ) → n ≤ logsize → bad_count n ≡ false
good_count n h = ground arith

pub read_head-IsHeadRead :
    (s : Machine) (order : List ℕ)
    → IsQuiet s order
    → s.log.start < fssize
    → IsSynced s order s.log.dev s.log.start
    → get32 (s.ramdisk s.log.start) 0 ≤ logsize
    → (t : Machine) × (after : List ℕ) × (read_head s ≡ ok tt t) × IsHeadRead s order t after
unfolding read_head
read_head-IsHeadRead s order q h y small =
    let dev = s.log.dev in
    let p = s.log.start in
    let (i, t, run, r) =
      bread-IsRead dev p s order q.cache
        (IsIdle-IsReadable s order dev p q.cache q.idle q.two q.used h) in
    let bytes_eq : (t.buf i).bytes ≡ s.ramdisk p = r.bytes ∙ content-synced s order dev p y in
    let l : Log = record t.log { lh = loaded t.log.lh (t.buf i).bytes } in
    let t1 : Machine = record t { log = l } in
    let l_eq : l ≡ record s.log { lh = loaded s.log.lh (s.ramdisk p) } =
      ap (λ (x : Log). record x { lh = loaded x.lh (t.buf i).bytes }) r.log
      ∙ ap (λ (x : Block). record s.log { lh = loaded s.log.lh x }) bytes_eq in
    let r1 : IsRead s order dev p i (record t { log = s.log }) = record {
      cache = record { lock_free = r.cache.lock_free; bufs = r.cache.bufs };
      mem = r.mem;
      was_back = r.was_back;
      held = r.held;
      dev_eq = r.dev_eq;
      blockno_eq = r.blockno_eq;
      valid = r.valid;
      bytes = r.bytes;
      others = r.others;
      ramdisk = r.ramdisk;
      log = refl;
      above_eq = r.above_eq;
    } in
    let c1 : IsCache t1 order = record { lock_free = r.cache.lock_free; bufs = r.cache.bufs } in
    let (run2, c2) = brelse-held i t1 order c1 r.mem (λ z. q.used (sym r.dev_eq ∙ z)) r.held in
    (
      give_back i t1,
      i ∷ remove i order,
      ap (λ (x : Run Machine ℕ). and_then x after_read) run
          ∙ ap
              (λ (bad : Bool).
                (if bad then fail "read_head: bad n" else fill_entries i) (counted i t))
              (good_count (get32 (t.buf i).bytes 0)
                (subst (λ (x : Block). get32 x 0 ≤ logsize) (sym bytes_eq) small))
          ∙ run2,
      record {
        quiet = record {
          cache = c2;
          idle = IsIdle-read s (record t { log = s.log }) order p i q r1;
          two = two_read s t order p i q r;
          used = subst (λ (x : Log). x.dev ≢ 0) (sym l_eq) q.used;
        };
        ramdisk = r.ramdisk;
        log = l_eq;
        synced = λ b z.
            give_back-IsSynced i t1 order dev b r.mem (IsRead-IsSynced s t order dev p i b r z);
      },
    )
