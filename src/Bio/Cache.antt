-- ===== src/Bio/Cache.antt =====
-- The invariant of the buffer cache, and bget as a search of the list that the cache stands for.
use os.Common.{
  ℕ, ◌+◌, ◌^◌, ◌%◌, ◌≡◌, inl, inr, refl, sym, ap, ◌∙◌, and_then, pure, Bool, true, false, List,
  arith, if◌then◌else◌, update, update-update, update_self, Option, Run, ok, panic, hang,
}
use os.Lock.{Cpu, Spinlock, initlock, sleeping, release, acquiresleep}
use os.Lock.Waits.{enabled, slept, acquire-free, acquiresleep_lem}
use os.Machine.{Machine, Buf, nbuf, set_buf, put_bcache, put_lock, acquiresleep_buf}
use os.Bio.{
  Walk, found, absent, lost, has_key, unused, bget, bget_cached, bget_recycle, bget_hit, bget_miss,
  bget_scan,
}
use os.Bio.Buffers.{IsCounted, IsBuffers}
use os.Bio.Search.{first, backwards, first_sound, has-backwards, walk-next, walk-prev}

-- Between two calls of the cache.
pub record IsCache (s : Machine) (order : List ℕ) : Type 0 where
  pub lock_free : s.bcache_lock.locked ≡ false
  pub bufs : IsBuffers s.buf order
  pub open bufs use *

-- The state when the spin lock has been taken and given back, and `b` has become buffer `i`.
abbrev pub settle : ℕ → Buf → Machine → Machine
settle i b s = record s { cpu = enabled; bcache_lock = initlock; buf = update s.buf i b }

abbrev pub hit : Buf → Buf
hit b = record b { lock = sleeping true; refcnt = 1 }

abbrev pub recycled : ℕ → ℕ → Buf → Buf
recycled dev blockno b = record b {
  valid = false;
  disk = false;
  dev = dev;
  blockno = blockno;
  lock = sleeping true;
  refcnt = 1;
}

unfoldable pub bget_list_miss : ℕ → ℕ → Walk → Machine → Run Machine ℕ
bget_list_miss dev blockno (found i) s = ok i (settle i (recycled dev blockno (s.buf i)) s)
bget_list_miss dev blockno absent s = panic "bget: no free buffer"
bget_list_miss dev blockno lost s = hang

unfoldable pub bget_list_hit : ℕ → ℕ → List ℕ → Walk → Machine → Run Machine ℕ
unfolding bget_list_miss
bget_list_hit dev blockno order (found i) s =
    if (s.buf i).lock.locked then hang else ok i (settle i (hit (s.buf i)) s)
bget_list_hit dev blockno order absent s =
    bget_list_miss dev blockno (first unused s.buf (backwards order)) s
bget_list_hit dev blockno order lost s = hang

-- What bget promises, over the list of buffers: the buffer for the block, to wait for ever for it
-- if it is out; else the least recently used buffer that is not out, emptied; else a panic.
unfoldable pub bget_list : ℕ → ℕ → List ℕ → Machine → Run Machine ℕ
unfolding bget_list_hit
bget_list dev blockno order s =
    bget_list_hit dev blockno order (first (has_key dev blockno) s.buf order) s

module _ (i : ℕ) (t : Machine) (b : Buf) (e : t.buf i ≡ b) (inner : b.lock.lk.locked ≡ false) where
  slept_lem : (held : Bool) → b.lock.locked ≡ held → acquiresleep t.cpu (t.buf i).lock ≡ slept held
  slept_lem held h =
      acquiresleep_lem t.cpu (t.buf i).lock (ap (λ (c : Buf). c.lock.lk.locked) e ∙ inner)
      ∙ ap slept (ap (λ (c : Buf). c.lock.locked) e ∙ h)

  -- To take a buffer's lock that is held is to wait for ever.
  acquiresleep_buf-held : b.lock.locked ≡ true → acquiresleep_buf i t ≡ hang
  acquiresleep_buf-held h = ap (put_lock i t) (slept_lem true h)

  acquiresleep_buf-free :
      b.lock.locked ≡ false
      → acquiresleep_buf i t
        ≡ ok tt (set_buf i (record b { lock = sleeping true }) (record t { cpu = enabled }))
  acquiresleep_buf-free h =
      ap (put_lock i t) (slept_lem false h)
      ∙ ap
          (λ (c : Buf).
            ok tt (set_buf i (record c { lock = sleeping true }) (record t { cpu = enabled })))
          e

-- The state in which bget holds the spin lock, and that in which it has given it back.
abbrev entered : Machine → Machine
entered s = record s { cpu = record { intr = false }; bcache_lock = record { locked = true } }

abbrev left : Machine → Machine
left s = record s { cpu = enabled; bcache_lock = initlock }

module _ (i : ℕ) (s : Machine) (b : Buf) (inner : b.lock.lk.locked ≡ false) where
  -- The end of both branches of bget: the buffer has been rewritten, and its lock is taken.
  lock_after :
      b.lock.locked ≡ false
      → and_then (acquiresleep_buf i (set_buf i b (left s))) (λ _. pure i)
        ≡ ok i (settle i (record b { lock = sleeping true }) s)
  lock_after h =
      ap (λ (r : Run Machine (Unit {0})). and_then r (λ _. pure i))
        (acquiresleep_buf-free i (set_buf i b (left s)) b (update_self s.buf i b) inner h)
      ∙ ap (λ (f : ℕ → Buf). ok i (record (left s) { buf = f })) (update-update s.buf i b _)

  lock_held :
      b.lock.locked ≡ true
      → and_then (acquiresleep_buf i (set_buf i b (left s))) (λ _. pure i) ≡ hang
  lock_held h =
      ap (λ (r : Run Machine (Unit {0})). and_then r (λ _. pure i))
        (acquiresleep_buf-held i (set_buf i b (left s)) b (update_self s.buf i b) inner h)

bget_recycle_lem :
    (dev blockno i : ℕ) (s : Machine)
    → (s.buf i).lock.lk.locked ≡ false
    → (s.buf i).lock.locked ≡ false
    → bget_recycle dev blockno i (entered s) ≡ ok i (settle i (recycled dev blockno (s.buf i)) s)
unfolding bget_recycle release
bget_recycle_lem dev blockno i s inner unheld =
    lock_after i s
      (record (s.buf i) { dev = dev; blockno = blockno; valid = false; disk = false; refcnt = 1 })
      inner unheld

bget_cached_lem :
    (i : ℕ) (s : Machine)
    → (s.buf i).lock.lk.locked ≡ false
    → IsCounted (s.buf i)
    → bget_cached i (entered s)
      ≡ (if (s.buf i).lock.locked then hang else ok i (settle i (hit (s.buf i)) s))
unfolding bget_cached release
bget_cached_lem i s inner counted =
    let b : Buf = record (s.buf i) { refcnt = ((s.buf i).refcnt + 1) % 2 ^ 32 } in
    elim counted [
      | inl out ↦
          lock_held i s b inner out.0
          ∙ ap (λ (h : Bool). if h then hang else ok i (settle i (hit (s.buf i)) s)) (sym out.0)
      | inr back ↦
          lock_after i s b inner back.0
          ∙ ap
              (λ (n : ℕ).
                ok i (
                  settle i (record (s.buf i) { refcnt = (n + 1) % 2 ^ 32; lock = sleeping true })
                    s))
              back.1
          ∙ ap (λ (h : Bool). if h then hang else ok i (settle i (hit (s.buf i)) s)) (sym back.0)
    ]

pub IsCounted-unused : (b : Buf) → IsCounted b → unused b ≡ true → b.lock.locked ≡ false
IsCounted-unused b c free = ground arith

-- On a well-formed cache that stands for a list of buffers, bget with its two walks along the
-- pointers does what its specification over the list says, in every case: the buffer for the block,
-- or to wait for ever if that is out, else the least recently used buffer that is not out, emptied,
-- else a panic.
pub bget_lem :
    (dev blockno : ℕ) (s : Machine) (order : List ℕ)
    → IsCache s order
    → bget dev blockno s ≡ bget_list dev blockno order s
unfolding bget bget_list
bget_lem dev blockno s order c =
    ap (λ (r : Option (Cpu × Spinlock)). and_then (put_bcache s r) (bget_scan dev blockno))
      (acquire-free s.cpu s.bcache_lock c.lock_free)
    ∙ ap (λ (w : Walk). bget_hit dev blockno w (entered s))
        (walk-next s.buf order c.ring (has_key dev blockno) (nbuf + 1) (omega (arith, c.size)))
    ∙ hits (first (has_key dev blockno) s.buf order) refl
  where
    misses :
        (w : Walk)
        → first unused s.buf (backwards order) ≡ w
        → bget_miss dev blockno w (entered s) ≡ bget_list_miss dev blockno w s
    misses (found i) e =
        let (m, free) = first_sound unused s.buf (backwards order) i e in
        let m' = sym (has-backwards i order) ∙ m in
        bget_recycle_lem dev blockno i s (c.inner_free i m')
          (IsCounted-unused (s.buf i) (c.counted i m') free)
    misses absent e = refl
    misses lost e = refl

    hits :
        (w : Walk)
        → first (has_key dev blockno) s.buf order ≡ w
        → bget_hit dev blockno w (entered s) ≡ bget_list_hit dev blockno order w s
    hits (found i) e =
        let (m, key) = first_sound (has_key dev blockno) s.buf order i e in
        bget_cached_lem i s (c.inner_free i m) (c.counted i m)
    hits absent e =
        ap (λ (w : Walk). bget_miss dev blockno w (entered s))
          (walk-prev s.buf order c.ring unused (nbuf + 1) (omega (arith, c.size)))
        ∙ misses (first unused s.buf (backwards order)) refl
    hits lost e = refl
