-- ===== src/Store/Writes.antt =====
-- Editing a buffer, bwrite and brelse (riscv-os/kernel/bio.c) outside a transaction.
use os.Common.{
  ℕ, ◌+◌, ◌%◌, ◌^◌, ◌<◌, ◌≡◌, ◌≢◌, inl, inr, refl, sym, ap, ◌∙◌, subst, arith, Bool, true, false,
  List, ◌∷◌, ◌==◌, ==→eq, ==→ne, lt→ltb, not, if◌then◌else◌, ◌∈◌, has, remove, length-remove,
  has-remove, ne_of_Out, Bool-cases, update, update_self, update_ne, update-update, Option, some,
  Run, ok, and_then, fail,
}
use os.Lock.{Cpu, Sleeplock, sleeping}
use os.Lock.Waits.{enabled, holdingsleep_lem}
use os.Machine.{Machine, Buf, Block, Log, fssize, set_buf, put_held}
use os.Disk.{virtio_disk_rw}
use os.Disk.Transfer.{virtio_disk_rw-write}
use os.Bio.{brelse}
use os.Bio.Buffers.{IsBuffers, update-IsBuffers, sole_of_unique, IsCounted}
use os.Bio.Cache.{IsCache}
use os.Bio.Release.{unplaced, give_back}
use os.Bio.Write.{fill, brelse-held, give_back_self, give_back_ne}
use os.Log.{bwrite, log_write}
use os.Store.{IsHeld, IsBack, IsOpen, IsHeld-same, IsBack-same}

-- A step that changes the flag, the bytes or the lock of a buffer that is out, and on the disk only
-- the block of that buffer.
module _ (i : ℕ) (d : Bool) (v : Block) (l : Sleeplock) (s t : Machine) (out : List ℕ) (m : i ∈ out)
    (o : IsOpen s out) (inner : l.lk.locked ≡ false) (locked : l.locked ≡ true)
    (e : t.buf ≡ update s.buf i (record (s.buf i) { disk = d; bytes = v; lock = l }))
    (lock_free : t.bcache_lock.locked ≡ false) (log : t.log ≡ s.log)
    (disk : (b : ℕ) → b ≢ (s.buf i).blockno → t.ramdisk b ≡ s.ramdisk b) where
  changed : Buf
  changed = record (s.buf i) { disk = d; bytes = v; lock = l }

  here : t.buf i ≡ record (s.buf i) { disk = d; bytes = v; lock = l }
  here =
      ap (λ (f : ℕ → Buf). f i) e
      ∙ update_self s.buf i (record (s.buf i) { disk = d; bytes = v; lock = l })

  there : (j : ℕ) → j ≢ i → t.buf j ≡ s.buf j
  there j ne =
      ap (λ (f : ℕ → Buf). f j) e
      ∙ update_ne s.buf i j (record (s.buf i) { disk = d; bytes = v; lock = l }) ne

  used_here : (s.buf i).dev ≢ 0
  used_here z = o.used (sym (o.held i m).dev_eq ∙ z)

  changed-IsCache : IsCache t o.order
  changed-IsCache = record {
    lock_free = lock_free;
    bufs =
        subst (λ f. IsBuffers f o.order) (sym e)
          (update-IsBuffers s.buf o.order i (record (s.buf i) { disk = d; bytes = v; lock = l })
            o.cache.bufs
            (record {
              next = refl;
              prev = refl;
              inner = inner;
              count = still_out (o.cache.counted i (o.held i m).mem) (o.held i m).locked;
              sole = sole_of_unique s.buf o.order i o.cache.bufs (o.held i m).mem used_here;
            }));
  }
    where
      still_out :
          IsCounted (s.buf i)
          → (s.buf i).lock.locked ≡ true
          → IsCounted (record (s.buf i) { disk = d; bytes = v; lock = l })
      still_out (inl (a, b)) h = inl (locked, b)
      still_out (inr (a, b)) h = absurd (cc (a, h))

  changed-IsOpen : IsOpen t out
  changed-IsOpen = record {
    order = o.order;
    cache = changed-IsCache;
    all = o.all;
    used = subst (λ (k : Log). k.dev ≢ 0) (sym log) o.used;
    plain = ap (λ (k : Log). k.outstanding) log ∙ o.plain;
    distinct = o.distinct;
    held = λ j n. elim (Bool-cases (j == i)) [
      | inl same ↦
          (let eq : i ≡ j = sym (==→eq j i same) in
            subst (IsHeld t o.order) eq (
              let h = o.held i m in
              record {
                mem = h.mem;
                locked = ap (λ (c : Buf). c.lock.locked) here ∙ locked;
                dev_eq =
                    ap (λ (c : Buf). c.dev) here ∙ h.dev_eq ∙ sym (ap (λ (k : Log). k.dev) log);
                inside = subst (λ (c : Buf). c.blockno < fssize) (sym here) h.inside;
              }))
      | inr other ↦
          IsHeld-same s t o.order o.order j (o.held j n) refl
            (ap unplaced (there j (==→ne j i other))) log
    ];
    back = λ j n free.
        let ne : j ≢ i = λ eq. cc (m, free, ap (λ k. has k out) eq) in
        IsBack-same s t j (o.back j n free) (ap unplaced (there j ne)) log (λ dev.
          disk (s.buf j).blockno (λ same. ne (
            o.cache.unique j i n (o.held i m).mem (λ z. o.used (sym dev ∙ z))
              (dev ∙ sym (o.held i m).dev_eq) same)));
  }

-- Editing a buffer that is out.
pub fill-IsOpen :
    (i : ℕ) (v : Block) (s : Machine) (out : List ℕ)
    → i ∈ out
    → IsOpen s out
    → IsOpen (fill i v s) out
fill-IsOpen i v s out m o =
    changed-IsOpen i (s.buf i).disk v (s.buf i).lock s (fill i v s) out m o
      (o.cache.inner_free i (o.held i m).mem) (o.held i m).locked refl o.cache.lock_free refl
      (λ b ne. refl)

-- The state when a buffer that is out has been written.
abbrev pub put : ℕ → Machine → Machine
put i s = record s {
  cpu = enabled;
  disk_write_count = (s.disk_write_count + 1) % 2 ^ 64;
  buf = update s.buf i (record (s.buf i) { disk = true; lock = sleeping true });
  ramdisk = update s.ramdisk (s.buf i).blockno (s.buf i).bytes;
}

log_write-plain :
    (i : ℕ) (s : Machine) → s.log.outstanding ≡ 0 → log_write i s ≡ virtio_disk_rw i true s
unfolding log_write
log_write-plain i s plain = rw (lt→ltb s.log.outstanding 1 (omega arith))

-- bwrite on a buffer that is out and outside a transaction writes through.
bwrite-held :
    (i : ℕ) (s : Machine)
    → (s.buf i).lock.lk.locked ≡ false
    → (s.buf i).lock.locked ≡ true
    → s.log.outstanding ≡ 0
    → (s.buf i).blockno < fssize
    → bwrite i s ≡ ok tt (put i s)
unfolding bwrite
bwrite-held i s inner held plain inside =
    ap (λ (r : Option (Bool × Cpu × Sleeplock)). and_then (put_held i s r) write)
      (holdingsleep_lem s.cpu (s.buf i).lock inner
        ∙ ap (λ (h : Bool). some (h, enabled, sleeping h)) held)
    ∙ ap (λ (f : ℕ → Buf). log_write i (record s { cpu = enabled; buf = f })) bufs
    ∙ log_write-plain i s2 plain
    ∙ virtio_disk_rw-write i s2 b2 (update_self s.buf i b2) inside
  where
    b1 : Buf
    b1 = record (s.buf i) { lock = sleeping true }

    b2 : Buf
    b2 = record (s.buf i) { disk = true; lock = sleeping true }

    s1 : Machine
    s1 = record s { cpu = enabled; buf = update s.buf i b1 }

    s2 : Machine
    s2 = record s { cpu = enabled; buf = update s.buf i b2 }

    write : Bool → Machine → Run Machine (Unit {0})
    write h = if not h then fail "bwrite: buf not locked" else λ u.
        log_write i (set_buf i (record (u.buf i) { disk = true }) u)

    bufs : update s1.buf i (record (s1.buf i) { disk = true }) ≡ update s.buf i b2
    bufs =
        ap (λ (c : Buf). update s1.buf i (record c { disk = true })) (update_self s.buf i b1)
        ∙ update-update s.buf i b1 b2

pub bwrite-IsOpen :
    (i : ℕ) (s : Machine) (out : List ℕ)
    → i ∈ out
    → IsOpen s out
    → (bwrite i s ≡ ok tt (put i s)) × IsOpen (put i s) out
bwrite-IsOpen i s out m o = (
  bwrite-held i s (o.cache.inner_free i (o.held i m).mem) (o.held i m).locked o.plain
      (o.held i m).inside,
  changed-IsOpen i true (s.buf i).bytes (sleeping true) s (put i s) out m o refl refl refl
      o.cache.lock_free refl (λ b ne. update_ne s.ramdisk (s.buf i).blockno b (s.buf i).bytes ne),
)

-- Giving back the buffer that was last taken out, when it agrees with the disk.
pub brelse-IsOpen :
    (i : ℕ) (s : Machine) (out : List ℕ)
    → IsOpen s (i ∷ out)
    → (s.buf i).bytes ≡ s.ramdisk (s.buf i).blockno
    → (brelse i s ≡ ok tt (give_back i s)) × IsOpen (give_back i s) out
brelse-IsOpen i s out o agrees =
    let h = o.held i (ground arith) in
    let (run, c) =
      brelse-held i s o.order o.cache h.mem (λ z. o.used (sym h.dev_eq ∙ z)) h.locked in
    (
      run,
      record {
        order = i ∷ remove i o.order;
        cache = c;
        all = length-remove i o.order h.mem ∙ o.all;
        used = o.used;
        plain = o.plain;
        distinct = o.distinct.1;
        held = λ j m.
            let ne : j ≢ i = λ e. ne_of_Out i j out o.distinct.0 m (sym e) in
            IsHeld-same s (give_back i s) o.order (i ∷ remove i o.order) j (o.held j (ground arith))
              (has-remove i j o.order h.mem) (give_back_ne i j s ne) refl;
        back = λ j m free. elim (Bool-cases (j == i)) [
          | inl same ↦
              (let e : i ≡ j = sym (==→eq j i same) in
                subst (IsBack (give_back i s)) e (
                  let d = give_back_self i s in
                  record {
                    unlocked = ap (λ (b : Buf). b.lock.locked) d;
                    synced = λ _ _.
                        ap (λ (b : Buf). b.bytes) d
                        ∙ agrees
                        ∙ ap (λ (b : Buf). s.ramdisk b.blockno) (sym d);
                  }))
          | inr other ↦
              IsBack-same s (give_back i s) j
                (o.back j (sym (has-remove i j o.order h.mem) ∙ m) (ground arith))
                (give_back_ne i j s (==→ne j i other)) refl (λ d. refl)
        ];
      },
    )
