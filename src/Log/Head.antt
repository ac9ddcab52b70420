-- ===== src/Log/Head.antt =====
-- write_head and read_head through the buffer cache.
use os.Common.{
  ℕ, ◌<◌, ◌≡◌, ◌≢◌, sym, ap, ◌∙◌, subst, true, List, ◌∷◌, arith, ◌==◌, ==→ne, Bool-cases, inl, inr,
  update, update_self, has-remove, length-remove, remove, Run, ok, and_then,
}
use os.Machine.{Machine, Buf, Block, Log, fssize}
use os.Disk.{virtio_disk_rw}
use os.Bio.{brelse}
use os.Bio.Cache.{IsCache}
use os.Bio.Read.{content, IsRead, bread-IsRead}
use os.Bio.Release.{give_back}
use os.Bio.Write.{fill, written, write_lem, written-IsCache, brelse-held}
use os.Bio.Synced.{
  IsIdle, IsRead-IsSynced, written-IsSynced, give_back-IsSynced, give_back-locked,
  IsIdle-IsReadable,
}
use os.Log.{write_head, store_head}
use os.Log.Install.{IsQuiet, IsInstalled}

-- One buffer `i`, out for the block `p`, is filled, written and given back.
module _ (s t : Machine) (order : List ℕ) (p i : ℕ) (v : Block) (q : IsQuiet s order)
    (p_in : p < fssize) (r : IsRead s order s.log.dev p i t) where
  used_buf : (t.buf i).dev ≢ 0
  used_buf z = q.used (sym r.dev_eq ∙ z)

  at_buf : (written i v t).buf i ≡ record (t.buf i) { bytes = v }
  at_buf = update_self t.buf i (record (t.buf i) { bytes = v })

  release_buf :
      (brelse i (written i v t) ≡ ok tt (give_back i (written i v t)))
      × IsCache (give_back i (written i v t)) (i ∷ remove i order)
  release_buf =
      brelse-held i (written i v t) order (written-IsCache i v t order r.cache r.mem used_buf) r.mem
        (λ z. used_buf (sym (ap (λ (b : Buf). b.dev) at_buf) ∙ z))
        (ap (λ (b : Buf). b.lock.locked) at_buf ∙ r.held)

  flush_run :
      and_then (virtio_disk_rw i true (fill i v t)) (λ _. brelse i)
      ≡ ok tt (give_back i (written i v t))
  flush_run =
      ap (λ (x : Run Machine (Unit {0})). and_then x (λ _. brelse i))
        (write_lem i v t (subst (λ n. n < fssize) (sym r.blockno_eq) p_in))
      ∙ release_buf.0

  IsIdle-buf : IsIdle (give_back i (written i v t)) (i ∷ remove i order)
  IsIdle-buf j m = give_back-locked i j (written i v t) ∙ (elim (Bool-cases (j == i)) [
    | inl same ↦ rw same
    | inr other ↦ rw other (
        ap (λ (b : Buf). b.lock.locked) (r.others j (==→ne j i other))
        ∙ q.idle j (sym (has-remove i j order r.mem) ∙ m))
  ])

  flush_IsInstalled : IsInstalled s order p v (give_back i (written i v t)) (i ∷ remove i order)
  flush_IsInstalled = record {
    quiet = record {
      cache = release_buf.1;
      idle = IsIdle-buf;
      two = omega (arith, length-remove i order r.mem, q.two);
      used = subst (λ (l : Log). l.dev ≢ 0) (sym r.log) q.used;
    };
    ramdisk =
        ap (λ (d : ℕ → Block). update d (t.buf i).blockno v) r.ramdisk
        ∙ ap (λ (n : ℕ). update s.ramdisk n v) r.blockno_eq;
    log = r.log;
    synced = λ b y. give_back-IsSynced i (written i v t) order s.log.dev b r.mem (
        written-IsSynced i v t order s.log.dev b r.cache r.mem q.used r.dev_eq
          λ ne. IsRead-IsSynced s t order s.log.dev p i b r (y (λ e. ne (e ∙ sym r.blockno_eq))));
  }

-- write_head puts the header of memory on the disk, over what the block held.
pub write_head-IsInstalled :
    (s : Machine) (order : List ℕ)
    → IsQuiet s order
    → s.log.start < fssize
    → (t : Machine) × (after : List ℕ) × (write_head s ≡ ok tt t)
      × IsInstalled s order s.log.start
          (store_head s.log.lh (content order s.log.dev s.log.start s))
          t
          after
unfolding write_head
write_head-IsInstalled s order q h =
    let dev = s.log.dev in
    let p = s.log.start in
    let (i, t, run, r) =
      bread-IsRead dev p s order q.cache
        (IsIdle-IsReadable s order dev p q.cache q.idle q.two q.used h) in
    let v = store_head t.log.lh (t.buf i).bytes in
    let v_eq : v ≡ store_head s.log.lh (content order dev p s) =
      ap (λ (l : Log). store_head l.lh (t.buf i).bytes) r.log ∙ ap (store_head s.log.lh) r.bytes in
    let rest : ℕ → Machine → Run Machine (Unit {0}) = λ j u.
      and_then (virtio_disk_rw j true (fill j (store_head u.log.lh (u.buf j).bytes) u))
        (λ _. brelse j) in
    (
      give_back i (written i v t),
      i ∷ remove i order,
      ap (λ (x : Run Machine ℕ). and_then x rest) run ∙ flush_run s t order p i v q h r,
      subst (λ w. IsInstalled s order p w (give_back i (written i v t)) (i ∷ remove i order)) v_eq
          (flush_IsInstalled s t order p i v q h r),
    )
