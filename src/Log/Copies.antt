-- ===== src/Log/Copies.antt =====
-- copy_to_log, the end of log_write (riscv-os/kernel/log.c): a block is copied into the log.
use os.Common.{
  ℕ, ◌+◌, ◌<◌, ◌≡◌, ◌≢◌, sym, ap, ◌∙◌, subst, true, List, ◌∷◌, update, update_self, update_ne, ◌∈◌,
  has-remove, remove, Run, ok, and_then,
}
use os.Machine.{Machine, Buf, Block, fssize}
use os.Disk.{virtio_disk_rw}
use os.Bio.{brelse}
use os.Bio.Cache.{IsCache}
use os.Bio.Read.{IsReadable, bread-IsRead}
use os.Bio.Release.{unplaced, give_back}
use os.Bio.Write.{fill, written, write_lem, written-IsCache, brelse-held, give_back_ne}
use os.Log.{copy_to_log}

-- The bytes of buffer `i`, which is still out, are now those of block `p` of the disk.
pub record IsCopied (s : Machine) (i p : ℕ) (t : Machine) (order : List ℕ) : Type 0 where
  pub cache : IsCache t order
  pub mem : i ∈ order
  pub ramdisk : t.ramdisk ≡ update s.ramdisk p (s.buf i).bytes
  pub log : t.log ≡ s.log
  pub source : unplaced (t.buf i) ≡ unplaced (s.buf i)

pub copy_to_log-IsCopied :
    (k i : ℕ) (s : Machine) (order : List ℕ)
    → IsCache s order
    → i ∈ order
    → (s.buf i).lock.locked ≡ true
    → IsReadable s order s.log.dev (s.log.start + 1 + k)
    → (t : Machine) × (after : List ℕ) × (copy_to_log k i s ≡ ok tt t)
      × IsCopied s i (s.log.start + 1 + k) t after
unfolding copy_to_log
copy_to_log-IsCopied k i s order c m held r =
    let dev = s.log.dev in
    let p = s.log.start + 1 + k in
    let (lb, t1, run, rd) = bread-IsRead dev p s order c r in
    let ne : i ≢ lb = λ e. cc (held, rd.was_back, e) in
    let same : t1.buf i ≡ s.buf i = rd.others i ne in
    let v = (t1.buf i).bytes in
    let t2 = written lb v t1 in
    let at2 : t2.buf lb ≡ record (t1.buf lb) { bytes = v } =
      update_self t1.buf lb (record (t1.buf lb) { bytes = v }) in
    let used : (t1.buf lb).dev ≢ 0 = λ z. r.used (sym rd.dev_eq ∙ z) in
    let inside = subst (λ n. n < fssize) (sym rd.blockno_eq) r.inside in
    let (run3, c3) =
      brelse-held lb t2 order (written-IsCache lb v t1 order rd.cache rd.mem used) rd.mem
        (λ z. used (sym (ap (λ (b : Buf). b.dev) at2) ∙ z))
        (ap (λ (b : Buf). b.lock.locked) at2 ∙ rd.held) in
    let rest : ℕ → Machine → Run Machine (Unit {0}) =
      λ l t. and_then (virtio_disk_rw l true (fill l (t.buf i).bytes t)) (λ _. brelse l) in
    (
      give_back lb t2,
      lb ∷ remove lb order,
      ap (λ (x : Run Machine ℕ). and_then x rest) run
          ∙ ap (λ (x : Run Machine (Unit {0})). and_then x (λ _. brelse lb))
              (write_lem lb v t1 inside)
          ∙ run3,
      record {
        cache = c3;
        mem = has-remove lb i order rd.mem ∙ m;
        ramdisk =
            ap (λ (d : ℕ → Block). update d (t1.buf lb).blockno v) rd.ramdisk
            ∙ ap (λ (n : ℕ). update s.ramdisk n v) rd.blockno_eq
            ∙ ap (λ (b : Buf). update s.ramdisk p b.bytes) same;
        log = rd.log;
        source =
            give_back_ne lb i t2 ne
            ∙ ap unplaced (update_ne t1.buf lb i (record (t1.buf lb) { bytes = v }) ne ∙ same);
      },
    )
