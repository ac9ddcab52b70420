-- ===== src/Bio/Fill.antt =====
-- The second half of bread (riscv-os/kernel/bio.c): a buffer that is not valid is read.
use os.Common.{
  ℕ, ◌+◌, ◌%◌, ◌^◌, ◌<◌, ◌≡◌, ap, ◌∙◌, true, false, update, update_self, update-update, Run, ok,
  and_then,
}
use os.Machine.{Machine, Buf, fssize, set_buf}
use os.Disk.Transfer.{virtio_disk_rw-read}
use os.Bio.{bread_fill}

pub fill-valid :
    (i : ℕ) (t : Machine)
    → (t.buf i).valid ≡ true
    → bread_fill i t ≡ ok i (record t { buffer_cache_hits = (t.buffer_cache_hits + 1) % 2 ^ 64 })
unfolding bread_fill
fill-valid i t h = rw h

-- The state after a block has been read from the disk.
abbrev pub filled : ℕ → Buf → Machine → Machine
filled i b t = record t {
  buffer_cache_misses = (t.buffer_cache_misses + 1) % 2 ^ 64;
  disk_read_count = (t.disk_read_count + 1) % 2 ^ 64;
  buf = update t.buf i (record b { bytes = t.ramdisk b.blockno; valid = true });
}

pub fill-miss :
    (i : ℕ) (t : Machine) (b : Buf)
    → t.buf i ≡ b
    → b.valid ≡ false
    → b.blockno < fssize
    → bread_fill i t ≡ ok i (filled i b t)
unfolding bread_fill
fill-miss i t b e invalid h = rw (ap (λ (c : Buf). c.valid) e ∙ invalid) (
    ap
      (λ (r : Run Machine (Unit {0})).
        and_then r (λ _ u. ok i (set_buf i (record (u.buf i) { valid = true }) u)))
      (virtio_disk_rw-read i
        (record t { buffer_cache_misses = (t.buffer_cache_misses + 1) % 2 ^ 64 }) b e h)
    ∙ ap
        (λ (c : Buf). ok i (record (filled i b t) {
          buf = update (update t.buf i b1) i (record c { valid = true });
        }))
        (update_self t.buf i b1)
    ∙ ap (λ (f : ℕ → Buf). ok i (record (filled i b t) { buf = f }))
        (update-update t.buf i b1 (record b1 { valid = true })))
  where
    b1 : Buf
    b1 = record b { bytes = t.ramdisk b.blockno }
