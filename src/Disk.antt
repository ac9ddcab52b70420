-- ===== src/Disk.antt =====
-- The RAM disk (riscv-os/kernel/virtio_disk.c).
pub mod Transfer
use os.Common.{
  ℕ, zero, suc, ◌+◌, ◌-◌, ◌/◌, ◌%◌, ◌^◌, Bool, true, false, if◌then◌else◌, leb, update, M, pure,
  get, modify, fail, ◌>>=◌, ◌>>◌,
}
use os.Machine.{Machine, Buf, Block, fssize, set_buf}

-- The transfer moves all bsize bytes between two arrays that do not overlap: an assignment.
unfoldable pub virtio_disk_rw : ℕ → Bool → M Machine (Unit {0})
virtio_disk_rw i write = do
  modify (λ s.
      if write
      then record s { disk_write_count = (s.disk_write_count + 1) % 2 ^ 64 }
      else record s { disk_read_count = (s.disk_read_count + 1) % 2 ^ 64 })
  s ← get
  let b = s.buf i
  if leb fssize b.blockno
      then fail "virtio_disk_rw: blockno out of range"
      else if write
      then modify (λ t. record t { ramdisk = update t.ramdisk b.blockno b.bytes })
      else modify (set_buf i (record b { bytes = s.ramdisk b.blockno }))
