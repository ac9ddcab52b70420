-- ===== src/Disk/Transfer.antt =====
-- The transfers of virtio_disk.c on a block that the disk has.
use os.Common.{
  ℕ, ◌+◌, ◌%◌, ◌^◌, ◌≤◌, ◌<◌, ◌≡◌, ap, ◌∙◌, Bool, true, false, arith, leb, update, ok, panic,
}
use os.Machine.{Machine, Buf, fssize, set_buf}
use os.Disk.{virtio_disk_rw}

lt→leb : (a b : ℕ) → b < a → leb a b ≡ false
lt→leb a b h = ground arith

le→leb : (a b : ℕ) → a ≤ b → leb a b ≡ true
le→leb a b h = ground arith

module _ (i : ℕ) (t : Machine) (b : Buf) (e : t.buf i ≡ b) where
  inside : b.blockno < fssize → leb fssize (t.buf i).blockno ≡ false
  inside h = ap (λ (c : Buf). leb fssize c.blockno) e ∙ lt→leb fssize b.blockno h

  -- Reading fills the buffer from the disk.
  pub virtio_disk_rw-read :
      b.blockno < fssize
      → virtio_disk_rw i false t
        ≡ ok tt (
            set_buf i
              (record b { bytes = t.ramdisk b.blockno })
              (record t { disk_read_count = (t.disk_read_count + 1) % 2 ^ 64 }))
  unfolding virtio_disk_rw
  virtio_disk_rw-read h = rw (inside h) (
      ap
        (λ (c : Buf). ok tt (
          set_buf i (record c { bytes = t.ramdisk c.blockno })
            (record t { disk_read_count = (t.disk_read_count + 1) % 2 ^ 64 })))
        e)

  -- Writing puts the buffer on the disk.
  pub virtio_disk_rw-write :
      b.blockno < fssize
      → virtio_disk_rw i true t
        ≡ ok tt (record t {
          disk_write_count = (t.disk_write_count + 1) % 2 ^ 64;
          ramdisk = update t.ramdisk b.blockno b.bytes;
        })
  unfolding virtio_disk_rw
  virtio_disk_rw-write h = rw (inside h) (
      ap
        (λ (c : Buf). ok tt (record t {
          disk_write_count = (t.disk_write_count + 1) % 2 ^ 64;
          ramdisk = update t.ramdisk c.blockno c.bytes;
        }))
        e)

  -- Either way a block that the disk lacks is a panic.
  pub virtio_disk_rw-outside :
      (write : Bool)
      → fssize ≤ b.blockno
      → virtio_disk_rw i write t ≡ panic "virtio_disk_rw: blockno out of range"
  unfolding virtio_disk_rw
  virtio_disk_rw-outside true h =
      rw (ap (λ (c : Buf). leb fssize c.blockno) e ∙ le→leb fssize b.blockno h)
  virtio_disk_rw-outside false h =
      rw (ap (λ (c : Buf). leb fssize c.blockno) e ∙ le→leb fssize b.blockno h)
