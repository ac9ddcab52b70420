-- ===== src/Bio/Write.antt =====
-- Filling a buffer that is out and putting it on the disk.
use os.Common.{
  ℕ, ◌+◌, ◌%◌, ◌^◌, ◌<◌, ◌≡◌, ◌≢◌, refl, ap, ◌∙◌, true, List, ◌∷◌, update, update_self, update_ne,
  ◌∈◌, remove, ok,
}
use os.Machine.{Machine, Block, fssize, set_buf}
use os.Disk.{virtio_disk_rw}
use os.Disk.Transfer.{virtio_disk_rw-write}
use os.Bio.{brelse}
use os.Bio.Buffers.{update-IsBuffers, sole_of_unique}
use os.Bio.Cache.{IsCache}
use os.Bio.Release.{unplaced, moved-data, give_back, released, brelse_list, brelse-IsCache}

abbrev pub fill : ℕ → Block → Machine → Machine
fill i v t = set_buf i (record (t.buf i) { bytes = v }) t

-- The buffer holds `v`, and so does its block on the disk.
abbrev pub written : ℕ → Block → Machine → Machine
written i v t = record (fill i v t) {
  disk_write_count = (t.disk_write_count + 1) % 2 ^ 64;
  ramdisk = update t.ramdisk (t.buf i).blockno v;
}

module _ (i : ℕ) (v : Block) (t : Machine) where
  pub write_lem :
      (t.buf i).blockno < fssize → virtio_disk_rw i true (fill i v t) ≡ ok tt (written i v t)
  write_lem h =
      virtio_disk_rw-write i (fill i v t) (record (t.buf i) { bytes = v })
        (update_self t.buf i (record (t.buf i) { bytes = v })) h

  pub written-IsCache :
      (order : List ℕ)
      → IsCache t order
      → i ∈ order
      → (t.buf i).dev ≢ 0
      → IsCache (written i v t) order
  written-IsCache order c m used = record {
    lock_free = c.lock_free;
    bufs =
        update-IsBuffers t.buf order i (record (t.buf i) { bytes = v }) c.bufs
          (record {
            next = refl;
            prev = refl;
            inner = c.inner_free i m;
            count = c.counted i m;
            sole = sole_of_unique t.buf order i c.bufs m used;
          });
  }

-- A buffer that is out can be given back.
pub brelse-held :
    (i : ℕ) (t : Machine) (order : List ℕ)
    → IsCache t order
    → i ∈ order
    → (t.buf i).dev ≢ 0
    → (t.buf i).lock.locked ≡ true
    → (brelse i t ≡ ok tt (give_back i t)) × IsCache (give_back i t) (i ∷ remove i order)
brelse-held i t order c m used held =
    let (run, c') = brelse-IsCache i t order c m used in
    (run ∙ ap (λ h. brelse_list i h t) held, c')

-- Giving a buffer back changes its state only.
pub give_back_self :
    (i : ℕ) (t : Machine) → unplaced ((give_back i t).buf i) ≡ unplaced (released (t.buf i))
give_back_self i t =
    moved-data i (update t.buf i (released (t.buf i))) i
    ∙ ap unplaced (update_self t.buf i (released (t.buf i)))

pub give_back_ne :
    (i j : ℕ) (t : Machine) → j ≢ i → unplaced ((give_back i t).buf j) ≡ unplaced (t.buf j)
give_back_ne i j t ne =
    moved-data i (update t.buf i (released (t.buf i))) j
    ∙ ap unplaced (update_ne t.buf i j (released (t.buf i)) ne)
