-- ===== src/FsDebug/Counts.antt =====
-- The counts of riscv-os/kernel/fs_debug.c.
use os.Common.{
  ℕ, zero, suc, ◌+◌, ◌-◌, ◌%◌, ◌^◌, ◌<◌, ◌≤◌, ◌≡◌, refl, sym, ap, subst, arith, Bool, true, false,
  if◌then◌else◌, ltb, ◌==◌, [], ok,
}
use os.Machine.{Machine, Block, Superblock}
use os.Fs.Bitmap.{clear}
use os.Fs.Directories.{rootdev}
use os.Store.{IsOpen}
use os.Store.Blocks.{is_free}
use os.Store.Updates.{IsDone}
use os.FsDebug.{calc_datastart, count_blocks_loop, count_free_blocks, bitmap_isset}
use os.FsDebug.Looks.{IsMarked, IsView, Looks, Looks-nothing, Looks-then, bitmap_isset-Looks}

-- How many of `n` numbers from `i` on pass a test.
abbrev pub count : (ℕ → Bool) → ℕ → ℕ → ℕ
count test zero i = 0
count test (suc n) i = (if test i then 1 else 0) + count test n (i + 1)

abbrev free_in : (ℕ → Block) → Superblock → ℕ → Bool
free_in d sb j = clear (d sb.bmapstart) j

-- One more if the bit is clear.
abbrev more_of : Bool → ℕ
more_of b = if b then 1 else 0

tally :
    (b : Bool) (free : ℕ)
    → free + 1 < 2 ^ 32
    → (if (if b then 0 else 1) == 0 then (free + 1) % 2 ^ 32 else free) ≡ more_of b + free
tally true free h = omega arith
tally false free h = omega arith

module _ (d : ℕ → Block) (sb : Superblock) (mark : IsMarked sb) where
  count_blocks_loop-Looks :
      (rounds n bno free dev : ℕ) (s : Machine)
      → IsView d sb dev [] s
      → sb.size - bno ≡ n
      → n < rounds
      → free + n < 2 ^ 32
      → bno < 2 ^ 32
      → Looks (count_blocks_loop rounds dev bno free) d [] s (free + count (free_in d sb) n bno)
  unfolding count_blocks_loop
  count_blocks_loop-Looks zero n bno free dev s h e fuel small word = absurd (omega arith)
  count_blocks_loop-Looks (suc rounds) zero bno free dev s h e fuel small word =
      let size : s.sb.size ≡ sb.size = ap (λ (x : Superblock). x.size) h.sb_eq in
      let out : ltb bno s.sb.size ≡ false = ground (arith, size) in
      let end : free + 0 ≡ free = omega arith in rw (out, end) (Looks-nothing d sb dev [] s free h)
  count_blocks_loop-Looks (suc rounds) (suc n) bno free dev s h e fuel small word =
      let low : bno < sb.size = omega arith in
      let size : s.sb.size ≡ sb.size = ap (λ (x : Superblock). x.size) h.sb_eq in
      let more : ltb bno s.sb.size ≡ true = ground (arith, size) in
      let next : (bno + 1) % 2 ^ 32 ≡ bno + 1 = omega (arith, mark.size) in
      let b = free_in d sb bno in
      let step : (if (if b then 0 else 1) == 0 then (free + 1) % 2 ^ 32 else free)
          ≡ more_of b + free =
        tally b free (omega arith) in
      let bound : more_of b ≤ 1 = ground arith in
      let sum : more_of b + free + count (free_in d sb) n (bno + 1)
          ≡ free + (more_of b + count (free_in d sb) n (bno + 1)) =
        omega arith in
      rw more (
        Looks-then d sb dev (bitmap_isset dev bno)
          (λ set.
            count_blocks_loop rounds dev ((bno + 1) % 2 ^ 32)
              (if set == 0 then (free + 1) % 2 ^ 32 else free))
          [] s (if b then 0 else 1) (free + (more_of b + count (free_in d sb) n (bno + 1))) h
          (bitmap_isset-Looks d sb dev [] s bno mark h low (omega arith))
          (λ t v.
            rw (next, step, sym sum)
              (count_blocks_loop-Looks rounds n (bno + 1) (more_of b + free) dev t v (omega arith)
                (omega arith) (omega arith) (omega (arith, mark.size)))))

-- Outside a transaction, with no buffer out, on a file system of at most 1024 blocks with one
-- bitmap block: count_free_blocks returns how many blocks behind the metadata the bitmap has as
-- free, and leaves the disk as it is.
pub count_free_blocks-count :
    (s : Machine)
    → IsOpen s []
    → IsMarked s.sb
    → s.log.dev ≡ rootdev
    → (t : Machine) × (count_free_blocks s
        ≡ ok (count (is_free s) (s.sb.size - calc_datastart s.sb) (calc_datastart s.sb)) t)
      × IsDone s [] s.ramdisk t
unfolding count_free_blocks
count_free_blocks-count s o mark dev_eq =
    let n = count (is_free s) (s.sb.size - calc_datastart s.sb) (calc_datastart s.sb) in
    let all : 0 + n ≡ n = omega arith in
    subst (λ m. (t : Machine) × (count_free_blocks s ≡ ok m t) × IsDone s [] s.ramdisk t) all
      (count_blocks_loop-Looks s.ramdisk s.sb mark (suc s.sb.size) (s.sb.size - calc_datastart s.sb)
        (calc_datastart s.sb) 0 rootdev s
        (record {
          is_open = o;
          ramdisk = refl;
          sb_eq = refl;
          dev_eq = dev_eq;
          same = λ j m. cc;
          apart = λ j m. cc;
        })
        refl (omega arith) (omega (arith, mark.size)) (omega arith))
