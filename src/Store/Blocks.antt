-- ===== src/Store/Blocks.antt =====
-- balloc, bfree and bzero (riscv-os/kernel/fs.c) outside a transaction, over the set of free blocks
-- that the bitmap stands for.
use os.Common.{
  ℕ, suc, ◌+◌, ◌/◌, ◌%◌, ◌^◌, ◌≤◌, ◌<◌, ◌≡◌, ◌≢◌, ◌⊎◌, inl, inr, sym, ap, ◌∙◌, subst, arith, Bool,
  true, false, ltb, Bool-cases, List, ◌∈◌, length, update, Option, none, some, Lowest, hit, miss,
  Run, ok, panic, and_then, le→ltb,
}
use os.Machine.{Machine, Buf, Block, Log, Superblock, Above, bsize, nbuf, fssize}
use os.Bytes.{clear_bytes}
use os.Fs.Bitmap.{
  bpb, bblock, clear, set_bit, clear_bit, find_clear, bzero, balloc_found, balloc_loop, balloc,
  bfree,
}
use os.Fs.Bits.{Found, first, full, find_clear-Found}
use os.Bio.{bread}
use os.Store.{IsOpen}
use os.Store.Sessions.{IsOpened, IsApart, bread-IsOpened}
use os.Store.Updates.{IsDone, IsDone-then, give_up_opened, flush_opened, rewrite-IsDone}

-- The bitmap of a disk of one bitmap block.
abbrev pub bits : Machine → Block
bits s = s.ramdisk s.sb.bmapstart

abbrev pub is_free : Machine → ℕ → Bool
is_free s b = clear (bits s) b

-- The bitmap is on the disk, has bytes, and marks its own block.
pub record IsBitmap (s : Machine) : Type 0 where
  pub size : s.sb.size ≤ fssize
  pub inside : s.sb.bmapstart < fssize
  pub own : is_free s s.sb.bmapstart ≡ false
  pub bytes : (i : ℕ) → bits s i < 256

pub bzero-IsDone :
    (s : Machine) (out : List ℕ) (dev b : ℕ)
    → IsOpen s out
    → dev ≡ s.log.dev
    → b < fssize
    → IsApart s out b
    → length out < nbuf
    → (t : Machine) × (bzero dev b s ≡ ok tt t)
      × IsDone s out (update s.ramdisk b (clear_bytes (s.ramdisk b) 0 bsize)) t
unfolding bzero
bzero-IsDone s out dev b = rewrite-IsDone s out dev b (λ v. clear_bytes v 0 bsize)

-- The disk with `b` marked as free.
abbrev pub freed : Machine → ℕ → ℕ → Block
freed s b = update s.ramdisk s.sb.bmapstart (clear_bit (bits s) b)

-- bfree of a block of the disk panics if the block is free already, and marks it as free if not.
pub bfree-IsDone :
    (s : Machine) (out : List ℕ) (dev b : ℕ)
    → IsOpen s out
    → IsBitmap s
    → dev ≡ s.log.dev
    → b < fssize
    → IsApart s out s.sb.bmapstart
    → length out < nbuf
    → ((is_free s b ≡ true) × (bfree dev b s ≡ panic "bfree: block not allocated"))
      ⊎ ((is_free s b ≡ false)
          × (t : Machine) × (bfree dev b s ≡ ok tt t)
          × IsDone s out (freed s b) t)
unfolding bfree
bfree-IsDone s out dev b o m dev_eq b_in apart room =
    let place : bblock b s.sb ≡ s.sb.bmapstart = omega arith in
    let bit : b % bpb ≡ b = omega arith in
    let (i, t, run, r) = bread-IsOpened s out s.sb.bmapstart o m.inside apart room in
    let read : (t.buf i).bytes ≡ bits s = r.bytes in
    elim (Bool-cases (is_free s b)) [
      | inl free ↦ inl (free, rw (dev_eq, place, run) (rw (bit, read, free)))
      | inr used ↦
          let (w, u, run1, run2, done) =
            flush_opened s t out s.sb.bmapstart i (clear_bit (t.buf i).bytes b) r in
          inr (
            used,
            u,
            rw (dev_eq, place, run) (rw (bit, ap (λ x. clear x b) read ∙ used, run1, run2)),
            subst (λ (x : Block). IsDone s out (update s.ramdisk s.sb.bmapstart (clear_bit x b)) u)
                read done,
          )
    ]

-- The disk with `b` marked as used, and then with zeros in it.
abbrev pub marked : Machine → ℕ → ℕ → Block
marked s b = update s.ramdisk s.sb.bmapstart (set_bit (bits s) b)

abbrev pub allocated : Machine → ℕ → ℕ → Block
allocated s b = update (marked s b) b (clear_bytes (marked s b b) 0 bsize)

-- The outcomes of balloc: the first free block of the disk, marked and zeroed, or a panic.
pub data Allocated (s : Machine) (out : List ℕ) : Run Machine ℕ → Type 0 where
  got :
      (b : ℕ) (t : Machine)
      → Lowest (is_free s) 0 s.sb.size (some b)
      → IsDone s out (allocated s b) t
      → Allocated s out (ok b t)
  none_left : Lowest (is_free s) 0 s.sb.size none → Allocated s out (panic "balloc: out of blocks")

-- The buffers that are out are for blocks in use other than the bitmap.
abbrev pub IsInUse : Machine → List ℕ → Type 0
IsInUse s out =
    (j : ℕ) → j ∈ out → ((s.buf j).blockno ≢ s.sb.bmapstart) × (is_free s (s.buf j).blockno ≡ false)

module _ (s : Machine) (out : List ℕ) (dev : ℕ) (o : IsOpen s out) (m : IsBitmap s)
    (dev_eq : dev ≡ s.log.dev) (in_use : IsInUse s out) (room : length out < nbuf) where
  -- What balloc does when it has found a free block `b` in the bitmap, which buffer `i` holds.
  balloc_found-got :
      (i b : ℕ) (t : Machine) (next : Machine → Run Machine ℕ)
      → IsOpened s out s.sb.bmapstart i t
      → Lowest (is_free s) 0 s.sb.size (some b)
      → Allocated s out (balloc_found dev 0 i (some b) next t)
  unfolding balloc_found
  balloc_found-got i b t next r (hit _ _ below free before) =
      let b_in : b < fssize = omega (arith, m.size) in
      let number : (0 + b) % 2 ^ 32 ≡ b = omega arith in
      let (w, u, run1, run2, done) =
        flush_opened s t out s.sb.bmapstart i (set_bit (t.buf i).bytes b) r in
      let mark : u.ramdisk ≡ marked s b =
        done.ramdisk ∙ ap (λ (x : Block). update s.ramdisk s.sb.bmapstart (set_bit x b)) r.bytes in
      let apart : IsApart u out b = λ j n e.
        absurd (cc (free, (in_use j n).1, ap (λ (c : Buf). is_free s c.blockno) (done.kept j n))) in
      let (v, run3, zeroed) =
        bzero-IsDone u out dev b done.is_open (dev_eq ∙ sym (ap (λ (k : Log). k.dev) done.log)) b_in
          apart room in
      rw (number, run1, run2, run3)
        (got b v (hit b (omega arith) below free before) (
          subst (λ (d : ℕ → Block). IsDone s out (update d b (clear_bytes (d b) 0 bsize)) v) mark
            (IsDone-then s u v out (update s.ramdisk s.sb.bmapstart (set_bit (t.buf i).bytes b))
              (update u.ramdisk b (clear_bytes (u.ramdisk b) 0 bsize)) done zeroed)))

  -- The search in the bitmap block, when there is no other one to search.
  balloc_found-Allocated :
      (i : ℕ) (t : Machine) (next : Machine → Run Machine ℕ) (r : Option ℕ)
      → IsOpened s out s.sb.bmapstart i t
      → ((u : Machine) → u.sb ≡ s.sb → next u ≡ panic "balloc: out of blocks")
      → Found (t.buf i).bytes 0 s.sb.size 0 bpb r
      → Allocated s out (balloc_found dev 0 i r next t)
  unfolding balloc_found
  balloc_found-Allocated i t next r q h (first b low high below free before) =
      balloc_found-got i b t next q (
        hit b low (omega arith) (ap (λ (x : Block). clear x b) (sym q.bytes) ∙ free)
          (λ j k l. ap (λ (x : Block). clear x j) (sym q.bytes) ∙ before j k l))
  balloc_found-Allocated i t next r q h (full all_set) =
      let (u, run, done) = give_up_opened s t out s.sb.bmapstart i q in
      subst (Allocated s out)
        (sym (
          ap (λ (x : Run Machine (Unit {0})). and_then x (λ _. next)) run
          ∙ h u (ap (λ (a : Above). a.sb) done.above_eq)))
        (none_left (
          miss (λ j low below.
            ap (λ (x : Block). clear x j) (sym q.bytes)
            ∙ all_set j low (omega (arith, m.size)) (omega arith))))

  -- There is no second bitmap block.
  balloc_loop-end :
      (rounds : ℕ) (u : Machine)
      → u.sb ≡ s.sb
      → balloc_loop (suc rounds) dev ((0 + bpb) % 2 ^ 32) u ≡ panic "balloc: out of blocks"
  unfolding balloc_loop
  balloc_loop-end rounds u e = rw (
      le→ltb ((0 + bpb) % 2 ^ 32) u.sb.size
        (omega (arith, m.size, ap (λ (x : Superblock). x.size) e)))

  balloc_loop-Allocated : (rounds : ℕ) → Allocated s out (balloc_loop (suc (suc rounds)) dev 0 s)
  unfolding balloc_loop
  balloc_loop-Allocated rounds = elim (Bool-cases (ltb 0 s.sb.size)) [
    | inl some_block ↦
        let (i, t, run, r) =
          bread-IsOpened s out s.sb.bmapstart o m.inside (λ j n. (in_use j n).0) room in
        let place : bblock 0 s.sb ≡ s.sb.bmapstart = omega arith in
        let next = balloc_loop (suc rounds) dev ((0 + bpb) % 2 ^ 32) in
        let run' : bread dev s.sb.bmapstart s ≡ ok i t =
          subst (λ d. bread d s.sb.bmapstart s ≡ ok i t) (sym dev_eq) run in
        rw (some_block, place, run')
          (balloc_found-Allocated i t next (find_clear bpb 0 0 s.sb.size (t.buf i).bytes) r
            (balloc_loop-end rounds)
            (find_clear-Found bpb 0 0 s.sb.size (t.buf i).bytes (omega (arith, m.size))
              (omega arith)))
    | inr no_block ↦ rw no_block (none_left (miss (λ j low below. absurd (ground arith))))
  ]

-- balloc outside a transaction.
pub balloc-Allocated :
    (s : Machine) (out : List ℕ) (dev : ℕ)
    → IsOpen s out
    → IsBitmap s
    → dev ≡ s.log.dev
    → IsInUse s out
    → length out < nbuf
    → Allocated s out (balloc dev s)
unfolding balloc
balloc-Allocated s out dev o m dev_eq in_use room =
    balloc_loop-Allocated s out dev o m dev_eq in_use room (s.sb.size / bpb)
