-- ===== src/Store/Free.antt =====
-- The set of free blocks under balloc and bfree (riscv-os/kernel/fs.c), outside a transaction.
use os.Common.{
  ℕ, ◌<◌, ◌≡◌, ◌≢◌, ◌⊎◌, inl, inr, refl, sym, ap, ◌∙◌, arith, Bool, true, false, not, ◌&&◌, ◌||◌,
  ◌==◌, Bool-cases, ==→eq, List, ◌∈◌, length, none, some, Lowest, hit, Run, ok, panic,
}
use os.Bio.Release.{unplaced}
use os.Machine.{above, Buf, Machine, Log, Above, nbuf, fssize}
use os.Fs.Bitmap.{balloc, bfree}
use os.Store.{IsOpen}
use os.Store.Sessions.{IsApart}
use os.Store.Blocks.{
  is_free, IsBitmap, bfree-IsDone, Allocated, got, none_left, IsInUse, balloc-Allocated,
}
use os.Store.Changes.{IsTaken, IsFreed, allocated-IsTaken, IsDone-IsFreed, freed-IsBitmap}

Lowest-hit : (test : ℕ → Bool) (from end i : ℕ) → Lowest test from end (some i) → test i ≡ true
Lowest-hit test from end i (hit _ _ _ free _) = free

Lowest-below : (test : ℕ → Bool) (from end i : ℕ) → Lowest test from end (some i) → i < end
Lowest-below test from end i (hit _ _ below _ _) = below

-- Outside a transaction, balloc takes the first block of the disk that is free, leaves zeros in it
-- and changes nothing else on the disk, or panics if no block is free. The bitmap is one block that
-- marks itself, the buffers that are out are for other blocks in use, and another buffer can be
-- had.
pub balloc-IsTaken :
    (s : Machine) (out : List ℕ)
    → IsOpen s out
    → IsBitmap s
    → IsInUse s out
    → length out < nbuf
    → ((b : ℕ) × (t : Machine) × Lowest (is_free s) 0 s.sb.size (some b)
        × (balloc s.log.dev s ≡ ok b t)
        × IsTaken s out b t)
      ⊎ (Lowest (is_free s) 0 s.sb.size none × (balloc s.log.dev s ≡ panic "balloc: out of blocks"))
balloc-IsTaken s out o m in_use room =
    go (balloc s.log.dev s) (balloc-Allocated s out s.log.dev o m refl in_use room) refl
  where
    go :
        (r : Run Machine ℕ)
        → Allocated s out r
        → balloc s.log.dev s ≡ r
        → ((b : ℕ) × (t : Machine) × Lowest (is_free s) 0 s.sb.size (some b)
            × (balloc s.log.dev s ≡ ok b t)
            × IsTaken s out b t)
          ⊎ (Lowest (is_free s) 0 s.sb.size none
              × (balloc s.log.dev s ≡ panic "balloc: out of blocks"))
    go r (got b t l d) e =
        inl (b, t, l, e, allocated-IsTaken s out b t m (Lowest-hit (is_free s) 0 s.sb.size b l) d)
    go r (none_left l) e = inr (l, e)

-- bfree of a block of the disk panics if the block is free, and adds it to the free blocks if not.
pub bfree-IsFreed :
    (s : Machine) (out : List ℕ) (b : ℕ)
    → IsOpen s out
    → IsBitmap s
    → b < fssize
    → IsApart s out s.sb.bmapstart
    → length out < nbuf
    → ((is_free s b ≡ true) × (bfree s.log.dev b s ≡ panic "bfree: block not allocated"))
      ⊎ ((is_free s b ≡ false)
          × (t : Machine) × (bfree s.log.dev b s ≡ ok tt t)
          × IsFreed s out b t)
bfree-IsFreed s out b o m b_in apart room =
    elim (bfree-IsDone s out s.log.dev b o m refl b_in apart room) [
      | inl fails ↦ inl fails
      | inr (used, t, run, r) ↦ inr (used, t, run, IsDone-IsFreed s out b t m r)
    ]

-- The buffers that are out are still for other blocks.
still-IsApart :
    (s t : Machine) (out : List ℕ)
    → IsApart s out s.sb.bmapstart
    → ((j : ℕ) → j ∈ out → unplaced (t.buf j) ≡ unplaced (s.buf j))
    → above t ≡ above s
    → IsApart t out t.sb.bmapstart
still-IsApart s t out apart kept same j m e =
    apart j m
      (ap (λ (c : Buf). c.blockno) (sym (kept j m)) ∙ e ∙ ap (λ (a : Above). a.sb.bmapstart) same)

-- Outside a transaction, a block that balloc took can be freed, and then the free blocks are those
-- of before, and so is the rest of the disk but for the block itself, unless no block was free.
pub balloc-bfree :
    (s : Machine) (out : List ℕ)
    → IsOpen s out
    → IsBitmap s
    → IsInUse s out
    → length out < nbuf
    → ((b : ℕ) × (t : Machine) × (u : Machine) × (balloc s.log.dev s ≡ ok b t)
        × (bfree s.log.dev b t ≡ ok tt u)
        × IsOpen u out
        × ((j : ℕ) → is_free u j ≡ is_free s j)
        × ((j : ℕ) → j ≢ b → j ≢ s.sb.bmapstart → u.ramdisk j ≡ s.ramdisk j))
      ⊎ (balloc s.log.dev s ≡ panic "balloc: out of blocks")
balloc-bfree s out o m in_use room = elim (balloc-IsTaken s out o m in_use room) [
  | inl (b, t, l, run, k) ↦
      let free : is_free s b ≡ true = Lowest-hit (is_free s) 0 s.sb.size b l in
      let below = Lowest-below (is_free s) 0 s.sb.size b l in
      let used : is_free t b ≡ false = k.free b ∙ (ground arith) in
      let dev_eq : s.log.dev ≡ t.log.dev = ap (λ (x : Log). x.dev) (sym k.log) in
      let apart = still-IsApart s t out (λ j n. (in_use j n).0) k.kept k.above_eq in
      let place : t.sb.bmapstart ≡ s.sb.bmapstart = ap (λ (a : Above). a.sb.bmapstart) k.above_eq in
      elim (bfree-IsDone t out s.log.dev b k.is_open k.bitmap dev_eq (omega (arith, m.size)) apart
        room) [
          | inl (again, _) ↦ absurd (cc (again, used))
          | inr (_, u, run', r) ↦
              let f = IsDone-IsFreed t out b u k.bitmap r in
              inl (
                b,
                t,
                u,
                run,
                run',
                f.is_open,
                λ j. f.free j ∙ ap (λ x. (j == b) || x) (k.free j) ∙ back_in j b free,
                λ j ne ne'. f.others j (λ e. ne' (e ∙ place)) ∙ k.others j ne ne',
              )
        ]
  | inr (_, fails) ↦ inr fails
]
  where
    back_in :
        (j b : ℕ) → is_free s b ≡ true → ((j == b) || (not (j == b) && is_free s j)) ≡ is_free s j
    back_in j b free = elim (Bool-cases (j == b)) [
      | inl same ↦ rw same (sym (ap (is_free s) (==→eq j b same) ∙ free))
      | inr other ↦ rw other
    ]

-- A block cannot be freed twice: outside a transaction, bfree of a block in use returns, and after
-- it bfree of the block panics. The block is not the bitmap's own.
pub bfree-twice :
    (s : Machine) (out : List ℕ) (b : ℕ)
    → IsOpen s out
    → IsBitmap s
    → b < fssize
    → b ≢ s.sb.bmapstart
    → IsApart s out s.sb.bmapstart
    → length out < nbuf
    → is_free s b ≡ false
    → (t : Machine) × (bfree s.log.dev b s ≡ ok tt t)
      × (bfree s.log.dev b t ≡ panic "bfree: block not allocated")
bfree-twice s out b o m b_in ne apart room used =
    elim (bfree-IsDone s out s.log.dev b o m refl b_in apart room) [
      | inl (free, _) ↦ absurd (cc (free, used))
      | inr (_, t, run, r) ↦
          let k = IsDone-IsFreed s out b t m r in
          let dev_eq : s.log.dev ≡ t.log.dev = ap (λ (x : Log). x.dev) (sym k.log) in
          elim (bfree-IsDone t out s.log.dev b k.is_open (freed-IsBitmap s out b t m r ne) dev_eq
            b_in (still-IsApart s t out apart k.kept k.above_eq) room) [
              | inl (_, fails) ↦ (t, run, fails)
              | inr (again, _, _, _) ↦
                  let free : is_free t b ≡ true = k.free b ∙ (ground arith) in
                  absurd (cc (again, free))
            ]
    ]
