-- ===== src/Samples/Checks.antt =====
-- The theorems about the dumps of the file system at sample states.
use os.Common.{
  All, Distinct, ◌∷◌, subst, sym, ℕ, suc, ◌+◌, ◌*◌, ◌%◌, ◌/◌, ◌<◌, ◌≤◌, ◌≡◌, ◌⊎◌, inl, inr, refl,
  ap, ◌∙◌, arith, false, ◌==◌, if◌then◌else◌, [], ok, panic, update,
}
use os.Machine.{Machine, Block}
use os.Bytes.{get32, get16}
use os.Bio.Init.{binit_ring-IsFresh}
use os.Fs.Bitmap.{balloc}
use os.Store.{IsOpen}
use os.Store.Blocks.{is_free, bits, IsBitmap}
use os.FsDebug.{calc_datastart, count_free_blocks, fsck_lite}
use os.FsDebug.Balance.{balloc-count_free_blocks}
use os.FsDebug.Notes.{words}
use os.FsDebug.Inodes.{IsReachable}
use os.FsDebug.Verdict.{Fits}
use os.FsDebug.Upkeep.{IsSound, balloc-fsck_lite}
use os.FsDebug.Check.{all_refs, references, IsConsistent}
use os.Samples.{booted-IsCache, order, junk}
use os.Samples.Stores.{resting, resting-IsOpen, resting-IsBitmap}

resting-metadata : (j : ℕ) → j < calc_datastart resting.sb → is_free resting j ≡ false
resting-metadata j h = elim (which j (omega arith)) [
  | inl e ↦ ap (is_free resting) e
  | inr (inl e) ↦ ap (is_free resting) e
  | inr (inr (inl e)) ↦ ap (is_free resting) e
  | inr (inr (inr e)) ↦ ap (is_free resting) e
]
  where
    which : (j : ℕ) → j < 4 → (j ≡ 0) ⊎ (j ≡ 1) ⊎ (j ≡ 2) ⊎ (j ≡ 3)
    which j h = omega arith

balloc-count_free_blocks_example :
    ((b : ℕ) × (n : ℕ) × (t : Machine) × (u : Machine) × (v : Machine) × (balloc resting.log.dev
          resting
        ≡ ok b t)
      × (count_free_blocks resting ≡ ok (suc n) u)
      × (count_free_blocks t ≡ ok n v))
    ⊎ ((u : Machine) × (balloc resting.log.dev resting ≡ panic "balloc: out of blocks")
        × (count_free_blocks resting ≡ ok 0 u))
balloc-count_free_blocks_example =
    balloc-count_free_blocks resting resting-IsOpen resting-IsBitmap refl resting-metadata

-- Inode 1 is a file of one block, block 5; no other inode is in use.
abbrev inode_block : Block
inode_block i = if i == 64 then 2 else if i == 76 then 5 else 0

abbrev small : Machine
small = record resting {
  ramdisk = update (update resting.ramdisk 2 inode_block) 3 (λ i. if i == 0 then 47 else 0);
}

small-IsOpen : IsOpen small []
small-IsOpen = record {
  order = order;
  cache = record { lock_free = refl; bufs = booted-IsCache.bufs };
  all = refl;
  used = omega arith;
  plain = refl;
  distinct = tt;
  held = λ j m. cc;
  back = λ j m free. record {
    unlocked = (binit_ring-IsFresh (λ _. junk)).back j m;
    synced = λ dev v. cc ((binit_ring-IsFresh (λ _. junk)).invalid j m);
  };
}

no_indirect : (o : ℕ) → get32 inode_block (o * 64 + 12 + 4 * 12) ≡ 0
unfolding get32
no_indirect o = ground arith

small-IsReachable :
    (inum : ℕ) → 1 ≤ inum → inum < small.sb.ninodes → IsReachable small.ramdisk small.sb inum
small-IsReachable inum low below =
    let place : inum / 64 + 2 ≡ 2 = omega arith in
    record {
      home = omega arith;
      home_ne = omega arith;
      indirect = λ used ne. absurd (
          ne (
            ap (λ b. get32 (small.ramdisk b) ((inum % 64) * 64 + 12 + 4 * 12)) place
            ∙ no_indirect (inum % 64)));
    }

references-small : references small ≡ 5 ∷ []
unfolding all_refs words get32 get16
references-small = refl

small-IsConsistent : IsConsistent small
small-IsConsistent =
    subst (λ xs. All (Fits (bits small) 100 (calc_datastart small.sb)) xs × Distinct xs)
      (sym references-small) (((omega arith, omega arith, refl), tt), (tt, tt))

small-IsBitmap : IsBitmap small
small-IsBitmap = record {
  size = omega arith;
  inside = omega arith;
  own = refl;
  bytes = λ i. ground arith;
}

small-IsSound : IsSound small
small-IsSound inum low below =
    let place : inum / 64 + 2 ≡ 2 = omega arith in
    (small-IsReachable inum low below, ap (is_free small) place)

balloc-fsck_lite_example :
    ((b : ℕ) × (t : Machine) × (u : Machine) × (balloc small.log.dev small ≡ ok b t)
      × IsConsistent t
      × (fsck_lite (λ _. 1) t ≡ ok 0 u))
    ⊎ (balloc small.log.dev small ≡ panic "balloc: out of blocks")
balloc-fsck_lite_example =
    balloc-fsck_lite small (λ _. 1) small-IsOpen small-IsBitmap refl small-IsSound
      small-IsConsistent
