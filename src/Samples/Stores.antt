-- ===== src/Samples/Stores.antt =====
-- The theorems of the block layer outside transactions at a sample state.
use Prim.Native.Nat.{min}
use os.Common.{
  ℕ, ◌+◌, ◌-◌, ◌≡◌, ◌≢◌, ◌⊎◌, ◌%◌, refl, true, ◌==◌, arith, some, none, [], ok, panic, Lowest,
  update, if◌then◌else◌,
}
use os.Lock.{sleeping}
use os.Machine.{Machine, Inode}
use os.Bytes.{move_bytes}
use os.Bio.Init.{binit_ring-IsFresh}
use os.Fs.Bitmap.{balloc, bfree}
use os.Fs.Inodes.{set_inode}
use os.Fs.Lifetime.{iupdate, ilock}
use os.Fs.Dinodes.{IsLoaded}
use os.Fs.Contents.{readi}
use os.Store.{IsOpen}
use os.Store.Updates.{IsDone}
use os.Store.Blocks.{is_free, IsBitmap}
use os.Store.Free.{balloc-IsTaken, balloc-bfree, bfree-twice}
use os.Store.Changes.{IsTaken}
use os.Store.Dinodes.{iupdate-ilock}
use os.Store.Files.{readi-copies}
use os.Store.Content.{file_bytes, IsFile}
use os.Samples.{booted, booted-IsCache, order, one_entry, junk}

-- A file of two blocks.
abbrev file_inode : Inode
file_inode = record (booted.inode 0) {
  dev = 1;
  inum = 1;
  ref = 1;
  type = 2;
  nlink = 1;
  size = 5000;
  addrs = λ j. 40 + j % 20;
}

-- No operation is going on; the blocks 0 to 3 are in use, and block 3 is the bitmap.
abbrev pub resting : Machine
resting = record booted {
  ramdisk = update booted.ramdisk 3 (λ i. if i == 0 then 15 else 0);
  log = record one_entry { outstanding = 0 };
  sb = record booted.sb { size = 100; ninodes = 20; inodestart = 2; bmapstart = 3 };
  inode = update booted.inode 0 file_inode;
}

pub resting-IsOpen : IsOpen resting []
resting-IsOpen = record {
  order = order;
  cache = record { lock_free = refl; bufs = booted-IsCache.bufs };
  all = refl;
  used = omega arith;
  plain = refl;
  distinct = tt;
  held = λ j m. cc;
  back = λ j m free. record {
    unlocked = (binit_ring-IsFresh (λ _. junk)).back j m;
    synced = λ dev v. cc ((binit_ring-IsFresh (λ _. junk)).invalid j m);
  };
}

pub resting-IsBitmap : IsBitmap resting
resting-IsBitmap = record {
  size = omega arith;
  inside = omega arith;
  own = refl;
  bytes = λ i. ground arith;
}

resting-balloc : balloc 1 resting ≡ balloc resting.log.dev resting
resting-balloc = refl

balloc-IsTaken_example :
    ((b : ℕ) × (t : Machine) × Lowest (is_free resting) 0 resting.sb.size (some b)
      × (balloc resting.log.dev resting ≡ ok b t)
      × IsTaken resting [] b t)
    ⊎ (Lowest (is_free resting) 0 resting.sb.size none
        × (balloc resting.log.dev resting ≡ panic "balloc: out of blocks"))
balloc-IsTaken_example =
    balloc-IsTaken resting [] resting-IsOpen resting-IsBitmap (λ j m. cc) (omega arith)

balloc-bfree_example :
    ((b : ℕ) × (t : Machine) × (u : Machine) × (balloc resting.log.dev resting ≡ ok b t)
      × (bfree resting.log.dev b t ≡ ok tt u)
      × IsOpen u []
      × ((j : ℕ) → is_free u j ≡ is_free resting j)
      × ((j : ℕ) → j ≢ b → j ≢ resting.sb.bmapstart → u.ramdisk j ≡ resting.ramdisk j))
    ⊎ (balloc resting.log.dev resting ≡ panic "balloc: out of blocks")
balloc-bfree_example =
    balloc-bfree resting [] resting-IsOpen resting-IsBitmap (λ j m. cc) (omega arith)

bfree-twice_example :
    (t : Machine) × (bfree resting.log.dev 2 resting ≡ ok tt t)
    × (bfree resting.log.dev 2 t ≡ panic "bfree: block not allocated")
bfree-twice_example =
    bfree-twice resting [] 2 resting-IsOpen resting-IsBitmap (omega arith) (omega arith) (λ j m. cc)
      (omega arith) refl

-- The inode as iget enters it in place 5.
abbrev entered : Inode
entered = record (booted.inode 0) { dev = 1; inum = 1; ref = 1 }

iupdate-ilock_example :
    (t : Machine) × (u : Machine) × (iupdate 0 resting ≡ ok tt t)
    × (ilock (some 5) (set_inode 5 entered t) ≡ ok tt u)
    × IsLoaded (resting.inode 0) (record entered { lock = sleeping true; valid = true }) (u.inode 5)
    × IsOpen u []
iupdate-ilock_example =
    iupdate-ilock resting [] 0 5 entered resting-IsOpen
      (record { dev_eq = refl; inside = omega arith; apart = λ j m. cc }) (omega arith)
      (record {
        type = omega arith;
        major = omega arith;
        minor = omega arith;
        nlink = omega arith;
        size = omega arith;
        addrs = λ j. omega arith;
      })
      (omega arith) (record { in_use = omega arith; inner = refl; unlocked = refl; valid = refl })
      refl refl

resting-IsFile : IsFile resting [] 0 5000
resting-IsFile = record {
  mapped = record { dev_eq = refl; indirect = λ ne. (omega arith, λ j m. cc) };
  short = omega arith;
  blocks = λ bn h. (ground arith, ground arith, λ j m. cc);
}

readi-copies_example :
    (t : Machine) × (readi 0 (λ _. 0) 100 4090 20 resting
      ≡ ok
          (record {
            count = min 20 (5000 - 4090);
            memory =
                move_bytes
                  (λ _. 0)
                  100
                  (file_bytes (resting.inode 0) resting.ramdisk)
                  4090
                  (min 20 (5000 - 4090));
          })
          t)
    × IsDone resting [] resting.ramdisk t
readi-copies_example =
    readi-copies resting [] 0 (λ _. 0) 100 4090 20 resting-IsOpen resting-IsFile (omega arith)
      (omega arith) (omega arith)
