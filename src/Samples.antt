-- ===== src/Samples.antt =====
-- Sample states of the block layer, for tests.
mod Checks
mod Files
mod Harts
mod Kernel
mod Threads
mod Stores
mod Printing
mod Tables
mod Witnesses
use os.Common.{none, ℕ, ◌≤◌, ◌<◌, ◌≡◌, refl, Bool, true, false, List, arith, ◌∈◌, length, Run}
use os.Lock.{initlock, initsleeplock}
use os.Machine.{Machine, Buf, Block, Log, LogHeader, nbuf}
use os.Bio.{binit_ring}
use os.Bio.Init.{countdown, binit_ring-IsFresh}
use os.Bio.Cache.{IsCache}
use os.Bio.Synced.{IsIdle, IsSynced, IsIdle-IsReadable}
use os.Bio.Read.{IsReadable, IsRead, bread-IsRead}
use os.Log.Install.{IsQuiet}
use os.Log.Replay.{IsPlaced}

abbrev pub junk : Buf
junk = record {
  valid = true;
  disk = true;
  dev = 7;
  blockno = 9;
  lock = initsleeplock;
  refcnt = 4;
  prev = 1;
  next = 2;
  bytes = λ o. o;
}

-- A log of one entry, for block 40.
abbrev pub one_entry : Log
one_entry = record {
  start = 2;
  size = 30;
  outstanding = 1;
  committing = false;
  dev = 1;
  lh = record { n = 1; block = λ _. 40 };
}

-- After binit, on a disk each of whose blocks repeats its number.
abbrev pub booted : Machine
booted = record {
  cpu = record { intr = true };
  ramdisk = λ b o. b;
  disk_read_count = 0;
  disk_write_count = 0;
  bcache_lock = initlock;
  buf = binit_ring (λ _. junk);
  buffer_cache_hits = 0;
  buffer_cache_misses = 0;
  log = one_entry;
  sb = record {
    magic = 0;
    size = 0;
    nblocks = 0;
    ninodes = 0;
    nlog = 0;
    logstart = 0;
    inodestart = 0;
    bmapstart = 0;
  };
  icache_lock = initlock;
  inode = λ _. record {
    dev = 0;
    inum = 0;
    ref = 0;
    lock = initsleeplock;
    valid = false;
    type = 0;
    major = 0;
    minor = 0;
    nlink = 0;
    size = 0;
    addrs = λ _. 0;
  };
  ftable_lock = initlock;
  file = λ _. record { type = 0; ref = 0; readable = false; writable = false; ip = none; off = 0 };
  ofile = λ _. none;
  memory = λ _. 0;
}

abbrev pub order : List ℕ
order = countdown nbuf

pub booted-IsCache : IsCache booted order
booted-IsCache = record { lock_free = refl; bufs = (binit_ring-IsFresh (λ _. junk)).bufs }

pub booted-IsQuiet : IsQuiet booted order
booted-IsQuiet = record {
  cache = booted-IsCache;
  idle = (binit_ring-IsFresh (λ _. junk)).back;
  two = omega arith;
  used = omega arith;
}

pub booted-IsSynced : (dev b : ℕ) → IsSynced booted order dev b
booted-IsSynced dev b j m key v = cc ((binit_ring-IsFresh (λ _. junk)).invalid j m)

pub booted-IsReadable : (b : ℕ) → b < 1024 → IsReadable booted order 1 b
booted-IsReadable b h =
    IsIdle-IsReadable booted order 1 b booted-IsCache booted-IsQuiet.idle (omega arith)
      (omega arith) h

pub one_entry-IsPlaced : IsPlaced one_entry
one_entry-IsPlaced = record {
  area = omega arith;
  inside = λ j h. omega arith;
  outside = λ j h. omega arith;
  once = λ i j hi hj e. omega arith;
}
