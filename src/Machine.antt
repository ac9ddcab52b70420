-- ===== src/Machine.antt =====
-- The state that the block layer shares: the RAM disk of riscv-os/kernel/virtio_disk.c, the buffer
-- cache of riscv-os/kernel/bio.c and the log of riscv-os/kernel/log.c, with the structures and
-- constants of riscv-os/include/fs.h.
use os.Common.{ℕ, Bool, update, Option, none, some, Run, ok, hang, M}
use os.Lock.{Cpu, Spinlock, Sleeplock, acquire, release, acquiresleep, releasesleep, holdingsleep}

abbrev pub bsize : ℕ
bsize = 4096

abbrev pub nbuf : ℕ
nbuf = 30

abbrev pub logsize : ℕ
logsize = 30

abbrev pub fssize : ℕ
fssize = 1024

-- The bsize bytes of a block, by offset.
abbrev pub Block : Type 0
Block = ℕ → ℕ

-- `prev` and `next` are positions in the cache's array, `head` for the dummy node.
pub record Buf : Type 0 where
  pub valid : Bool
  pub disk : Bool
  pub dev : ℕ
  pub blockno : ℕ
  pub lock : Sleeplock
  pub refcnt : ℕ
  pub prev : ℕ
  pub next : ℕ
  pub bytes : Block

pub record Superblock : Type 0 where
  pub magic : ℕ
  pub size : ℕ
  pub nblocks : ℕ
  pub ninodes : ℕ
  pub nlog : ℕ
  pub logstart : ℕ
  pub inodestart : ℕ
  pub bmapstart : ℕ

pub record LogHeader : Type 0 where
  pub n : ℕ
  pub block : ℕ → ℕ

-- The spin lock of `struct log` is never taken.
pub record Log : Type 0 where
  pub start : ℕ
  pub size : ℕ
  pub outstanding : ℕ
  pub committing : Bool
  pub dev : ℕ
  pub lh : LogHeader

-- `struct inode`, the copy in memory.
pub record Inode : Type 0 where
  pub dev : ℕ
  pub inum : ℕ
  pub ref : ℕ
  pub lock : Sleeplock
  pub valid : Bool
  pub type : ℕ
  pub major : ℕ
  pub minor : ℕ
  pub nlink : ℕ
  pub size : ℕ
  pub addrs : ℕ → ℕ

-- `struct file`. `ip` is a place in the inode cache, or the null pointer.
pub record File : Type 0 where
  pub type : ℕ
  pub ref : ℕ
  pub readable : Bool
  pub writable : Bool
  pub ip : Option ℕ
  pub off : ℕ

pub record Machine : Type 0 where
  pub cpu : Cpu
  pub ramdisk : ℕ → Block
  pub disk_read_count : ℕ
  pub disk_write_count : ℕ
  pub bcache_lock : Spinlock
  pub buf : ℕ → Buf
  pub buffer_cache_hits : ℕ
  pub buffer_cache_misses : ℕ
  pub log : Log
  pub sb : Superblock
  pub icache_lock : Spinlock
  pub inode : ℕ → Inode
  pub ftable_lock : Spinlock
  pub file : ℕ → File
  -- `g_ofile`: the places in the file table that the descriptors stand for.
  pub ofile : ℕ → Option ℕ
  -- The memory that system calls read and write, by address.
  pub memory : ℕ → ℕ

-- What stands above the block layer, which the block layer does not touch.
pub record Above : Type 0 where
  pub sb : Superblock
  pub icache_lock : Spinlock
  pub inode : ℕ → Inode
  pub ftable_lock : Spinlock
  pub file : ℕ → File
  pub ofile : ℕ → Option ℕ
  pub memory : ℕ → ℕ

abbrev pub above : Machine → Above
above s = record {
  sb = s.sb;
  icache_lock = s.icache_lock;
  inode = s.inode;
  ftable_lock = s.ftable_lock;
  file = s.file;
  ofile = s.ofile;
  memory = s.memory;
}

-- The place of `bcache.head` among the nodes.
abbrev pub head : ℕ
head = nbuf

abbrev pub set_buf : ℕ → Buf → Machine → Machine
set_buf i b s = record s { buf = update s.buf i b }

-- What the lock operations leave behind, if they return.
abbrev pub put_bcache : Machine → Option (Cpu × Spinlock) → Run Machine (Unit {0})
put_bcache s none = hang
put_bcache s (some (c, l)) = ok tt (record s { cpu = c; bcache_lock = l })

abbrev pub put_lock : ℕ → Machine → Option (Cpu × Sleeplock) → Run Machine (Unit {0})
put_lock i s none = hang
put_lock i s (some (c, l)) =
    ok tt (set_buf i (record (s.buf i) { lock = l }) (record s { cpu = c }))

abbrev pub put_held : ℕ → Machine → Option (Bool × Cpu × Sleeplock) → Run Machine Bool
put_held i s none = hang
put_held i s (some (held, c, l)) =
    ok held (set_buf i (record (s.buf i) { lock = l }) (record s { cpu = c }))

abbrev pub acquire_bcache : M Machine (Unit {0})
acquire_bcache s = put_bcache s (acquire s.cpu s.bcache_lock)

abbrev pub release_bcache : M Machine (Unit {0})
release_bcache s = put_bcache s (some (release s.cpu s.bcache_lock))

abbrev pub acquiresleep_buf : ℕ → M Machine (Unit {0})
acquiresleep_buf i s = put_lock i s (acquiresleep s.cpu (s.buf i).lock)

abbrev pub releasesleep_buf : ℕ → M Machine (Unit {0})
releasesleep_buf i s = put_lock i s (releasesleep s.cpu (s.buf i).lock)

abbrev pub holdingsleep_buf : ℕ → M Machine Bool
holdingsleep_buf i s = put_held i s (holdingsleep s.cpu (s.buf i).lock)
