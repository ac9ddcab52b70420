-- ===== src/Bio.antt =====
-- The buffer cache (riscv-os/kernel/bio.c): an array of nbuf buffers on a circular doubly linked
-- list, kept by the positions that the pointers stand for.
pub mod Buffers
pub mod Cache
pub mod Fill
pub mod Init
pub mod Read
pub mod Release
pub mod Ring
pub mod Search
pub mod Synced
pub mod Write
use os.Common.{
  ℕ, zero, suc, ◌+◌, ◌-◌, ◌%◌, ◌^◌, Bool, true, false, not, ◌&&◌, if◌then◌else◌, ltb, ◌==◌, update,
  M, pure, get, modify, fail, spin, ◌>>=◌, ◌>>◌,
}
use os.Lock.{Sleeplock, initlock, initsleeplock}
use os.Machine.{
  Machine, Buf, Block, nbuf, head, set_buf, acquire_bcache, release_bcache, acquiresleep_buf,
  releasesleep_buf, holdingsleep_buf,
}
use os.Disk.{virtio_disk_rw}

-- How a walk along the list ends: at a buffer that passes the test, back at the dummy node, or,
-- if the links do not lead back, not at all.
pub data Walk : Type 0 where
  found : ℕ → Walk
  absent : Walk
  lost : Walk

unfoldable pub walk : ℕ → (Buf → Bool) → (Buf → ℕ) → (ℕ → Buf) → ℕ → Walk
walk zero test link buf p = lost
walk (suc fuel) test link buf p =
    let rest = walk fuel test link buf (link (buf p)) in
    if p == head then absent else if test (buf p) then found p else rest

-- `b->dev == dev && b->blockno == blockno`
abbrev pub has_key : ℕ → ℕ → Buf → Bool
has_key dev blockno b = (b.dev == dev) && (b.blockno == blockno)

abbrev pub unused : Buf → Bool
unused b = b.refcnt == 0

unfoldable pub bget_cached : ℕ → M Machine ℕ
bget_cached i = do
  modify (λ s. let b = s.buf i in set_buf i (record b { refcnt = (b.refcnt + 1) % 2 ^ 32 }) s)
  release_bcache
  acquiresleep_buf i
  pure i

unfoldable pub bget_recycle : ℕ → ℕ → ℕ → M Machine ℕ
bget_recycle dev blockno i = do
  modify (λ s.
      set_buf i
        (record (s.buf i) { dev = dev; blockno = blockno; valid = false; disk = false; refcnt = 1 })
        s)
  release_bcache
  acquiresleep_buf i
  pure i

-- The second loop's outcome.
unfoldable pub bget_miss : ℕ → ℕ → Walk → M Machine ℕ
unfolding bget_recycle
bget_miss dev blockno (found i) = bget_recycle dev blockno i
bget_miss dev blockno absent = release_bcache >> fail "bget: no free buffer"
bget_miss dev blockno lost = spin

-- The first loop's outcome. A walk passes at most nbuf buffers and the dummy node.
unfoldable pub bget_hit : ℕ → ℕ → Walk → M Machine ℕ
unfolding walk bget_cached bget_miss
bget_hit dev blockno (found i) = bget_cached i
bget_hit dev blockno absent = do
  s ← get
  bget_miss dev blockno (walk (nbuf + 1) unused (λ b. b.prev) s.buf (s.buf head).prev)
bget_hit dev blockno lost = spin

abbrev pub bget_scan : ℕ → ℕ → Unit {0} → M Machine ℕ
bget_scan dev blockno done = do
  s ← get
  bget_hit dev blockno (walk (nbuf + 1) (has_key dev blockno) (λ b. b.next) s.buf (s.buf head).next)

unfoldable pub bget : ℕ → ℕ → M Machine ℕ
unfolding bget_hit
bget dev blockno = acquire_bcache >>= bget_scan dev blockno

abbrev pub set_prev : ℕ → ℕ → (ℕ → Buf) → ℕ → Buf
set_prev i p buf = update buf i (record (buf i) { prev = p })

abbrev pub set_next : ℕ → ℕ → (ℕ → Buf) → ℕ → Buf
set_next i n buf = update buf i (record (buf i) { next = n })

-- The two writes that take a node out of the list.
unfoldable pub unlink : ℕ → (ℕ → Buf) → ℕ → Buf
unlink i buf =
    let buf1 = set_prev (buf i).next (buf i).prev buf in set_next (buf1 i).prev (buf1 i).next buf1

-- The four writes that put a node behind the dummy node.
unfoldable pub push_front : ℕ → (ℕ → Buf) → ℕ → Buf
push_front i buf =
    let buf1 = set_next i (buf head).next buf in
    let buf2 = set_prev i head buf1 in
    let buf3 = set_prev (buf2 head).next i buf2 in set_next head i buf3

-- The body of the loop of binit.
binit_buf : ℕ → (ℕ → Buf) → ℕ → Buf
unfolding push_front
binit_buf i buf = push_front i (
    update buf i (record (buf i) {
      valid = false;
      disk = false;
      dev = 0;
      blockno = 0;
      refcnt = 0;
      lock = initsleeplock;
    }))

-- `for (b = bcache.buf; b < bcache.buf + nbuf; b++)`, by the rounds left.
binit_loop : ℕ → ℕ → (ℕ → Buf) → ℕ → Buf
unfolding binit_buf
binit_loop zero i buf = buf
binit_loop (suc rounds) i buf = binit_loop rounds (i + 1) (binit_buf i buf)

unfoldable pub binit_ring : (ℕ → Buf) → ℕ → Buf
unfolding binit_loop
binit_ring buf =
    binit_loop nbuf 0 (update buf head (record (buf head) { prev = head; next = head }))

unfoldable pub bread_miss : ℕ → M Machine ℕ
bread_miss i = do
  modify (λ t. record t { buffer_cache_misses = (t.buffer_cache_misses + 1) % 2 ^ 64 })
  virtio_disk_rw i false
  modify (λ t. set_buf i (record (t.buf i) { valid = true }) t)
  pure i

-- `if (!b->valid)` of bread.
unfoldable pub bread_fill : ℕ → M Machine ℕ
unfolding bread_miss
bread_fill i = do
  s ← get
  if not (s.buf i).valid then bread_miss i else do
    modify (λ t. record t { buffer_cache_hits = (t.buffer_cache_hits + 1) % 2 ^ 64 })
    pure i

unfoldable pub bread : ℕ → ℕ → M Machine ℕ
unfolding bget bread_fill
bread dev blockno = bget dev blockno >>= bread_fill

-- `if (b->refcnt == 0)` of brelse: the buffer becomes the most recently used.
unfoldable pub brelse_move : ℕ → (ℕ → Buf) → ℕ → Buf
unfolding unlink push_front
brelse_move i buf = if (buf i).refcnt == 0 then push_front i (unlink i buf) else buf

-- The rest of brelse, with the spin lock held.
unfoldable pub brelse_count : ℕ → M Machine (Unit {0})
unfolding brelse_move
brelse_count i = do
  s ← get
  if ltb (s.buf i).refcnt 1 then fail "brelse: refcnt < 1" else do
    modify (λ t. set_buf i (record (t.buf i) { refcnt = (t.buf i).refcnt - 1 }) t)
    modify (λ t. record t { buf = brelse_move i t.buf })
    release_bcache

unfoldable pub brelse_held : ℕ → Bool → M Machine (Unit {0})
unfolding brelse_count
brelse_held i false = fail "brelse: buf not locked"
brelse_held i true = do releasesleep_buf i; acquire_bcache; brelse_count i

unfoldable pub brelse : ℕ → M Machine (Unit {0})
unfolding brelse_held
brelse i = holdingsleep_buf i >>= brelse_held i
