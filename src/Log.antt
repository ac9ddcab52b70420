-- ===== src/Log.antt =====
-- The write-ahead log (riscv-os/kernel/log.c), and bwrite of riscv-os/kernel/bio.c, which enters a
-- block into it. Messages on the console are left out.
pub mod Commit
pub mod Copies
pub mod End
pub mod Head
pub mod Header
pub mod Install
pub mod Recover
pub mod Reload
pub mod Replay
pub mod Write
use os.Common.{
  ℕ, zero, suc, ◌+◌, ◌-◌, ◌*◌, ◌^◌, Bool, true, false, not, ◌||◌, if◌then◌else◌, ltb, leb, ◌==◌,
  update, M, pure, get, modify, fail, ◌>>=◌, ◌>>◌,
}
use os.Machine.{Machine, Buf, Block, LogHeader, Log, Superblock, logsize, set_buf, holdingsleep_buf}
use os.Bytes.{get32, set32}
use os.Disk.{virtio_disk_rw}
use os.Bio.{bread, brelse}

abbrev pub set_log : Log → Machine → Machine
set_log l s = record s { log = l }

abbrev pub set_header : LogHeader → Machine → Machine
set_header h s = record s { log = record s.log { lh = h } }

-- `hd->block[i]`
abbrev pub block_offset : ℕ → ℕ
block_offset i = 4 + 4 * i

-- `log.lh.block[i] = hd->block[i]`, for the rounds left from `i`.
unfoldable pub load_blocks : ℕ → ℕ → Block → (ℕ → ℕ) → ℕ → ℕ
load_blocks zero i hd block = block
load_blocks (suc rounds) i hd block =
    load_blocks rounds (i + 1) hd (update block i (get32 hd (block_offset i)))

-- `hd->block[i] = log.lh.block[i]`, for the rounds left from `i`.
unfoldable pub store_blocks : ℕ → ℕ → (ℕ → ℕ) → Block → Block
store_blocks zero i block hd = hd
store_blocks (suc rounds) i block hd =
    store_blocks rounds (i + 1) block (set32 hd (block_offset i) (block i))

-- The header block's bytes as write_head leaves them.
unfoldable pub store_head : LogHeader → Block → Block
unfolding store_blocks
store_head lh hd = store_blocks lh.n 0 lh.block (set32 hd 0 lh.n)

-- `n` is an `int`: a word from 2 ^ 31 on is negative.
abbrev pub bad_count : ℕ → Bool
bad_count n = leb (2 ^ 31) n || ltb logsize n

unfoldable pub read_head : M Machine (Unit {0})
unfolding load_blocks
read_head = do
  s ← get
  i ← bread s.log.dev s.log.start
  modify (λ t. set_header (record t.log.lh { n = get32 (t.buf i).bytes 0 }) t)
  t ← get
  if bad_count t.log.lh.n then fail "read_head: bad n" else do
    modify (λ u.
        set_header
          (record u.log.lh { block = load_blocks u.log.lh.n 0 (u.buf i).bytes u.log.lh.block }) u)
    brelse i

-- Straight to the disk: bwrite would call log_write and come back here.
unfoldable pub write_head : M Machine (Unit {0})
unfolding store_head
write_head = do
  s ← get
  i ← bread s.log.dev s.log.start
  modify (λ t. set_buf i (record (t.buf i) { bytes = store_head t.log.lh (t.buf i).bytes }) t)
  virtio_disk_rw i true
  brelse i

-- The body of the loop of install_trans_from_log.
unfoldable pub install_block : ℕ → M Machine (Unit {0})
install_block k = do
  s ← get
  lb ← bread s.log.dev (s.log.start + 1 + k)
  db ← bread s.log.dev (s.log.lh.block k)
  modify (λ t. set_buf db (record (t.buf db) { bytes = (t.buf lb).bytes }) t)
  virtio_disk_rw db true
  brelse lb
  brelse db

-- The loop does not write `log.lh.n`.
unfoldable pub install_loop : ℕ → ℕ → M Machine (Unit {0})
unfolding install_block
install_loop zero k = pure tt
install_loop (suc rounds) k = install_block k >> install_loop rounds (k + 1)

unfoldable pub install_trans_from_log : M Machine (Unit {0})
unfolding install_loop
install_trans_from_log = do s ← get; install_loop s.log.lh.n 0

abbrev pub clear_count : M Machine (Unit {0})
clear_count = modify (λ s. set_header (record s.log.lh { n = 0 }) s)

unfoldable pub recover_from_log : M Machine (Unit {0})
recover_from_log = do
  read_head
  s ← get
  if ltb 0 s.log.lh.n then (do install_trans_from_log; clear_count; write_head) else pure tt

unfoldable pub initlog : ℕ → Superblock → M Machine (Unit {0})
initlog dev sb = do
  modify (λ s.
      set_log
        (record s.log {
          dev = dev;
          start = sb.logstart;
          size = sb.nlog;
          outstanding = 0;
          committing = false;
          lh = record s.log.lh { n = 0 };
        })
        s)
  recover_from_log

unfoldable pub begin_op : M Machine (Unit {0})
begin_op = do
  s ← get
  if s.log.committing
      then fail "begin_op: committing"
      else modify (λ t. set_log (record t.log { outstanding = t.log.outstanding + 1 }) t)

unfoldable pub commit : M Machine (Unit {0})
commit = do
  s ← get
  if ltb 0 s.log.lh.n
      then (do write_head; install_trans_from_log; clear_count; write_head)
      else pure tt

-- No operation is going on: commit.
unfoldable pub commit_alone : M Machine (Unit {0})
commit_alone = do
  modify (λ u. set_log (record u.log { committing = true }) u)
  commit
  modify (λ u. set_log (record u.log { committing = false }) u)

-- The last operation to end commits.
unfoldable pub end_op : M Machine (Unit {0})
end_op = do
  s ← get
  if ltb s.log.outstanding 1 then fail "end_op: no outstanding" else do
    modify (λ t. set_log (record t.log { outstanding = t.log.outstanding - 1 }) t)
    t ← get
    if t.log.outstanding == 0 then commit_alone else pure tt

-- `for (i = 0; i < log.lh.n; i++)` of log_write: the entry for the block, or else the end.
unfoldable pub find_entry : ℕ → ℕ → ℕ → (ℕ → ℕ) → ℕ
find_entry zero k blockno block = k
find_entry (suc rounds) k blockno block =
    let rest = find_entry rounds (k + 1) blockno block in if block k == blockno then k else rest

-- `log.size` is an `int`.
unfoldable pub new_entry : ℕ → ℕ → M Machine (Unit {0})
new_entry k blockno = do
  s ← get
  if leb s.log.size s.log.lh.n || leb (2 ^ 31) s.log.size || leb logsize s.log.lh.n
      then fail "log_write: log full"
      else modify
          (set_header (record { n = s.log.lh.n + 1; block = update s.log.lh.block k blockno }))

-- `if (i == log.lh.n)` of log_write.
unfoldable pub enter_block : ℕ → ℕ → M Machine (Unit {0})
unfolding new_entry
enter_block k blockno = do s ← get; if k == s.log.lh.n then new_entry k blockno else pure tt

-- The copy into the log's data block.
unfoldable pub copy_to_log : ℕ → ℕ → M Machine (Unit {0})
copy_to_log k i = do
  s ← get
  lb ← bread s.log.dev (s.log.start + 1 + k)
  modify (λ t. set_buf lb (record (t.buf lb) { bytes = (t.buf i).bytes }) t)
  virtio_disk_rw lb true
  brelse lb

unfoldable pub log_write : ℕ → M Machine (Unit {0})
unfolding find_entry enter_block copy_to_log
log_write i = do
  s ← get
  if ltb s.log.outstanding 1 then virtio_disk_rw i true else do
    let blockno = (s.buf i).blockno
    let k = find_entry s.log.lh.n 0 blockno s.log.lh.block
    enter_block k blockno
    copy_to_log k i

unfoldable pub bwrite : ℕ → M Machine (Unit {0})
unfolding log_write
bwrite i = do
  held ← holdingsleep_buf i
  if not held
      then fail "bwrite: buf not locked"
      else do modify (λ s. set_buf i (record (s.buf i) { disk = true }) s); log_write i
