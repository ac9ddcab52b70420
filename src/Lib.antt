-- ===== src/Lib.antt =====
-- A model of the riscv-os kernel: its block layer, file system, open files and system calls, its
-- message log, its page allocator and page tables, and its threads, with theorems about them.
--
-- The parts, from the bottom up:
--
-- - Lock has the locks of riscv-os/include/spinlock.h and sleeplock.h (initlock, acquire,
--   release, acquiresleep, ...). The kernel runs on one hart, so a lock that is taken and waited
--   for is never given back: the loops of acquire and acquiresleep run for a number of rounds,
--   and what they return does not depend on it.
-- - Disk is the RAM disk of riscv-os/kernel/virtio_disk.c (virtio_disk_rw), an array of blocks;
--   its formatting (virtio_disk_init) is in Fs/Format.
-- - Bio is the buffer cache of riscv-os/kernel/bio.c (bget, bread, brelse, binit). The list by
--   recency is kept in the `prev` and `next` fields of the buffers, as in the code; Bio/Cache
--   states which list they stand for. A walk along the list has a round for each of the nbuf
--   buffers and the dummy node, which is enough on a well-formed cache.
-- - Log is the write-ahead log of riscv-os/kernel/log.c (read_head to log_write), and bwrite of
--   bio.c, which calls log_write.
-- - Fs is riscv-os/kernel/fs.c. Fs/Bitmap has balloc and bfree, Fs/Inodes and Fs/Lifetime the
--   inode cache and the dinodes (bmap, iget to iput), Fs/Contents readi and writei,
--   Fs/Directories and Fs/Paths the names (dirlookup, dirlink, namex), Fs/Format fs_init. The
--   loops over offsets, directory entries and paths get a round for each step that they can
--   take, and one more.
-- - Store is the block layer as fs.c sees it outside a transaction: bread, bwrite and brelse over
--   the disk as a map of blocks (Store/Sessions, Store/Writes, Store/Updates), and with it what
--   balloc and bfree do to the set of free blocks (Store/Free), iupdate and ilock to the inodes
--   (Store/Dinodes), and readi to a file (Store/Files).
-- - FsDebug is riscv-os/kernel/fs_debug.c: the counts of free blocks and inodes, the numbers that
--   the dumps print, and fsck_lite. FsDebug/Notes, FsDebug/Inodes and FsDebug/Verdict follow its
--   walk over the inodes.
-- - File is the table of open files of riscv-os/kernel/file.c.
-- - Syscalls is the dispatcher and the arguments of riscv-os/kernel/syscall.c, the calls of
--   sysproc.c; Syscalls/Files and Syscalls/Calls are sysfile.c.
-- - Klog has the ring of messages of riscv-os/kernel/klog.c, with its formatter in Klog/Format.
-- - Uart is riscv-os/kernel/uart.c and console.c: the writes to the registers of the UART, in order.
--   Printf is riscv-os/kernel/printf.c on this console; Printf/Text states the text of a format.
-- - Pmm is the free list of physical pages of riscv-os/kernel/pmm.c.
-- - Vm has the page tables of riscv-os/kernel/vm.c over the allocator of Pmm. Vm/Trees states what
--   tables stand for, Vm/Missing how many more a walk needs, Vm/Walks and Vm/Growth what walk does to
--   them; Vm/Mapping, Vm/Ranges, Vm/Blank and Vm/Kernel are mappage, kvmmap, create_pagetable and
--   kvminit. kvmmap gets a round for each page.
-- - Riscv has the registers of riscv-os/include/riscv.h with their accessors, Traps the timer
--   interrupts of riscv-os/kernel/trap.c, and Boot riscv-os/kernel/start.c.
-- - Proc has the kernel threads of riscv-os/kernel/proc.c and their scheduler, whose passes are
--   numbered.
--
-- All but Klog, Uart, Printf, Riscv, Traps, Boot, Pmm, Vm and Proc work on one state, the record
-- `Machine`, in a monad of runs (Common/Runs): a run returns with a state, panics with a message,
-- or never ends. `panic` of the kernel stops for ever, so a panic has no state. Bytes, words and
-- `int`s are natural numbers with the wrap-around written out; an `int` that may be negative is
-- its 32-bit word. The counts of references of an inode are read without sign, which is the `int`
-- as long as it is not negative.
-- Fields of structures in a block are read and written at their offsets (Bytes), as the code's
-- casts of `b->data` do. A copy of a whole block is an assignment. Pointers into the kernel's
-- tables are places in them.
--
-- Arguments of the model: the end of the kernel in memory (pmm_init), the time and the strings
-- that the arguments of klogf and printf point to, the pid of the current thread and the tick
-- counter at each of its readings (Syscalls/Dispatch), what a thread does between two switches
-- (Proc), the readings of the UART's line status register and how often a loop may read it (Uart).
--
-- Not modelled: what the components print on the console (but for the entries of the message log),
-- the assembly (entry.S, kernelvec.S, swtch.S), the order of calls in main.c, and the demonstrations
-- of test.c. What the hart does at a trap, `sret` and `mret` is stated as the privileged
-- architecture of RISC-V has it, for the registers that the kernel uses.
pub mod Common
pub mod Lock
pub mod Machine
pub mod Bytes
pub mod Disk
pub mod Bio
pub mod Log
pub mod Fs
pub mod Store
pub mod File
pub mod Syscalls
pub mod Pmm
pub mod Vm
pub mod FsDebug
pub mod Klog
pub mod Uart
pub mod Printf
pub mod Riscv
pub mod Traps
pub mod Boot
pub mod Proc
pub mod Samples
