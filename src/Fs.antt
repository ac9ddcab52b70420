-- ===== src/Fs.antt =====
-- The file system (riscv-os/kernel/fs.c), above the buffer cache and the log.
pub mod Bitmap
pub mod Inodes
pub mod Lifetime
pub mod Contents
pub mod Directories
pub mod Paths
pub mod Format
pub mod Bits
pub mod Elements
pub mod Unique
pub mod Cache
pub mod Layout
pub mod Masks
pub mod Dinodes
