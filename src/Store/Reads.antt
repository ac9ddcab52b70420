-- ===== src/Store/Reads.antt =====
-- Looking up the blocks of a file (riscv-os/kernel/fs.c: bmap without allocation) outside a
-- transaction.
use os.Common.{
  ℕ, ◌-◌, ◌*◌, ◌≤◌, ◌<◌, ◌≡◌, ◌≢◌, inl, inr, refl, sym, ap, subst, arith, Bool, true, false, ◌&&◌,
  ◌==◌, ltb, leb, ==→ne, if◌then◌else◌, Bool-cases, List, length, ok, panic,
}
use os.Machine.{Machine, Block, Inode, nbuf, fssize}
use os.Bytes.{get32}
use os.Bio.{bread}
use os.Fs.Inodes.{ndirect, nindirect, maxfile, bmap, bmap_slot, bmap_indirect, bmap_entry}
use os.Store.{IsOpen}
use os.Store.Sessions.{IsApart, bread-IsOpened}
use os.Store.Updates.{IsDone, IsDone-none, give_up_opened}

-- The address of block `bn` of a file, with the disk `d`; 0 if it has none.
abbrev pub indirect_addr : ℕ → (ℕ → Block) → ℕ → ℕ
indirect_addr addr d k = if addr == 0 then 0 else get32 (d addr) (4 * k)

abbrev pub addr_of : Inode → (ℕ → Block) → ℕ → ℕ
addr_of x d bn =
    if ltb bn ndirect then x.addrs bn else indirect_addr (x.addrs ndirect) d (bn - ndirect)

-- The inode in place `ip` belongs to the disk, and so does its indirect block, which is not out.
pub record IsMapped (s : Machine) (out : List ℕ) (ip : ℕ) : Type 0 where
  pub dev_eq : (s.inode ip).dev ≡ s.log.dev
  pub indirect :
      (s.inode ip).addrs ndirect ≢ 0
      → ((s.inode ip).addrs ndirect < fssize) × IsApart s out ((s.inode ip).addrs ndirect)

and_false : (b : Bool) → (b && false) ≡ false
and_false true = refl
and_false false = refl

bmap_slot_lem : (s : Machine) (ip k : ℕ) → bmap_slot ip k false s ≡ ok ((s.inode ip).addrs k) s
unfolding bmap_slot
bmap_slot_lem s ip k = rw (and_false ((s.inode ip).addrs k == 0))

bmap_entry_lem : (s : Machine) (dev i k : ℕ) → bmap_entry dev i k false s ≡ ok tt s
unfolding bmap_entry
bmap_entry_lem s dev i k = rw (and_false (get32 (s.buf i).bytes (4 * k) == 0))

bmap_indirect_lem :
    (s : Machine) (out : List ℕ) (ip k addr : ℕ)
    → IsOpen s out
    → (s.inode ip).dev ≡ s.log.dev
    → addr < fssize
    → IsApart s out addr
    → length out < nbuf
    → (t : Machine) × (bmap_indirect ip k false addr s ≡ ok (get32 (s.ramdisk addr) (4 * k)) t)
      × IsDone s out s.ramdisk t
unfolding bmap_indirect
bmap_indirect_lem s out ip k addr o dev_eq inside apart room =
    let (i, t, run, r) = bread-IsOpened s out addr o inside apart room in
    let (u, run1, done) = give_up_opened s t out addr i r in
    let run' : bread (s.inode ip).dev addr s ≡ ok i t =
      subst (λ d. bread d addr s ≡ ok i t) (sym dev_eq) run in
    (
      u,
      rw (run', bmap_entry_lem t (s.inode ip).dev i k, run1)
          (ap (λ (v : Block). ok (get32 v (4 * k)) u) r.bytes),
      done,
    )

-- Without allocation, bmap of a block number that a file can have returns the block's address, 0
-- if there is none, and changes nothing; of a greater number it panics.
pub bmap-addr_of :
    (s : Machine) (out : List ℕ) (ip bn : ℕ)
    → IsOpen s out
    → IsMapped s out ip
    → length out < nbuf
    → (bn < maxfile
        → (t : Machine) × (bmap ip bn false s ≡ ok (addr_of (s.inode ip) s.ramdisk bn) t)
          × IsDone s out s.ramdisk t)
      × (maxfile ≤ bn → bmap ip bn false s ≡ panic "bmap: out of range")
unfolding bmap
bmap-addr_of s out ip bn o m room = (
  λ below. elim (Bool-cases (ltb bn ndirect)) [
    | inl direct ↦ (s, rw (direct, bmap_slot_lem s ip bn), IsDone-none s out o)
    | inr indirect ↦
        let range : leb nindirect (bn - ndirect) ≡ false = ground arith in
        elim (Bool-cases ((s.inode ip).addrs ndirect == 0)) [
          | inl no_block ↦
              (s, rw (indirect, range, bmap_slot_lem s ip ndirect, no_block), IsDone-none s out o)
          | inr some_block ↦
              let (inside, apart) = m.indirect (==→ne ((s.inode ip).addrs ndirect) 0 some_block) in
              let (t, run, done) =
                bmap_indirect_lem s out ip (bn - ndirect) ((s.inode ip).addrs ndirect) o m.dev_eq
                  inside apart room in
              (t, rw (indirect, range, bmap_slot_lem s ip ndirect, some_block, run), done)
        ]
  ],
  λ above.
      let indirect : ltb bn ndirect ≡ false = ground arith in
      let range : leb nindirect (bn - ndirect) ≡ true = ground arith in rw (indirect, range),
)
