-- ===== src/Store/Content.antt =====
-- The bytes of a file (riscv-os/kernel/fs.c), and the reading of a part of one block.
use os.Common.{
  ℕ, ◌+◌, ◌-◌, ◌*◌, ◌/◌, ◌%◌, ◌≤◌, ◌<◌, ◌≡◌, ◌≢◌, inl, inr, sym, ap, ◌∙◌, subst, fun_ext, arith,
  true, false, ◌&&◌, ltb, leb, Bool-cases, List, length, ok,
}
use os.Machine.{Machine, Buf, Block, Log, Inode, Above, bsize, nbuf, fssize}
use os.Bytes.{move_bytes}
use os.Bio.{bread, brelse}
use os.Fs.Inodes.{ndirect, maxfile, bmap}
use os.Fs.Contents.{chunk}
use os.Store.{IsOpen}
use os.Store.Sessions.{IsApart, bread-IsOpened}
use os.Store.Updates.{IsDone, IsDone-then, give_up_opened}
use os.Store.Reads.{addr_of, IsMapped, bmap-addr_of}

-- The bytes of a file, by offset.
abbrev pub file_bytes : Inode → (ℕ → Block) → Block
file_bytes x d j = d (addr_of x d (j / bsize)) (j % bsize)

-- The first `size` bytes of the file in place `ip` are on the disk, in blocks that are not out.
pub record IsFile (s : Machine) (out : List ℕ) (ip size : ℕ) : Type 0 where
  pub mapped : IsMapped s out ip
  pub short : size ≤ maxfile * bsize
  pub blocks :
      (bn : ℕ)
      → bn * bsize < size
      → (addr_of (s.inode ip) s.ramdisk bn ≢ 0)
        × (addr_of (s.inode ip) s.ramdisk bn < fssize)
        × IsApart s out (addr_of (s.inode ip) s.ramdisk bn)

-- What has been done without change leaves the file.
module _ (s t : Machine) (out : List ℕ) (ip : ℕ) (r : IsDone s out s.ramdisk t) where
  IsApart-same : (b : ℕ) → IsApart s out b → IsApart t out b
  IsApart-same b apart j m e = apart j m (ap (λ (c : Buf). c.blockno) (sym (r.kept j m)) ∙ e)

  inode_same : t.inode ip ≡ s.inode ip
  inode_same = ap (λ (a : Above). a.inode ip) r.above_eq

  pub file_same : file_bytes (t.inode ip) t.ramdisk ≡ file_bytes (s.inode ip) s.ramdisk
  file_same =
      ap (λ (x : Inode). file_bytes x t.ramdisk) inode_same ∙ ap (file_bytes (s.inode ip)) r.ramdisk

  addr_same : (bn : ℕ) → addr_of (t.inode ip) t.ramdisk bn ≡ addr_of (s.inode ip) s.ramdisk bn
  addr_same bn =
      ap (λ (x : Inode). addr_of x t.ramdisk bn) inode_same
      ∙ ap (λ (d : ℕ → Block). addr_of (s.inode ip) d bn) r.ramdisk

  pub IsFile-same : (size : ℕ) → IsFile s out ip size → IsFile t out ip size
  IsFile-same size f = record {
    mapped = record {
      dev_eq =
          ap (λ (x : Inode). x.dev) inode_same
          ∙ f.mapped.dev_eq
          ∙ ap (λ (l : Log). l.dev) (sym r.log);
      indirect =
          subst
            (λ (x : Inode).
              x.addrs ndirect ≢ 0 → (x.addrs ndirect < fssize) × IsApart t out (x.addrs ndirect))
            (sym inode_same) (λ ne. let (a, b) = f.mapped.indirect ne in (a, IsApart-same _ b));
    };
    short = f.short;
    blocks = λ bn h.
        subst (λ a. (a ≢ 0) × (a < fssize) × IsApart t out a) (sym (addr_same bn))
          (let (a, b, c) = f.blocks bn h in (a, b, IsApart-same _ c));
  }

-- Two copies behind each other, of bytes that are in one array, are one copy.
pub move_bytes-join :
    (mem : Block) (d : ℕ) (src1 src2 : Block) (f1 f2 m r : ℕ)
    → m ≤ r
    → ((x : ℕ) → x < m → src1 (f1 + x) ≡ src2 (f2 + x))
    → move_bytes (move_bytes mem d src1 f1 m) (d + m) src2 (f2 + m) (r - m)
      ≡ move_bytes mem d src2 f2 r
unfolding move_bytes
move_bytes-join mem d src1 src2 f1 f2 m r h same = fun_ext λ j.
    elim (Bool-cases (leb (d + m) j && ltb j (d + m + (r - m)))) [
      | inl late ↦
          let both : (leb d j && ltb j (d + r)) ≡ true = ground arith in
          let place : f2 + m + (j - (d + m)) ≡ f2 + (j - d) = ground arith in
          rw (late, both) (ap src2 place)
      | inr early ↦ elim (Bool-cases (leb d j && ltb j (d + m))) [
        | inl first ↦
            let both : (leb d j && ltb j (d + r)) ≡ true = ground arith in
            rw (early, first, both) (same (j - d) (ground arith))
        | inr outside ↦
            let neither : (leb d j && ltb j (d + r)) ≡ false = ground arith in
            rw (early, outside, neither)
      ]
    ]

pub move_bytes-none : (mem : Block) (d : ℕ) (src : Block) (f : ℕ) → move_bytes mem d src f 0 ≡ mem
unfolding move_bytes
move_bytes-none mem d src f = fun_ext λ j. ground arith

-- The bytes of one block of a file.
pub block_bytes :
    (x : Inode) (d : ℕ → Block) (off m k : ℕ)
    → k < m
    → off % bsize + m ≤ bsize
    → d (addr_of x d (off / bsize)) (off % bsize + k) ≡ file_bytes x d (off + k)
block_bytes x d off m k h inside =
    let block : off / bsize ≡ (off + k) / bsize = omega arith in
    let place : off % bsize + k ≡ (off + k) % bsize = omega arith in
    ap (λ n. d (addr_of x d n) (off % bsize + k)) block
    ∙ ap (d (addr_of x d ((off + k) / bsize))) place

-- The bytes of a round: one at least, and no more than are left in the block.
pub chunk_bounds :
    (off left : ℕ)
    → 0 < left
    → (0 < chunk off left) × (chunk off left ≤ left) × (off % bsize + chunk off left ≤ bsize)
chunk_bounds off left h = (ground arith, ground arith, ground arith)

-- bmap, bread and brelse of a block of the file.
pub read_block :
    (s : Machine) (out : List ℕ) (ip bn size : ℕ)
    → IsOpen s out
    → IsFile s out ip size
    → length out < nbuf
    → bn * bsize < size
    → (i : ℕ) × (t u v : Machine) × (bmap ip bn false s ≡ ok (addr_of (s.inode ip) s.ramdisk bn) t)
      × (bread (t.inode ip).dev (addr_of (s.inode ip) s.ramdisk bn) t ≡ ok i u)
      × (brelse i u ≡ ok tt v)
      × ((u.buf i).bytes ≡ s.ramdisk (addr_of (s.inode ip) s.ramdisk bn))
      × IsDone s out s.ramdisk v
read_block s out ip bn size o f room below =
    let addr = addr_of (s.inode ip) s.ramdisk bn in
    let bound = f.short in
    let (nz, inside, apart) = f.blocks bn below in
    let (t, run1, d1) = (bmap-addr_of s out ip bn o f.mapped room).0 (omega arith) in
    let (i, u, run2, r) =
      bread-IsOpened t out addr d1.is_open inside (IsApart-same s t out ip d1 addr apart) room in
    let (v, run3, d3) = give_up_opened t u out addr i r in
    (
      i,
      t,
      u,
      v,
      run1,
      subst (λ d. bread d addr t ≡ ok i u) (sym (IsFile-same s t out ip d1 size f).mapped.dev_eq)
          run2,
      run3,
      r.bytes ∙ ap (λ (d : ℕ → Block). d addr) d1.ramdisk,
      IsDone-then s t v out s.ramdisk s.ramdisk d1
          (subst (λ (d : ℕ → Block). IsDone t out d v) d1.ramdisk d3),
    )

-- A round and the rounds behind it.
