-- ===== src/Store/Files.antt =====
-- readi (riscv-os/kernel/fs.c) outside a transaction: a file as an array of bytes.
use Prim.Native.Nat.{min}
use os.Common.{
  ℕ, zero, suc, ◌+◌, ◌-◌, ◌/◌, ◌%◌, ◌^◌, ◌≤◌, ◌<◌, ◌≡◌, ◌⊎◌, inl, inr, sym, ap, ◌∙◌, subst, arith,
  true, false, ◌||◌, ◌==◌, ltb, ne→==, Bool-cases, List, length, ok,
}
use os.Machine.{Machine, Block, Inode, bsize, nbuf}
use os.Bytes.{move_bytes}
use os.Bio.{bread, brelse}
use os.Fs.Inodes.{bmap}
use os.Fs.Contents.{chunk, clip, readi_loop, readi}
use os.Store.{IsOpen}
use os.Store.Updates.{IsDone, IsDone-none, IsDone-then}
use os.Store.Reads.{addr_of}
use os.Store.Content.{
  file_bytes, IsFile, file_same, IsFile-same, move_bytes-join, move_bytes-none, block_bytes,
  chunk_bounds, read_block,
}

rounds_join :
    (x : Inode) (d : ℕ → Block) (mem : Block) (dst off n tot m : ℕ)
    → m ≤ n - tot
    → off % bsize + m ≤ bsize
    → move_bytes
        (move_bytes mem (dst + tot) (d (addr_of x d (off / bsize))) (off % bsize) m)
        (dst + (tot + m))
        (file_bytes x d)
        (off + m)
        (n - (tot + m))
      ≡ move_bytes mem (dst + tot) (file_bytes x d) off (n - tot)
rounds_join x d mem dst off n tot m fits within =
    let place : dst + (tot + m) ≡ dst + tot + m = omega arith in
    let left : n - (tot + m) ≡ n - tot - m = omega arith in
    let once = move_bytes mem (dst + tot) (d (addr_of x d (off / bsize))) (off % bsize) m in
    ap (λ p. move_bytes once p (file_bytes x d) (off + m) (n - (tot + m))) place
    ∙ ap (λ k. move_bytes once (dst + tot + m) (file_bytes x d) (off + m) k) left
    ∙ move_bytes-join mem (dst + tot) (d (addr_of x d (off / bsize))) (file_bytes x d) (off % bsize)
        off m (n - tot) fits (λ k h. block_bytes x d off m k h within)

-- One round.
readi_loop-round :
    (rounds : ℕ) (s t u v : Machine) (ip i addr : ℕ) (mem : Block) (dst off n tot : ℕ)
    → ltb tot n ≡ true
    → bmap ip (off / bsize) false s ≡ ok addr t
    → (addr == 0) ≡ false
    → bread (t.inode ip).dev addr t ≡ ok i u
    → brelse i u ≡ ok tt v
    → readi_loop (suc rounds) ip mem dst off n tot s
      ≡ readi_loop rounds ip
          (move_bytes mem (dst + tot) (u.buf i).bytes (off % bsize) (chunk off (n - tot)))
          dst
          ((off + chunk off (n - tot)) % 2 ^ 32)
          n
          (tot + chunk off (n - tot))
          v
unfolding readi_loop
readi_loop-round rounds s t u v ip i addr mem dst off n tot going run1 nz run2 run3 =
    rw (going, run1, nz, run2, run3)

readi_loop-copies :
    (rounds : ℕ) (s : Machine) (out : List ℕ) (ip size : ℕ) (mem : Block) (dst off n tot : ℕ)
    → IsOpen s out
    → IsFile s out ip size
    → length out < nbuf
    → n - tot < rounds
    → off + (n - tot) ≤ size
    → (t : Machine) × (readi_loop rounds ip mem dst off n tot s
        ≡ ok (move_bytes mem (dst + tot) (file_bytes (s.inode ip) s.ramdisk) off (n - tot)) t)
      × IsDone s out s.ramdisk t
unfolding readi_loop
readi_loop-copies zero s out ip size mem dst off n tot o f room more below = absurd (omega arith)
readi_loop-copies (suc rounds) s out ip size mem dst off n tot o f room more below =
    elim (Bool-cases (ltb tot n)) [
      | inr done ↦
          let none : n - tot ≡ 0 = ground arith in
          (
            s,
            rw (done, none)
                (ap (λ v. ok v s)
                  (sym (move_bytes-none mem (dst + tot) (file_bytes (s.inode ip) s.ramdisk) off))),
            IsDone-none s out o,
          )
      | inl going ↦
          let m = chunk off (n - tot) in
          let bn = off / bsize in
          let addr = addr_of (s.inode ip) s.ramdisk bn in
          let (some_bytes, fits, within) = chunk_bounds off (n - tot) (ground arith) in
          let (i, t, u, v, run1, run2, run3, bytes, done) =
            read_block s out ip bn size o f room (ground arith) in
          let nz = ne→== addr 0 (f.blocks bn (ground arith)).0 in
          let bound = f.short in
          let next : (off + m) % 2 ^ 32 ≡ off + m = omega arith in
          let (w, run4, d4) =
            readi_loop-copies rounds v out ip size
              (move_bytes mem (dst + tot) (s.ramdisk addr) (off % bsize) m) dst (off + m) n
              (tot + m) done.is_open (IsFile-same s v out ip done size f) room (omega arith)
              (omega arith) in
          (
            w,
            readi_loop-round rounds s t u v ip i addr mem dst off n tot going run1 nz run2 run3
                ∙ ap
                    (λ (x : Block).
                      readi_loop rounds ip (move_bytes mem (dst + tot) x (off % bsize) m) dst
                        ((off + m) % 2 ^ 32) n (tot + m) v)
                    bytes
                ∙ ap
                    (λ p.
                      readi_loop rounds ip
                        (move_bytes mem (dst + tot) (s.ramdisk addr) (off % bsize) m) dst p n
                        (tot + m) v)
                    next
                ∙ run4
                ∙ ap
                    (λ (g : Block).
                      ok
                        (move_bytes (move_bytes mem (dst + tot) (s.ramdisk addr) (off % bsize) m)
                          (dst + (tot + m)) g (off + m) (n - (tot + m)))
                        w)
                    (file_same s v out ip done)
                ∙ ap (λ (g : Block). ok g w)
                    (rounds_join (s.inode ip) s.ramdisk mem dst off n tot m fits within),
            IsDone-then s v w out s.ramdisk s.ramdisk done
                (subst (λ (d : ℕ → Block). IsDone v out d w) done.ramdisk d4),
          )
    ]

-- An offset behind the end of the file, or a range that ends behind the last 32-bit offset, gives no
-- bytes.
pub readi-outside :
    (s : Machine) (ip : ℕ) (mem : Block) (dst off n : ℕ)
    → ((s.inode ip).size < off) ⊎ (2 ^ 32 ≤ off + n)
    → off < 2 ^ 32
    → n < 2 ^ 32
    → readi ip mem dst off n s ≡ ok (record { count = 0; memory = mem }) s
unfolding readi
readi-outside s ip mem dst off n away small count =
    let outside : (ltb (s.inode ip).size off || ltb ((off + n) % 2 ^ 32) off) ≡ true =
      ground arith in
    rw outside

-- What readi gives when it copies `count` bytes.
abbrev Copies : Machine → List ℕ → ℕ → Block → ℕ → ℕ → ℕ → ℕ → Type 0
Copies s out ip mem dst off n count =
    (t : Machine) × (readi ip mem dst off n s
      ≡ ok
          (record {
            count = count;
            memory = move_bytes mem dst (file_bytes (s.inode ip) s.ramdisk) off count;
          })
          t)
    × IsDone s out s.ramdisk t

readi-clip :
    (s : Machine) (out : List ℕ) (ip : ℕ) (mem : Block) (dst off n : ℕ)
    → IsOpen s out
    → IsFile s out ip (s.inode ip).size
    → length out < nbuf
    → off ≤ (s.inode ip).size
    → off + n < 2 ^ 32
    → Copies s out ip mem dst off n (clip off n (s.inode ip).size)
unfolding readi
readi-clip s out ip mem dst off n o f room inside small =
    let size = (s.inode ip).size in
    let c = clip off n size in
    let place : dst + 0 ≡ dst = omega arith in
    let left : c - 0 ≡ c = omega arith in
    let here : (ltb size off || ltb ((off + n) % 2 ^ 32) off) ≡ false = ground arith in
    let (t, run, done) =
      readi_loop-copies (suc c) s out ip size mem dst off c 0 o f room (omega arith)
        (ground arith) in
    (
      t,
      rw (here, run)
          (ap (λ (g : Block). ok (record { count = c; memory = g }) t)
            (ap (λ k. move_bytes mem k (file_bytes (s.inode ip) s.ramdisk) off (c - 0)) place
              ∙ ap (move_bytes mem dst (file_bytes (s.inode ip) s.ramdisk) off) left)),
      done,
    )

-- readi outside a transaction, at an offset in a file whose bytes are on the disk in blocks that
-- are not out: it returns, has copied the bytes of the file from the offset on, as many as are
-- wanted and as the file has, and has changed nothing else. The range ends before 2 ^ 32.
pub readi-copies :
    (s : Machine) (out : List ℕ) (ip : ℕ) (mem : Block) (dst off n : ℕ)
    → IsOpen s out
    → IsFile s out ip (s.inode ip).size
    → length out < nbuf
    → off ≤ (s.inode ip).size
    → off + n < 2 ^ 32
    → (t : Machine) × (readi ip mem dst off n s
        ≡ ok
            (record {
              count = min n ((s.inode ip).size - off);
              memory =
                  move_bytes mem dst
                    (file_bytes (s.inode ip) s.ramdisk)
                    off
                    (min n ((s.inode ip).size - off));
            })
            t)
      × IsDone s out s.ramdisk t
readi-copies s out ip mem dst off n o f room inside small =
    let count : clip off n (s.inode ip).size ≡ min n ((s.inode ip).size - off) = ground arith in
    subst (Copies s out ip mem dst off n) count
      (readi-clip s out ip mem dst off n o f room inside small)
