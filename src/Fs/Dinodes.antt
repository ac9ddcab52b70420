-- ===== src/Fs/Dinodes.antt =====
-- Inodes on the disk and in memory (riscv-os/kernel/fs.c: iupdate, ilock).
use os.Common.{
  ℕ, zero, suc, ◌+◌, ◌*◌, ◌%◌, ◌^◌, ◌≤◌, ◌<◌, ◌≡◌, inl, inr, refl, ◌∙◌, subst, arith, ◌==◌, ltb,
  leb, ◌&&◌, if◌then◌else◌, Bool-cases, update,
}
use os.Machine.{Block, Inode}
use os.Bytes.{get16, set16, get32, set32, get32-set32, get32-set32_apart}
use os.Bytes.Halves.{get16-set16, get16-set16_apart, get16-set32_apart}
use os.Fs.Inodes.{ndirect, store_addrs, load_addrs, store_dinode, load_dinode}

-- The place of `addrs[i]` in the dinode at `o`.
abbrev pub addr_at : ℕ → ℕ → ℕ
addr_at o i = o + 12 + 4 * i

-- The stores leave the fields before them.
store_addrs-get16 :
    (rounds i : ℕ) (addrs : ℕ → ℕ) (o : ℕ) (b : Block) (p : ℕ)
    → p + 2 ≤ addr_at o i
    → get16 (store_addrs rounds i addrs o b) p ≡ get16 b p
unfolding store_addrs
store_addrs-get16 zero i addrs o b p h = refl
store_addrs-get16 (suc rounds) i addrs o b p h =
    store_addrs-get16 rounds (i + 1) addrs o (set32 b (addr_at o i) (addrs i)) p (omega arith)
    ∙ get16-set32_apart b p (addr_at o i) (addrs i) (inl h)

store_addrs-get32 :
    (rounds i : ℕ) (addrs : ℕ → ℕ) (o : ℕ) (b : Block) (p : ℕ)
    → p + 4 ≤ addr_at o i
    → get32 (store_addrs rounds i addrs o b) p ≡ get32 b p
unfolding store_addrs
store_addrs-get32 zero i addrs o b p h = refl
store_addrs-get32 (suc rounds) i addrs o b p h =
    store_addrs-get32 rounds (i + 1) addrs o (set32 b (addr_at o i) (addrs i)) p (omega arith)
    ∙ get32-set32_apart b p (addr_at o i) (addrs i) (inl h)

store_addrs-at :
    (rounds i : ℕ) (addrs : ℕ → ℕ) (o : ℕ) (b : Block) (j : ℕ)
    → i ≤ j
    → j < i + rounds
    → get32 (store_addrs rounds i addrs o b) (addr_at o j) ≡ addrs j % 2 ^ 32
unfolding store_addrs
store_addrs-at zero i addrs o b j h k = absurd (omega arith)
store_addrs-at (suc rounds) i addrs o b j h k = elim (Bool-cases (j == i)) [
  | inl same ↦
      (let e : i ≡ j = ground arith in
        subst (λ m. get32 (store_addrs (suc rounds) i addrs o b) (addr_at o m) ≡ addrs m % 2 ^ 32) e
          (store_addrs-get32 rounds (i + 1) addrs o (set32 b (addr_at o i) (addrs i)) (addr_at o i)
              (omega arith)
            ∙ get32-set32 b (addr_at o i) (addrs i)))
  | inr other ↦
      store_addrs-at rounds (i + 1) addrs o (set32 b (addr_at o i) (addrs i)) j (ground arith)
        (omega arith)
]

load_addrs-at :
    (rounds i : ℕ) (b : Block) (o : ℕ) (addrs : ℕ → ℕ) (j : ℕ)
    → load_addrs rounds i b o addrs j
      ≡ (if leb i j && ltb j (i + rounds) then get32 b (addr_at o j) else addrs j)
unfolding load_addrs
load_addrs-at zero i b o addrs j = ground arith
load_addrs-at (suc rounds) i b o addrs j =
    ground (arith, load_addrs-at rounds (i + 1) b o (update addrs i (get32 b (addr_at o i))) j)

-- The fields have the widths of the structure.
pub record IsNarrow (x : Inode) : Type 0 where
  pub type : x.type < 2 ^ 16
  pub major : x.major < 2 ^ 16
  pub minor : x.minor < 2 ^ 16
  pub nlink : x.nlink < 2 ^ 16
  pub size : x.size < 2 ^ 32
  pub addrs : (j : ℕ) → x.addrs j < 2 ^ 32

-- `z` has all that a dinode holds from `x`, and the rest from `y`.
pub record IsLoaded (x y z : Inode) : Type 0 where
  pub type : z.type ≡ x.type
  pub major : z.major ≡ x.major
  pub minor : z.minor ≡ x.minor
  pub nlink : z.nlink ≡ x.nlink
  pub size : z.size ≡ x.size
  pub addrs : (j : ℕ) → j < ndirect + 1 → z.addrs j ≡ x.addrs j
  pub rest :
      (z.dev ≡ y.dev)
      × (z.inum ≡ y.inum)
      × (z.ref ≡ y.ref)
      × (z.lock ≡ y.lock)
      × (z.valid ≡ y.valid)

-- What is in the block before the addresses are stored.
abbrev fixed : Inode → ℕ → Block → Block
fixed x o b =
    set32 (set16 (set16 (set16 (set16 b o x.type) (o + 2) x.major) (o + 4) x.minor) (o + 6) x.nlink)
      (o + 8) x.size

-- A field of 16 bits in the stored dinode.
stored_half :
    (x : Inode) (o : ℕ) (b : Block) (p : ℕ)
    → p + 2 ≤ o + 8
    → get16 (store_dinode x o b) p
      ≡ get16
          (set16 (set16 (set16 (set16 b o x.type) (o + 2) x.major) (o + 4) x.minor) (o + 6) x.nlink)
          p
unfolding store_dinode
stored_half x o b p h =
    store_addrs-get16 (ndirect + 1) 0 x.addrs o (fixed x o b) p (omega arith)
    ∙ get16-set32_apart _ p (o + 8) x.size (inl h)

stored_size : (x : Inode) (o : ℕ) (b : Block) → get32 (store_dinode x o b) (o + 8) ≡ x.size % 2 ^ 32
unfolding store_dinode
stored_size x o b =
    store_addrs-get32 (ndirect + 1) 0 x.addrs o (fixed x o b) (o + 8) (omega arith)
    ∙ get32-set32 _ (o + 8) x.size

loaded_addr :
    (x y : Inode) (o : ℕ) (b : Block) (j : ℕ)
    → j < ndirect + 1
    → load_addrs (ndirect + 1) 0 (store_dinode x o b) o y.addrs j ≡ x.addrs j % 2 ^ 32
unfolding store_dinode
loaded_addr x y o b j h =
    load_addrs-at (ndirect + 1) 0 (store_dinode x o b) o y.addrs j
    ∙ (ground arith)
    ∙ store_addrs-at (ndirect + 1) 0 x.addrs o (fixed x o b) j (omega arith) h

-- What iupdate stores in a block, ilock loads from there: the type, the device numbers, the links,
-- the size and the addresses; it leaves the other fields of the inode as they were. The inode that
-- is stored has fields of the structure's widths.
pub load-store_dinode :
    (x y : Inode) (o : ℕ) (b : Block)
    → IsNarrow x
    → IsLoaded x y (load_dinode (store_dinode x o b) o y)
unfolding load_dinode
load-store_dinode x y o b g = record {
  type =
      stored_half x o b o (omega arith)
      ∙ get16-set16_apart _ o (o + 6) x.nlink (inl (omega arith))
      ∙ get16-set16_apart _ o (o + 4) x.minor (inl (omega arith))
      ∙ get16-set16_apart _ o (o + 2) x.major (inl (omega arith))
      ∙ get16-set16 b o x.type
      ∙ (omega (arith, g.type));
  major =
      stored_half x o b (o + 2) (omega arith)
      ∙ get16-set16_apart _ (o + 2) (o + 6) x.nlink (inl (omega arith))
      ∙ get16-set16_apart _ (o + 2) (o + 4) x.minor (inl (omega arith))
      ∙ get16-set16 _ (o + 2) x.major
      ∙ (omega (arith, g.major));
  minor =
      stored_half x o b (o + 4) (omega arith)
      ∙ get16-set16_apart _ (o + 4) (o + 6) x.nlink (inl (omega arith))
      ∙ get16-set16 _ (o + 4) x.minor
      ∙ (omega (arith, g.minor));
  nlink =
      stored_half x o b (o + 6) (omega arith)
      ∙ get16-set16 _ (o + 6) x.nlink
      ∙ (omega (arith, g.nlink));
  size = stored_size x o b ∙ (omega (arith, g.size));
  addrs = λ j h. loaded_addr x y o b j h ∙ (omega (arith, g.addrs j));
  rest = (refl, refl, refl, refl, refl);
}
