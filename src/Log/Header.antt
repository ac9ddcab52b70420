-- ===== src/Log/Header.antt =====
-- The log's header on the disk, and the entries of a transaction.
use os.Common.{
  ℕ, zero, suc, ◌+◌, ◌%◌, ◌^◌, ◌≤◌, ◌<◌, ◌≡◌, ◌≢◌, inl, inr, refl, ◌∙◌, subst, arith, update, ◌==◌,
  leb, ltb, ◌&&◌, if◌then◌else◌, Bool-cases,
}
use os.Machine.{Block, LogHeader, logsize}
use os.Bytes.{get32, set32, get32-set32, get32-set32_apart}
use os.Log.{load_blocks, store_blocks, store_head, block_offset, find_entry}

-- The stores leave the words before them.
store_blocks-before :
    (rounds i : ℕ) (block : ℕ → ℕ) (hd : Block) (o : ℕ)
    → o + 4 ≤ block_offset i
    → get32 (store_blocks rounds i block hd) o ≡ get32 hd o
unfolding store_blocks
store_blocks-before zero i block hd o h = refl
store_blocks-before (suc rounds) i block hd o h =
    store_blocks-before rounds (i + 1) block (set32 hd (block_offset i) (block i)) o (omega arith)
    ∙ get32-set32_apart hd o (block_offset i) (block i) (inl h)

store_blocks-at :
    (rounds i : ℕ) (block : ℕ → ℕ) (hd : Block) (j : ℕ)
    → i ≤ j
    → j < i + rounds
    → get32 (store_blocks rounds i block hd) (block_offset j) ≡ block j % 2 ^ 32
unfolding store_blocks
store_blocks-at zero i block hd j h k = absurd (omega arith)
store_blocks-at (suc rounds) i block hd j h k = elim (Bool-cases (j == i)) [
  | inl same ↦
      (let e : i ≡ j = ground arith in
        subst
          (λ m. get32 (store_blocks (suc rounds) i block hd) (block_offset m) ≡ block m % 2 ^ 32) e
          (store_blocks-before rounds (i + 1) block (set32 hd (block_offset i) (block i))
              (block_offset i) (omega arith)
            ∙ get32-set32 hd (block_offset i) (block i)))
  | inr other ↦
      store_blocks-at rounds (i + 1) block (set32 hd (block_offset i) (block i)) j (ground arith)
        (omega arith)
]

load_blocks-at :
    (rounds i : ℕ) (hd : Block) (block : ℕ → ℕ) (j : ℕ)
    → load_blocks rounds i hd block j
      ≡ (if leb i j && ltb j (i + rounds) then get32 hd (block_offset j) else block j)
unfolding load_blocks
load_blocks-at zero i hd block j = ground arith
load_blocks-at (suc rounds) i hd block j =
    ground (arith, load_blocks-at rounds (i + 1) hd (update block i (get32 hd (block_offset i))) j)

-- The count that a header block holds.
pub store_head-count :
    (lh : LogHeader) (hd : Block) → lh.n ≤ logsize → get32 (store_head lh hd) 0 ≡ lh.n
unfolding store_head
store_head-count lh hd h =
    store_blocks-before lh.n 0 lh.block (set32 hd 0 lh.n) 0 (omega arith)
    ∙ get32-set32 hd 0 lh.n
    ∙ (omega arith)

-- What write_head puts into the header block, read_head reads back: the count and every entry below
-- it, if the count is at most LOGSIZE and the entries are 32-bit words.
pub load-store_head :
    (lh : LogHeader) (hd : Block) (block : ℕ → ℕ) (j : ℕ)
    → lh.n ≤ logsize
    → ((k : ℕ) → k < lh.n → lh.block k < 2 ^ 32)
    → j < lh.n
    → (get32 (store_head lh hd) 0 ≡ lh.n)
      × (load_blocks lh.n 0 (store_head lh hd) block j ≡ lh.block j)
unfolding store_head
load-store_head lh hd block j h words k = (
  store_head-count lh hd h,
  ground (
    arith,
    load_blocks-at lh.n 0 (store_head lh hd) block j,
    store_blocks-at lh.n 0 lh.block (set32 hd 0 lh.n) j,
    words j,
  ),
)

-- The search of log_write ends at the first entry for the block, or at the end.
pub record IsEntry (n blockno : ℕ) (block : ℕ → ℕ) (k : ℕ) : Type 0 where
  pub below : k ≤ n
  pub hit : k < n → block k ≡ blockno
  pub earlier : (j : ℕ) → j < k → block j ≢ blockno

find_entry_from :
    (rounds i n blockno : ℕ) (block : ℕ → ℕ)
    → i + rounds ≡ n
    → ((j : ℕ) → j < i → block j ≢ blockno)
    → IsEntry n blockno block (find_entry rounds i blockno block)
unfolding find_entry
find_entry_from zero i n blockno block e before = record {
  below = omega arith;
  hit = λ h. absurd (omega arith);
  earlier = before;
}
find_entry_from (suc rounds) i n blockno block e before = elim (Bool-cases (block i == blockno)) [
  | inl same ↦ rw same (record { below = omega arith; hit = λ h. ground arith; earlier = before })
  | inr other ↦ rw other (
      find_entry_from rounds (i + 1) n blockno block (omega arith)
        (λ j h. ground (arith, before j)))
]

pub find_entry_lem :
    (n blockno : ℕ) (block : ℕ → ℕ) → IsEntry n blockno block (find_entry n 0 blockno block)
find_entry_lem n blockno block =
    find_entry_from n 0 n blockno block (omega arith) (λ j h. absurd (omega arith))
