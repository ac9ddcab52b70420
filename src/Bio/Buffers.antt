-- ===== src/Bio/Buffers.antt =====
-- The invariant of the buffers of bio.c, and what keeps it.
use os.Common.{
  ℕ, ◌≤◌, ◌≡◌, ◌≢◌, ◌⊎◌, inl, inr, true, false, List, arith, length, ◌==◌, update, ◌∈◌, Bool-cases,
}
use os.Machine.{Buf, head, nbuf}
use os.Bio.{has_key}
use os.Bio.Ring.{Links-same, IsRing}

-- One flow of control: a buffer is locked while its one reference is out, and free otherwise.
abbrev pub IsCounted : Buf → Type 0
IsCounted b = (b.lock.locked ≡ true) × (b.refcnt ≡ 1) ⊎ (b.lock.locked ≡ false) × (b.refcnt ≡ 0)

-- The buffers between two calls of the cache.
pub record IsBuffers (buf : ℕ → Buf) (order : List ℕ) : Type 0 where
  pub ring : IsRing buf order
  pub size : length order ≤ nbuf
  pub inner_free : (i : ℕ) → i ∈ order → (buf i).lock.lk.locked ≡ false
  pub counted : (i : ℕ) → i ∈ order → IsCounted (buf i)
  -- At most one buffer is for a block. Device 0 marks a buffer that was never used.
  pub unique :
      (i j : ℕ)
      → i ∈ order
      → j ∈ order
      → (buf i).dev ≢ 0
      → (buf i).dev ≡ (buf j).dev
      → (buf i).blockno ≡ (buf j).blockno
      → i ≡ j

-- What a new value of buffer `i` has to keep.
pub record IsKept (buf : ℕ → Buf) (order : List ℕ) (i : ℕ) (b : Buf) : Type 0 where
  pub next : b.next ≡ (buf i).next
  pub prev : b.prev ≡ (buf i).prev
  pub inner : b.lock.lk.locked ≡ false
  pub count : IsCounted b
  pub sole : (j : ℕ) → j ∈ order → j ≢ i → has_key b.dev b.blockno (buf j) ≡ false

-- The key of a buffer that was used is no other buffer's.
pub sole_of_unique :
    (buf : ℕ → Buf) (order : List ℕ) (i : ℕ)
    → IsBuffers buf order
    → i ∈ order
    → (buf i).dev ≢ 0
    → (j : ℕ) → j ∈ order
    → j ≢ i
    → has_key (buf i).dev (buf i).blockno (buf j) ≡ false
sole_of_unique buf order i v m used j n ne = ground (arith, v.unique i j m n used)

-- A buffer may change its contents, its state and its key.
pub update-IsBuffers :
    (buf : ℕ → Buf) (order : List ℕ) (i : ℕ) (b : Buf)
    → IsBuffers buf order
    → IsKept buf order i b
    → IsBuffers (update buf i b) order
update-IsBuffers buf order i b v k = record {
  ring = record {
    links =
        Links-same buf (update buf i b) head order head (λ a. ground (arith, k.next))
          (λ a. ground (arith, k.prev)) v.ring.links;
    distinct = v.ring.distinct;
  };
  size = v.size;
  inner_free = λ j m. ground (arith, v.inner_free j m, k.inner);
  counted = λ j m. elim (Bool-cases (j == i)) [
    | inl same ↦ rw same k.count
    | inr other ↦ rw other (v.counted j m)
  ];
  unique = λ j l m n. ground (arith, v.unique j l m n, k.sole j m, k.sole l n);
}
