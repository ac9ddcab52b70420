-- ===== src/Log/Write.antt =====
-- log_write: outside a transaction it writes through; inside one it saves a copy in the log.
use os.Common.{
  ℕ, ◌+◌, ◌≤◌, ◌<◌, ◌≡◌, ◌≢◌, ap, ◌∙◌, subst, true, false, List, arith, ◌==◌, leb, le→ltb, ==→eq,
  ==→ne, eq→==, ltb, refl, ◌^◌, ◌||◌, Bool-cases, inl, inr, ◌⊎◌, if◌then◌else◌, update, ◌∈◌, Run,
  ok, panic, and_then,
}
use os.Machine.{Machine, LogHeader, logsize}
use os.Bio.Cache.{IsCache}
use os.Bio.Read.{IsReadable}
use os.Log.Header.{IsEntry, find_entry_lem}
use os.Log.{set_header, find_entry, enter_block, copy_to_log, log_write}
use os.Log.Copies.{IsCopied, copy_to_log-IsCopied}

-- The header with an entry `k` for the block, if `k` is behind the last entry.
abbrev pub enter : ℕ → ℕ → LogHeader → LogHeader
enter k blockno lh =
    if k == lh.n then record { n = lh.n + 1; block = update lh.block k blockno } else lh

-- The log can take one more block.
abbrev pub HasRoom : Machine → Type 0
HasRoom s = (s.log.lh.n < s.log.size) × (s.log.size < 2 ^ 31) × (s.log.lh.n < logsize)

-- Place `k` is the one for the block of buffer `i` in the header.
abbrev pub IsPlace : Machine → ℕ → ℕ → Type 0
IsPlace s i k = IsEntry s.log.lh.n (s.buf i).blockno s.log.lh.block k

-- The block has one place.
IsEntry-sole :
    (n blockno : ℕ) (block : ℕ → ℕ) (k l : ℕ)
    → IsEntry n blockno block k
    → IsEntry n blockno block l
    → k ≡ l
IsEntry-sole n blockno block k l e f = elim (Bool-cases (ltb k l)) [
  | inl less ↦
      let below : k < l = ground arith in
      absurd (f.earlier k below (e.hit (omega (arith, f.below))))
  | inr more ↦ elim (Bool-cases (ltb l k)) [
    | inl less ↦
        let below : l < k = ground arith in
        absurd (e.earlier l below (f.hit (omega (arith, e.below))))
    | inr same ↦ ground arith
  ]
]

pub find_entry-IsPlace :
    (s : Machine) (i k : ℕ)
    → IsPlace s i k
    → find_entry s.log.lh.n 0 (s.buf i).blockno s.log.lh.block ≡ k
find_entry-IsPlace s i k e =
    IsEntry-sole s.log.lh.n (s.buf i).blockno s.log.lh.block
      (find_entry s.log.lh.n 0 (s.buf i).blockno s.log.lh.block) k
      (find_entry_lem s.log.lh.n (s.buf i).blockno s.log.lh.block) e

enter_block_lem :
    (k blockno : ℕ) (s : Machine)
    → (k ≡ s.log.lh.n → HasRoom s)
    → enter_block k blockno s ≡ ok tt (set_header (enter k blockno s.log.lh) s)
unfolding enter_block
enter_block_lem k blockno s room = elim (Bool-cases (k == s.log.lh.n)) [
  | inl same ↦
      let (a, small, b) = room (==→eq k s.log.lh.n same) in
      rw (
        same,
        lt→leb_false s.log.lh.n s.log.size a,
        lt→leb_false s.log.size (2 ^ 31) small,
        lt→leb_false s.log.lh.n logsize b,
      )
  | inr other ↦ rw other
]
  where
    lt→leb_false : (a b : ℕ) → a < b → leb b a ≡ false
    lt→leb_false a b h = ground arith

-- How log_write goes on when the place is known.
module _ (i k : ℕ) (s : Machine) (busy : 0 < s.log.outstanding) (place : IsPlace s i k) where
  log_write_inside :
      log_write i s ≡ and_then (enter_block k (s.buf i).blockno s) (λ _. copy_to_log k i)
  unfolding log_write
  log_write_inside = rw (le→ltb s.log.outstanding 1 (omega arith)) (
      ap (λ l. and_then (enter_block l (s.buf i).blockno s) (λ _. copy_to_log l i))
        (find_entry-IsPlace s i k place))

-- Inside a transaction, log_write on a buffer that is out returns, and puts a copy of it into the
-- log's data block for the block's place in the header: the first entry that is for the block, or
-- else a new one behind the last, for which the log must have room. It records the block there,
-- writes nowhere else on the disk, and leaves the buffer out with its bytes. The log's data block
-- must be readable.
pub log_write-IsCopied :
    (i k : ℕ) (s : Machine) (order : List ℕ)
    → IsCache s order
    → i ∈ order
    → (s.buf i).lock.locked ≡ true
    → 0 < s.log.outstanding
    → IsPlace s i k
    → (k ≡ s.log.lh.n → HasRoom s)
    → IsReadable s order s.log.dev (s.log.start + 1 + k)
    → (t : Machine) × (after : List ℕ) × (log_write i s ≡ ok tt t)
      × IsCopied (set_header (enter k (s.buf i).blockno s.log.lh) s) i (s.log.start + 1 + k) t after
log_write-IsCopied i k s order c m held busy place room r =
    let blockno = (s.buf i).blockno in
    let s1 = set_header (enter k blockno s.log.lh) s in
    let (t, after, run, copied) =
      copy_to_log-IsCopied k i s1 order (record { lock_free = c.lock_free; bufs = c.bufs }) m held
        (record { used = r.used; inside = r.inside; back = r.back; spare = r.spare }) in
    (
      t,
      after,
      log_write_inside i k s busy place
          ∙ ap (λ (x : Run Machine (Unit {0})). and_then x (λ _. copy_to_log k i))
              (enter_block_lem k blockno s room)
          ∙ run,
      copied,
    )

-- The block of buffer `i` has no entry, and there is no room for one.
abbrev pub HasNoPlace : Machine → ℕ → Type 0
HasNoPlace s i =
    ((j : ℕ) → j < s.log.lh.n → s.log.lh.block j ≢ (s.buf i).blockno)
    × ((s.log.size ≤ s.log.lh.n) ⊎ (2 ^ 31 ≤ s.log.size) ⊎ (logsize ≤ s.log.lh.n))

enter_fails :
    (s : Machine) (blockno : ℕ)
    → (s.log.size ≤ s.log.lh.n) ⊎ (2 ^ 31 ≤ s.log.size) ⊎ (logsize ≤ s.log.lh.n)
    → enter_block s.log.lh.n blockno s ≡ panic "log_write: log full"
unfolding enter_block
enter_fails s blockno full =
    let test : (leb s.log.size s.log.lh.n || leb (2 ^ 31) s.log.size || leb logsize s.log.lh.n)
        ≡ true =
      ground arith in
    rw (eq→== s.log.lh.n s.log.lh.n refl, test) refl

no_room :
    (s : Machine)
    → HasRoom s
    → (s.log.size ≤ s.log.lh.n) ⊎ (2 ^ 31 ≤ s.log.size) ⊎ (logsize ≤ s.log.lh.n)
    → ⊥
no_room s room full = omega arith

full_fails :
    (i : ℕ) (s : Machine)
    → 0 < s.log.outstanding
    → IsPlace s i s.log.lh.n
    → (s.log.size ≤ s.log.lh.n) ⊎ (2 ^ 31 ≤ s.log.size) ⊎ (logsize ≤ s.log.lh.n)
    → log_write i s ≡ panic "log_write: log full"
full_fails i s busy place full =
    log_write_inside i s.log.lh.n s busy place
    ∙ ap (λ (x : Run Machine (Unit {0})). and_then x (λ _. copy_to_log s.log.lh.n i))
        (enter_fails s (s.buf i).blockno full)

room_cases :
    (s : Machine)
    → HasRoom s ⊎ ((s.log.size ≤ s.log.lh.n) ⊎ (2 ^ 31 ≤ s.log.size) ⊎ (logsize ≤ s.log.lh.n))
room_cases s = omega arith

-- Inside a transaction, log_write on a buffer that is out panics if its block has no entry in the
-- header and the header has as many entries as the log's size or LOGSIZE, or the log's size is
-- negative; it returns in every other case. The log's data block for the block must be readable.
pub log_write-full :
    (i : ℕ) (s : Machine) (order : List ℕ)
    → IsCache s order
    → i ∈ order
    → (s.buf i).lock.locked ≡ true
    → 0 < s.log.outstanding
    → ((k : ℕ) → IsPlace s i k → IsReadable s order s.log.dev (s.log.start + 1 + k))
    → (HasNoPlace s i × (log_write i s ≡ panic "log_write: log full"))
      ⊎ (¬ (HasNoPlace s i) × (t : Machine) × (log_write i s ≡ ok tt t))
log_write-full i s order c m held busy readable =
    let k = find_entry s.log.lh.n 0 (s.buf i).blockno s.log.lh.block in
    let place = find_entry_lem s.log.lh.n (s.buf i).blockno s.log.lh.block in
    elim (Bool-cases (k == s.log.lh.n)) [
      | inr old ↦
          let ne : k ≢ s.log.lh.n = ==→ne k s.log.lh.n old in
          let (t, _, run, _) =
            log_write-IsCopied i k s order c m held busy place (λ e. absurd (ne e))
              (readable k place) in
          let below : k < s.log.lh.n = omega (arith, place.below, ne) in
          inr (λ full. full.0 k below (place.hit below), t, run)
      | inl new ↦
          let e : k ≡ s.log.lh.n = ==→eq k s.log.lh.n new in
          elim (room_cases s) [
            | inl room ↦
                let (t, _, run, _) =
                  log_write-IsCopied i k s order c m held busy place (λ _. room)
                    (readable k place) in
                inr (λ full. no_room s room full.1, t, run)
            | inr full ↦ inl (
              (λ j h. place.earlier j (omega (arith, e)), full),
              full_fails i s busy (subst (IsPlace s i) e place) full,
            )
          ]
    ]
