-- ===== src/FsDebug/Balance.antt =====
-- count_free_blocks (riscv-os/kernel/fs_debug.c) and balloc (riscv-os/kernel/fs.c).
use os.Common.{
  ℕ, zero, suc, ◌+◌, ◌-◌, ◌<◌, ◌≤◌, ◌≡◌, ◌⊎◌, inl, inr, refl, sym, ap, ◌∙◌, subst, arith, Bool,
  true, false, not, ◌&&◌, ◌==◌, ltb, Bool-cases, ==→eq, [], ok, panic, hit, miss,
}
use os.Machine.{Machine, Log, Above, Superblock}
use os.Fs.Bitmap.{balloc}
use os.Fs.Directories.{rootdev}
use os.Store.{IsOpen}
use os.Store.Blocks.{is_free, IsBitmap}
use os.Store.Free.{balloc-IsTaken}
use os.FsDebug.{calc_datastart, count_free_blocks}
use os.FsDebug.Looks.{IsMarked}
use os.FsDebug.Counts.{count, count_free_blocks-count}

count-none :
    (test : ℕ → Bool) (n i : ℕ)
    → ((j : ℕ) → i ≤ j → j < i + n → test j ≡ false)
    → count test n i ≡ 0
count-none test zero i h = refl
count-none test (suc n) i h =
    let none_here : test i ≡ false = h i (omega arith) (omega arith) in
    let rest = count-none test n (i + 1) (λ j a b. h j (omega arith) (omega arith)) in
    rw none_here (omega (arith, rest))

count-same :
    (test other : ℕ → Bool) (n i : ℕ)
    → ((j : ℕ) → i ≤ j → test j ≡ other j)
    → count test n i ≡ count other n i
count-same test other zero i h = refl
count-same test other (suc n) i h =
    let rest = count-same test other n (i + 1) (λ j a. h j (omega arith)) in
    rw (h i (omega arith), rest)

-- One number less that passes.
count-taken :
    (test : ℕ → Bool) (b n i : ℕ)
    → test b ≡ true
    → i ≤ b
    → b < i + n
    → count test n i ≡ suc (count (λ j. not (j == b) && test j) n i)
count-taken test b zero i h low below = absurd (omega arith)
count-taken test b (suc n) i h low below = elim (Bool-cases (i == b)) [
  | inl same ↦
      let e : i ≡ b = ==→eq i b same in
      let here : test i ≡ true = ap test e ∙ h in
      let rest : count test n (i + 1) ≡ count (λ j. not (j == b) && test j) n (i + 1) =
        count-same test (λ j. not (j == b) && test j) n (i + 1) (λ j a. ground arith) in
      rw (here, same) (omega (arith, rest))
  | inr other ↦
      let rest = count-taken test b n (i + 1) h (ground arith) (ground arith) in
      rw other (omega (arith, rest))
]

Marked-of : (s : Machine) → IsBitmap s → IsMarked s.sb
Marked-of s m = record { size = m.size; inside = m.inside }

-- The count in a state with the same superblock, over any description of its free blocks.
recount :
    (s t : Machine)
    → IsOpen t []
    → IsMarked s.sb
    → s.log.dev ≡ rootdev
    → t.sb ≡ s.sb
    → t.log ≡ s.log
    → (u : Machine) × (count_free_blocks t
        ≡ ok (count (is_free t) (s.sb.size - calc_datastart s.sb) (calc_datastart s.sb)) u)
recount s t o mark dev_eq sb log =
    let (u, run, _) =
      count_free_blocks-count t o (subst IsMarked (sym sb) mark)
        (ap (λ (l : Log). l.dev) log ∙ dev_eq) in
    (
      u,
      subst
          (λ (x : Superblock).
            count_free_blocks t
            ≡ ok (count (is_free t) (x.size - calc_datastart x) (calc_datastart x)) u)
          sb run,
    )

-- Outside a transaction with no buffer out, on the root device: if balloc returns, the count of
-- free blocks has been one more before than it is after, and if it panics, it was 0. The bitmap is
-- one block, and marks the metadata and itself as used.
pub balloc-count_free_blocks :
    (s : Machine)
    → IsOpen s []
    → IsBitmap s
    → s.log.dev ≡ rootdev
    → ((j : ℕ) → j < calc_datastart s.sb → is_free s j ≡ false)
    → ((b : ℕ) × (n : ℕ) × (t : Machine) × (u : Machine) × (v : Machine) × (balloc s.log.dev s
          ≡ ok b t)
        × (count_free_blocks s ≡ ok (suc n) u)
        × (count_free_blocks t ≡ ok n v))
      ⊎ ((u : Machine) × (balloc s.log.dev s ≡ panic "balloc: out of blocks")
          × (count_free_blocks s ≡ ok 0 u))
balloc-count_free_blocks s o m dev_eq metadata =
    let from = calc_datastart s.sb in
    let n = s.sb.size - from in
    let (u, before, _) = count_free_blocks-count s o (Marked-of s m) dev_eq in
    elim (balloc-IsTaken s [] o m (λ j m. cc) (omega arith)) [
      | inl (b, t, hit _ _ below free _, run, k) ↦
          let low : from ≤ b = elim (Bool-cases (ltb b from)) [
            | inl under ↦ absurd (cc (free, metadata b (ground arith)))
            | inr over ↦ ground arith
          ] in
          let (v, after) =
            recount s t k.is_open (Marked-of s m) dev_eq (ap (λ (a : Above). a.sb) k.above_eq)
              k.log in
          let one_less : count (is_free s) n from ≡ suc (count (is_free t) n from) =
            count-taken (is_free s) b n from free low (omega arith)
            ∙ ap suc (
                count-same (λ j. not (j == b) && is_free s j) (is_free t) n from
                  (λ j h. sym (k.free j))) in
          inl (b, count (is_free t) n from, t, u, v, run, before ∙ ap (λ x. ok x u) one_less, after)
      | inr (miss none_free, fails) ↦
          let zero_free : count (is_free s) n from ≡ 0 =
            count-none (is_free s) n from (λ j a c. none_free j (omega arith) (omega arith)) in
          inr (u, fails, before ∙ ap (λ x. ok x u) zero_free)
    ]
