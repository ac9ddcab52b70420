-- ===== src/Fs/Unique.antt =====
-- An inode has one copy in the cache (riscv-os/kernel/fs.c: iget).
use os.Common.{
  ℕ, ◌+◌, ◌<◌, ◌≡◌, ◌≢◌, ◌⊎◌, inl, inr, refl, sym, ap, ◌∙◌, arith, true, false, ◌&&◌, ◌==◌, ltb,
  Bool-cases, Run, ok, panic, hit, miss,
}
use os.Machine.{Machine, Inode}
use os.Fs.Inodes.{ninode, iget}
use os.Fs.Cache.{holds, settled, shared, entered, Got, again, fresh, full, iget-Got}

-- No two places in use are for the same inode.
abbrev pub IsUnique : (ℕ → Inode) → Type 0
IsUnique inode =
    (dev inum i j : ℕ)
    → i < ninode
    → j < ninode
    → holds dev inum inode i ≡ true
    → holds dev inum inode j ≡ true
    → i ≡ j

-- A place is for the inode, and no other is.
pub record IsGot (dev inum : ℕ) (s : Machine) (i : ℕ) (t : Machine) : Type 0 where
  pub place : i < ninode
  pub here : holds dev inum t.inode i ≡ true
  pub unique : IsUnique t.inode

module _ (dev inum : ℕ) (s : Machine) (i : ℕ) where
  shared-holds :
      (d n j : ℕ) → 0 < (s.inode i).ref → holds d n (shared i s).inode j ≡ holds d n s.inode j
  shared-holds d n j h = elim (Bool-cases (j == i)) [
    | inl same ↦
        let e : i ≡ j = ground arith in
        rw same (
          let more : ltb 0 ((s.inode i).ref + 1) ≡ ltb 0 (s.inode i).ref = ground arith in
          ap (λ b. b && ((s.inode i).dev == d) && ((s.inode i).inum == n)) more
          ∙ ap (λ m. holds d n s.inode m) e)
    | inr other ↦ rw other refl
  ]

  again-IsGot :
      holds dev inum s.inode i ≡ true
      → i < ninode
      → IsUnique s.inode
      → IsGot dev inum s i (settled (shared i s))
  again-IsGot h k u =
      let used : 0 < (s.inode i).ref = ground arith in
      record {
        place = k;
        here = shared-holds dev inum i used ∙ h;
        unique = λ d n j m hj hm a b.
            u d n j m hj hm (sym (shared-holds d n j used) ∙ a) (sym (shared-holds d n m used) ∙ b);
      }

  entered-here : holds dev inum (entered dev inum i s).inode i ≡ true
  entered-here = ground arith

  -- A place that holds an inode after the entry is the new one, for this inode, or held it before.
  entered-holds :
      (d n j : ℕ)
      → holds d n (entered dev inum i s).inode j ≡ true
      → ((j ≡ i) × (dev ≡ d) × (inum ≡ n)) ⊎ ((j ≢ i) × (holds d n s.inode j ≡ true))
  entered-holds d n j h = elim (Bool-cases (j == i)) [
    | inl same ↦
        (let key : ((dev == d) && (inum == n)) ≡ true = ground (arith, same, h) in
          inl (ground arith, ground arith, ground arith))
    | inr other ↦ inr (ground arith, ground (arith, other, h))
  ]

  absent_at :
      (d n m : ℕ)
      → holds dev inum s.inode m ≡ false
      → dev ≡ d
      → inum ≡ n
      → holds d n s.inode m ≡ false
  absent_at d n m h ed en =
      ap (λ q. holds q n s.inode m) (sym ed) ∙ ap (λ q. holds dev q s.inode m) (sym en) ∙ h

  fresh-IsGot :
      ((j : ℕ) → j < ninode → holds dev inum s.inode j ≡ false)
      → i < ninode
      → IsUnique s.inode
      → IsGot dev inum s i (settled (entered dev inum i s))
  fresh-IsGot absent k u = record {
    place = k;
    here = entered-here;
    unique = λ d n j m hj hm a b. elim (entered-holds d n j a) [
      | inl (ej, ed, en) ↦ elim (entered-holds d n m b) [
        | inl (em, fd, fn) ↦ omega (arith, ej, em)
        | inr (om, b') ↦ cc (absent_at d n m (absent m hm) ed en)
      ]
      | inr (oj, a') ↦ elim (entered-holds d n m b) [
        | inl (em, ed, en) ↦ cc (absent_at d n j (absent j hj) ed en)
        | inr (om, b') ↦ u d n j m hj hm a' b'
      ]
    ];
  }

-- What iget makes of a cache without duplicates, from its outcome.
Got-IsGot :
    (dev inum : ℕ) (s : Machine) (r : Run Machine ℕ)
    → IsUnique s.inode
    → Got dev inum s r
    → ((i : ℕ) × (t : Machine) × (r ≡ ok i t) × IsGot dev inum s i t)
      ⊎ (r ≡ panic "iget: no free inode")
Got-IsGot dev inum s r u (again i (hit _ a b h _)) =
    inl (i, settled (shared i s), refl, again-IsGot dev inum s i h b u)
Got-IsGot dev inum s r u (fresh i (miss absent) (hit _ a b h _)) = inl (
  i,
  settled (entered dev inum i s),
  refl,
  fresh-IsGot dev inum s i (λ j k. absent j (omega arith) k) b u,
)
Got-IsGot dev inum s r u (full l m) = inr refl

-- The lock of the cache being free and no inode being in it twice, iget returns a place in use for
-- the inode that was asked for, and still no inode is in the cache twice; or it panics as no place
-- is left.
pub iget-IsUnique :
    (dev inum : ℕ) (s : Machine)
    → s.icache_lock.locked ≡ false
    → IsUnique s.inode
    → ((i : ℕ) × (t : Machine) × (iget dev inum s ≡ ok i t) × IsGot dev inum s i t)
      ⊎ (iget dev inum s ≡ panic "iget: no free inode")
iget-IsUnique dev inum s h u = Got-IsGot dev inum s (iget dev inum s) u (iget-Got dev inum s h)
