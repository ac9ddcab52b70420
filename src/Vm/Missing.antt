-- ===== src/Vm/Missing.antt =====
-- How many tables walk (riscv-os/kernel/vm.c) has to make on its way.
use os.Common.{
  ℕ, zero, suc, ◌+◌, ◌-◌, ◌/◌, ◌%◌, ◌^◌, ◌≤◌, ◌<◌, ◌≡◌, inl, inr, refl, ap, ◌∙◌, arith,
  if◌then◌else◌, ◌==◌, ==→eq, ==→ne, Bool-cases, update, List,
}
use os.Pmm.{pgsize}
use os.Vm.{Vm, maxva, px, slot, is_valid, pte_pa}
use os.Vm.Bits.{is_valid_zero}
use os.Vm.Trees.{at, IsTree, Reach, px_bound, above_same, child_rank}

-- The tables that are missing on the way of `va` below the table at `p`.
abbrev pub missing : (ℕ → ℕ) → ℕ → ℕ → ℕ → ℕ
missing word zero va p = 0
missing word (suc level) va p =
    let rest = missing word level va (pte_pa (word (slot (suc level) va p))) in
    if is_valid (word (slot (suc level) va p)) then rest else suc level

-- All are missing below a table of zeros,
pub blank-missing :
    (word : ℕ → ℕ) (l va p : ℕ) → ((j : ℕ) → j < 512 → word (at p j) ≡ 0) → missing word l va p ≡ l
blank-missing word zero va p zeros = refl
blank-missing word (suc l) va p zeros =
    rw (ap is_valid (zeros (px (suc l) va) (px_bound (suc l) va)) ∙ is_valid_zero)

-- and none on the way to a table of the lowest level.
pub Reach-missing : (word : ℕ → ℕ) (l va p q : ℕ) → Reach word l va p q → missing word l va p ≡ 0
Reach-missing word zero va p q h = refl
Reach-missing word (suc l) va p q (v, h) =
    rw v (Reach-missing word l va (pte_pa (word (slot (suc l) va p))) q h)

-- An entry of the lowest level does not matter.
pub missing-update :
    (word : ℕ → ℕ) (pages : List ℕ) (rank : ℕ → ℕ) (g : IsTree word pages rank) (q i v : ℕ)
    → rank q ≡ 1
    → i < 512
    → (l va p : ℕ) → rank p ≡ suc l
    → missing (update word (at q i) v) l va p ≡ missing word l va p
missing-update word pages rank g q i v low i_in zero va p r = refl
missing-update word pages rank g q i v low i_in (suc l) va p r =
    let same =
      above_same word pages rank g q i v low i_in p (px (suc l) va) (omega (arith, r))
        (px_bound (suc l) va) in
    elim (Bool-cases (is_valid (word (slot (suc l) va p)))) [
      | inl valid ↦
          rw (same, valid)
            (missing-update word pages rank g q i v low i_in l va
              (pte_pa (word (slot (suc l) va p))) (child_rank word pages rank g l va p r valid))
      | inr invalid ↦ rw (same, invalid)
    ]

-- The tables that are missing for an address, below the table at `root`.
abbrev pub tables_missing : Vm → ℕ → ℕ → ℕ
tables_missing s root va = missing s.word 2 va root

-- The borders of tables between two addresses.
abbrev pub borders : ℕ → ℕ → ℕ
borders a b = (b / 2 ^ 21 - a / 2 ^ 21) + (b / 2 ^ 30 - a / 2 ^ 30)

module _ (s : Vm) (root : ℕ) where
  -- By the indexes.
  abbrev by_index : ℕ → ℕ → ℕ
  by_index i2 i1 =
      if is_valid (s.word (at root i2))
      then (if is_valid (s.word (at (pte_pa (s.word (at root i2))) i1)) then 0 else 1)
      else 2

  by_index-bound : (i2 i1 : ℕ) → by_index i2 i1 ≤ 2
  by_index-bound i2 i1 = ground arith

  pub tables_missing_bound : (va : ℕ) → tables_missing s root va ≤ 2
  tables_missing_bound va = by_index-bound (px 2 va) (px 1 va)

  by_index-valid : (i2 i1 j1 : ℕ) → by_index i2 i1 ≡ 0 → by_index i2 j1 ≤ 1
  by_index-valid i2 i1 j1 h = ground arith

  -- Where none is missing, only as many are missing for the next page as there are borders.
  pub next-missing :
      (a : ℕ)
      → a % pgsize ≡ 0
      → a + pgsize < maxva
      → tables_missing s root a ≡ 0
      → tables_missing s root (a + pgsize) ≤ borders a (a + pgsize)
  next-missing a a_in small h = elim (Bool-cases ((a + pgsize) / 2 ^ 21 == a / 2 ^ 21)) [
    | inl same ↦
        let e : (a + pgsize) / 2 ^ 21 ≡ a / 2 ^ 21 =
          ==→eq ((a + pgsize) / 2 ^ 21) (a / 2 ^ 21) same in
        let e1 : px 1 (a + pgsize) ≡ px 1 a = omega (arith, e) in
        let e2 : px 2 (a + pgsize) ≡ px 2 a = omega (arith, e) in
        omega (arith, ap (λ i. by_index i (px 1 (a + pgsize))) e2 ∙ ap (by_index (px 2 a)) e1 ∙ h)
    | inr other ↦
        let ne = ==→ne ((a + pgsize) / 2 ^ 21) (a / 2 ^ 21) other in
        elim (Bool-cases ((a + pgsize) / 2 ^ 30 == a / 2 ^ 30)) [
          | inl same ↦
              let e = ==→eq ((a + pgsize) / 2 ^ 30) (a / 2 ^ 30) same in
              let e2 : px 2 (a + pgsize) ≡ px 2 a = omega (arith, e) in
              omega (
                arith,
                ne,
                ap (λ i. by_index i (px 1 (a + pgsize))) e2,
                by_index-valid (px 2 a) (px 1 a) (px 1 (a + pgsize)) h,
              )
          | inr far ↦
              let ne' = ==→ne ((a + pgsize) / 2 ^ 30) (a / 2 ^ 30) far in
              omega (arith, ne, ne', by_index-bound (px 2 (a + pgsize)) (px 1 (a + pgsize)))
        ]
  ]
