-- ===== src/Vm/Blank.antt =====
-- An empty page table (riscv-os/kernel/vm.c: create_pagetable).
use os.Common.{
  ℕ, suc, length, [], ◌%◌, ◌^◌, ◌<◌, ◌≡◌, ◌⊎◌, inl, inr, sym, ap, ◌∙◌, subst, arith, true, ◌==◌,
  ne→==, ==→eq, Bool-cases, update, update_self, List, ◌∷◌, Out, ok,
}
use os.Pmm.{pgsize}
use os.Pmm.Pages.{Good, IsFree, alloc_page_lem}
use os.Vm.{Vm, px, is_valid, clear_page, create_pagetable}
use os.Vm.Bits.{is_valid_zero}
use os.Vm.Trees.{at, IsTree, px_bound}
use os.Vm.Mapping.{IsPaged, lookup}

-- A page of zeros that is not free.
module _ (s : Vm) (pt : ℕ) (pages : List ℕ) (f : IsFree s.kmem pages) (good : Good pt)
    (once : Out pt pages) (zeros : (i : ℕ) → i < 512 → s.word (at pt i) ≡ 0) where
  is_pt : (p : ℕ) → 0 < update (λ _. 0) pt 3 p → p ≡ pt
  is_pt p h = elim (Bool-cases (p == pt)) [
    | inl same ↦ ==→eq p pt same
    | inr other ↦ absurd (ground arith)
  ]

  blank : (p i : ℕ) → i < 512 → 0 < update (λ _. 0) pt 3 p → is_valid (s.word (at p i)) ≡ true → ⊥
  blank p i i_in h v =
      cc (v, is_valid_zero, ap is_valid (ap (λ q. s.word (at q i)) (is_pt p h) ∙ zeros i i_in))

  pub blank-IsTree : IsTree s.word pages (update (λ _. 0) pt 3)
  blank-IsTree = record {
    page = λ p h.
        subst (λ q. (q % pgsize ≡ 0) × (0 < q) × (q < 2 ^ 56)) (sym (is_pt p h))
          (ground arith, ground arith, ground arith);
    used = λ p h. subst (λ q. Out q pages) (sym (is_pt p h)) once;
    child = λ p i l i_in r v. absurd (blank p i i_in (omega (arith, r)) v);
    sole = λ p q i j i_in j_in h k v v' e. absurd (blank p i i_in (omega (arith, h)) v);
  }

  abbrev pub blank-IsPaged : IsPaged s pt
  blank-IsPaged = record {
    pages = pages;
    ranks = update (λ _. 0) pt 3;
    free = f;
    tree = blank-IsTree;
    top = update_self (λ _. 0) pt 3;
  }

  pub blank-lookup : (vb : ℕ) → lookup s pt vb ≡ 0
  blank-lookup vb = rw (ap is_valid (zeros (px 2 vb) (px_bound 2 vb)) ∙ is_valid_zero)

-- create_pagetable takes a page and makes a page table that maps nothing, or returns 0 if no page is
-- free.
pub create_pagetable_lem :
    (s : Vm) (pages : List ℕ)
    → IsFree s.kmem pages
    → ((pages ≡ []) × (create_pagetable s ≡ ok 0 s))
      ⊎ ((pt : ℕ) × (t : Vm) × (0 < pt)
          × (create_pagetable s ≡ ok pt t)
          × (g : IsPaged t pt) × (length pages ≡ suc (length g.pages))
          × ((vb : ℕ) → lookup t pt vb ≡ 0))
unfolding create_pagetable
create_pagetable_lem s pages f = elim (alloc_page_lem s.kmem pages f) [
  | inl (nothing, run) ↦ inl (nothing, rw run)
  | inr (n, rest, k, e, positive, run, f') ↦
      let fe : IsFree s.kmem (n ∷ rest) = subst (IsFree s.kmem) e f in
      let t = clear_page n (record s { kmem = k }) in
      let zeros : (i : ℕ) → i < 512 → t.word (at n i) ≡ 0 = λ i h. ground arith in
      let some = ne→== n 0 (omega (arith, positive)) in
      inr (
        n,
        t,
        positive,
        rw (run, some),
        blank-IsPaged t n rest f' fe.good.0 fe.once.0 zeros,
        ap length e,
        blank-lookup t n rest f' fe.good.0 fe.once.0 zeros,
      )
]
