-- ===== src/Vm/Kernel.antt =====
-- The kernel's page table (riscv-os/kernel/vm.c: kvminit).
use os.Common.{
  ℕ, ◌*◌, ◌^◌, ◌/◌, suc, length, ◌≤◌, ◌+◌, ◌-◌, ◌<◌, ◌≡◌, inl, inr, refl, sym, ap, ◌∙◌, subst,
  arith, Bool, false, ◌&&◌, ltb, leb, ne→==, if◌then◌else◌, Bool-cases, List, Run, ok, panic,
  and_then,
}
use os.Pmm.{pgsize, kernbase, phystop}
use os.Pmm.Pages.{IsFree}
use os.Vm.{Vm, maxva, uart0, is_valid, pte_r, pte_w, pte_x, kvmmap, kvminit, pg_round_down}
use os.Vm.Bits.{is_valid_zero}
use os.Vm.Missing.{tables_missing_bound}
use os.Vm.Mapping.{IsPaged, lookup, entry_for}
use os.Vm.Ranges.{kvmmap-Ranged}
use os.Vm.Rounds.{Ranged, all, failed, ranged, IsUnmapped}
use os.Vm.Blank.{create_pagetable_lem}

-- The map of the kernel: the 128 MB of memory, with R, W and X, and the registers of the UART, with R
-- and W, each address to itself.
abbrev pub kernel_entry : ℕ → ℕ
kernel_entry vb =
    if leb (2 ^ 31) vb && ltb vb (2 ^ 31 + 2 ^ 27)
    then entry_for (vb / 2 ^ 12 * 2 ^ 12) (2 + 4 + 8)
    else if leb (2 ^ 28) vb && ltb vb (2 ^ 28 + 2 ^ 12)
    then entry_for (vb / 2 ^ 12 * 2 ^ 12) (2 + 4)
    else 0

-- The tables of the kernel: the top one, 2 for the first page of the memory, one more for each of
-- the 63 borders of 2 MB in it, and 2 for the UART.
abbrev pub kernel_tables : ℕ
kernel_tables = 1 + 2 + 63 + 2

-- The outcomes of kvminit, with `n` free pages.
pub data KernelMapped (n : ℕ) : Run Vm (Unit {0}) → Type 0 where
  built :
      (t : Vm)
      → IsPaged t t.kernel_pagetable
      → ((vb : ℕ) → vb < maxva → lookup t t.kernel_pagetable vb ≡ kernel_entry vb)
      → KernelMapped n (ok tt t)
  no_table : n ≡ 0 → KernelMapped n (panic "kvminit: no memory for kernel_pagetable")
  no_tables : n < kernel_tables → KernelMapped n (panic "kvmmap: mappage failed")

-- What is left of kvminit when the table at `pt` is there.
abbrev map_kernel : ℕ → Vm → Run Vm (Unit {0})
map_kernel pt s =
    and_then (kvmmap pt kernbase kernbase (phystop - kernbase) (pte_r + pte_w + pte_x) s)
      (λ _. kvmmap pt uart0 uart0 pgsize (pte_r + pte_w))

module _ (s : Vm) (pt : ℕ) (kept : s.kernel_pagetable ≡ pt)
    (nothing : (vb : ℕ) → lookup s pt vb ≡ 0) where
  -- With the memory mapped, the UART is not mapped yet.
  uart-IsUnmapped :
      (t : Vm)
      → ((vb : ℕ)
          → vb < maxva
          → lookup t pt vb
            ≡ ranged
                (lookup s pt vb)
                kernbase
                kernbase
                (phystop - kernbase)
                (pte_r + pte_w + pte_x)
                vb)
      → IsUnmapped t pt uart0 pgsize
  uart-IsUnmapped t look vb low high =
      let outside : (leb kernbase vb && ltb vb (kernbase + (phystop - kernbase))) ≡ false =
        ground arith in
      ap is_valid (
        look vb (omega arith)
        ∙ ap
            (λ (b : Bool).
              if b
              then entry_for (kernbase + (pg_round_down vb - kernbase)) (pte_r + pte_w + pte_x)
              else lookup s pt vb)
            outside
        ∙ nothing vb)
      ∙ is_valid_zero

  two_ranges :
      (v vb : ℕ)
      → v ≡ 0
      → ranged
          (ranged v kernbase kernbase (phystop - kernbase) (pte_r + pte_w + pte_x) vb)
          uart0
          uart0
          pgsize
          (pte_r + pte_w)
          vb
        ≡ kernel_entry vb
  two_ranges v vb e = elim (Bool-cases (leb kernbase vb && ltb vb phystop)) [
    | inl inside ↦
        let not_uart : (leb uart0 vb && ltb vb (uart0 + pgsize)) ≡ false = ground arith in
        let place : kernbase + (pg_round_down vb - kernbase) ≡ pg_round_down vb = ground arith in
        rw (inside, not_uart) (ap (λ p. entry_for p (pte_r + pte_w + pte_x)) place)
    | inr outside ↦ elim (Bool-cases (leb uart0 vb && ltb vb (uart0 + pgsize))) [
      | inl inside ↦
          let place : uart0 + (pg_round_down vb - uart0) ≡ pg_round_down vb = ground arith in
          rw (outside, inside) (ap (λ p. entry_for p (pte_r + pte_w)) place)
      | inr neither ↦ rw (outside, neither) e
    ]
  ]

  after_uart :
      (n m : ℕ)
      → n ≤ suc m + 2 + 63
      → (t : Vm) (r : Run Vm (Unit {0})) → t.kernel_pagetable ≡ pt
      → ((vb : ℕ)
          → vb < maxva
          → lookup t pt vb
            ≡ ranged
                (lookup s pt vb)
                kernbase
                kernbase
                (phystop - kernbase)
                (pte_r + pte_w + pte_x)
                vb)
      → Ranged t pt uart0 uart0 pgsize (pte_r + pte_w) uart0 m r
      → KernelMapped n r
  after_uart n m enough t r same look (failed few) =
      no_tables (omega (arith, few, enough, tables_missing_bound t pt uart0))
  after_uart n m enough t r same look (all u g _ same' look') =
      let root : pt ≡ u.kernel_pagetable = sym (same' ∙ same) in
      built u (subst (IsPaged u) root g) (λ vb vb_in.
        ap (λ p. lookup u p vb) (sym root)
        ∙ look' vb vb_in
        ∙ ap (λ v. ranged v uart0 uart0 pgsize (pte_r + pte_w) vb) (look vb vb_in)
        ∙ two_ranges (lookup s pt vb) vb (nothing vb))

  after_memory :
      (n : ℕ) (r : Run Vm (Unit {0}))
      → Ranged s pt kernbase kernbase
          (phystop - kernbase)
          (pte_r + pte_w + pte_x)
          (phystop - pgsize)
          n
          r
      → KernelMapped (suc n) (and_then r (λ _. kvmmap pt uart0 uart0 pgsize (pte_r + pte_w)))
  after_memory n r (failed few) = no_tables (omega (arith, few, tables_missing_bound s pt kernbase))
  after_memory n r (all t g left same look) =
      after_uart (suc n) (length g.pages) (omega (arith, left, tables_missing_bound s pt kernbase))
        t (kvmmap pt uart0 uart0 pgsize (pte_r + pte_w) t) (same ∙ kept) look
        (kvmmap-Ranged t pt uart0 uart0 pgsize (pte_r + pte_w) g refl refl refl (omega arith)
          (omega arith) (omega arith) (uart-IsUnmapped t look))

-- kvminit makes a page table that maps every address of the memory to itself, with all rights, and
-- the page of the UART to itself, to read and write, and no other address below MAXVA. It panics only
-- if there are less than 68 free pages, as many as tables are made, and before a table is made only
-- if there is none. The free pages are as pmm keeps them.
pub kvminit-KernelMapped :
    (s : Vm) (pages : List ℕ) → IsFree s.kmem pages → KernelMapped (length pages) (kvminit s)
unfolding kvminit
kvminit-KernelMapped s pages f = elim (create_pagetable_lem s pages f) [
  | inl (nothing, run) ↦ rw run (no_table (ap length nothing))
  | inr (pt, t, positive, run, g, count, nothing) ↦
      let t1 : Vm = record t { kernel_pagetable = pt } in
      let some = ne→== pt 0 (omega (arith, positive)) in
      let g1 : IsPaged t1 pt = record {
        pages = g.pages;
        ranks = g.ranks;
        free = g.free;
        tree = g.tree;
        top = g.top;
      } in
      rw (run, some)
        (subst
          (λ n. KernelMapped n (
            and_then (kvmmap pt kernbase kernbase (phystop - kernbase) (pte_r + pte_w + pte_x) t1)
              (λ _. kvmmap pt uart0 uart0 pgsize (pte_r + pte_w))))
          (sym count)
          (after_memory t1 pt refl nothing (length g.pages)
            (kvmmap pt kernbase kernbase (phystop - kernbase) (pte_r + pte_w + pte_x) t1)
            (kvmmap-Ranged t1 pt kernbase kernbase (phystop - kernbase) (pte_r + pte_w + pte_x) g1
              refl refl refl (omega arith) (omega arith) (omega arith)
              (λ vb low high. ap is_valid (nothing vb) ∙ is_valid_zero))))
]
