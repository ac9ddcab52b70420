-- ===== src/Vm/Mapping.antt =====
-- mappage (riscv-os/kernel/vm.c) as an update of the map that the page tables stand for.
use Prim.Native.Nat.{bit_or}
use os.Common.{
  ℕ, ◌^◌, ◌*◌, ◌+◌, length, ◌/◌, ◌%◌, ◌<◌, ◌≡◌, ◌≢◌, ◌⊎◌, inl, inr, refl, sym, ap, ◌∙◌, subst,
  arith, true, false, not, ◌||◌, ◌==◌, leb, eq→==, ne→==, ==→eq, ==→ne, if◌then◌else◌, Bool-cases,
  List, Run, ok, panic, and_then,
}
use os.Pmm.{pgsize}
use os.Pmm.Pages.{IsFree}
use os.Vm.{
  Vm, maxva, px, slot, is_valid, pte_pa, set_word, walk_loop, walk, map_entry, mappage, minus_one,
}
use os.Vm.Trees.{
  entry, at, IsTree, Reach, px_bound, same_page, Reach-rank, entry-Reach, Reach-sole, update-IsTree,
  entry-update_self, entry-update_other,
}
use os.Vm.Missing.{tables_missing, Reach-missing, missing-update}
use os.Vm.Walks.{IsGrown, walk_loop-Walked}

-- The page at `root` is the top of page tables, apart from the free pages.
pub record IsPaged (s : Vm) (root : ℕ) : Type 0 where
  pub pages : List ℕ
  pub ranks : ℕ → ℕ
  pub free : IsFree s.kmem pages
  pub tree : IsTree s.word pages ranks
  pub top : ranks root ≡ 3

-- The entry of a virtual address.
abbrev pub lookup : Vm → ℕ → ℕ → ℕ
lookup s root va = entry s.word 2 va root

-- An entry for the page `pa`, with V.
abbrev pub entry_for : ℕ → ℕ → ℕ
entry_for pa perm = bit_or (bit_or (pa / 2 ^ 12 * 2 ^ 10) perm) 1

-- All addresses of a page have one entry.
lookup_same :
    (s : Vm) (root va vb : ℕ) → va / pgsize ≡ vb / pgsize → lookup s root va ≡ lookup s root vb
lookup_same s root va vb e =
    let e2 : px 2 va ≡ px 2 vb = omega arith in
    let e1 : px 1 va ≡ px 1 vb = omega arith in
    let e0 : px 0 va ≡ px 0 vb = omega arith in
    let after : ℕ → ℕ → ℕ → ℕ = λ i2 i1 i0.
      if is_valid (s.word (at root i2))
      then (if is_valid (s.word (at (pte_pa (s.word (at root i2))) i1))
          then s.word (at (pte_pa (s.word (at (pte_pa (s.word (at root i2))) i1))) i0)
          else 0)
      else 0 in
    ap (λ i. after i (px 1 va) (px 0 va)) e2
    ∙ ap (λ i. after (px 2 vb) i (px 0 va)) e1
    ∙ ap (after (px 2 vb) (px 1 vb)) e0

-- The outcomes of mappage for a page that is not mapped, with `n` free pages.
pub data Mapped (s : Vm) (root va pa perm n : ℕ) : Run Vm ℕ → Type 0 where
  done :
      (t : Vm) (g : IsPaged t root)
      → length g.pages + tables_missing s root va ≡ n
      → tables_missing t root va ≡ 0
      → t.kernel_pagetable ≡ s.kernel_pagetable
      → ((vb : ℕ)
          → vb < maxva
          → lookup t root vb
            ≡ (if vb / pgsize == va / pgsize then entry_for pa perm else lookup s root vb))
      → Mapped s root va pa perm n (ok 0 t)
  short :
      (t : Vm)
      → n < tables_missing s root va
      → IsPaged t root
      → t.kernel_pagetable ≡ s.kernel_pagetable
      → ((vb : ℕ) → lookup t root vb ≡ lookup s root vb)
      → Mapped s root va pa perm n (ok minus_one t)

module _ (s : Vm) (root va pa perm : ℕ) (t : Vm) (pages : List ℕ) (rank ranks : ℕ → ℕ)
    (grow : IsGrown s rank t pages ranks) (top : rank root ≡ 3) where
  top_after : ranks root ≡ 3
  top_after = grow.kept root (omega (arith, top)) ∙ top

  IsPaged-grown : IsPaged t root
  IsPaged-grown = record {
    pages = pages;
    ranks = ranks;
    free = grow.free;
    tree = grow.tree;
    top = top_after;
  }

  module _ (q : ℕ) (reach : Reach t.word 2 va root q) (small : va < maxva) where
    low : ranks q ≡ 1
    low = Reach-rank t.word pages ranks grow.tree 2 va root q top_after reach

    look : lookup s root va ≡ t.word (slot 0 va q)
    look =
        sym (grow.entries 2 va root top)
        ∙ entry-Reach t.word pages ranks grow.tree 2 va root q reach

    -- The slot is not the null pointer.
    some_slot : (slot 0 va q == 0) ≡ false
    some_slot = ne→== (slot 0 va q) 0 (omega (arith, (grow.tree.page q (omega (arith, low))).1))

    remap :
        is_valid (lookup s root va) ≡ true
        → map_entry (slot 0 va q) pa perm t ≡ panic "mappage: remap"
    unfolding map_entry
    remap v = rw (some_slot, ap is_valid (sym look) ∙ v)

    lookup_after :
        (vb : ℕ)
        → vb < maxva
        → lookup (set_word (slot 0 va q) (entry_for pa perm) t) root vb
          ≡ (if vb / pgsize == va / pgsize then entry_for pa perm else lookup s root vb)
    lookup_after vb small' = elim (Bool-cases (vb / pgsize == va / pgsize)) [
      | inl same ↦ rw same (
          lookup_same (set_word (slot 0 va q) (entry_for pa perm) t) root vb va
            (==→eq (vb / pgsize) (va / pgsize) same)
          ∙ entry-update_self t.word pages ranks grow.tree q (px 0 va) (entry_for pa perm) low
              (px_bound 0 va) 2 va root top_after reach refl)
      | inr other ↦ rw other (
          entry-update_other t.word pages ranks grow.tree q (px 0 va) (entry_for pa perm) low
            (px_bound 0 va) 2 vb root top_after
            (λ reach' e0.
              let (_, (e2, (e1, _))) =
                Reach-sole t.word pages ranks grow.tree 2 vb va root root q top_after top_after
                  reach' reach in
              ==→ne (vb / pgsize) (va / pgsize) other
                (same_page vb va (omega arith) (omega arith) e2 e1 e0))
          ∙ grow.entries 2 vb root top)
    ]

    write :
        (n : ℕ)
        → length pages + tables_missing s root va ≡ n
        → is_valid (lookup s root va) ≡ false
        → (map_entry (slot 0 va q) pa perm t ≡ ok 0 (set_word (slot 0 va q) (entry_for pa perm) t))
          × Mapped s root va pa perm n (ok 0 (set_word (slot 0 va q) (entry_for pa perm) t))
    unfolding map_entry
    write n count v = (
      rw (some_slot, ap is_valid (sym look) ∙ v),
      done (set_word (slot 0 va q) (entry_for pa perm) t)
          (record {
            pages = pages;
            ranks = ranks;
            free = grow.free;
            tree =
                update-IsTree t.word pages ranks grow.tree q (px 0 va) (entry_for pa perm) low
                  (px_bound 0 va);
            top = top_after;
          })
          count
          (missing-update t.word pages ranks grow.tree q (px 0 va) (entry_for pa perm) low
              (px_bound 0 va) 2 va root top_after
            ∙ Reach-missing t.word 2 va root q reach)
          grow.kernel_pagetable lookup_after,
    )

no_entry : (t : Vm) (pa perm : ℕ) → map_entry 0 pa perm t ≡ ok minus_one t
unfolding map_entry
no_entry t pa perm = refl

mappage_start :
    (s : Vm) (root va pa perm : ℕ)
    → va < maxva
    → va % pgsize ≡ 0
    → pa % pgsize ≡ 0
    → mappage root va pa perm s
      ≡ and_then (walk_loop 2 va true root s) (λ pte. map_entry pte pa perm)
unfolding mappage walk
mappage_start s root va pa perm small va_in pa_in =
    let below : leb maxva va ≡ false = ground arith in
    rw (eq→== (va % pgsize) 0 va_in, eq→== (pa % pgsize) 0 pa_in, below)

-- mappage of an aligned address below MAXVA to an aligned page, in well-formed page tables, panics
-- if the address is mapped already. If not, and there are as many free pages as tables are missing
-- on the way of the address, it returns 0, has taken that many free pages and mapped the address'
-- page and no other, and the tables are well formed; if there are less, it returns -1, and no
-- address has another entry than before.
pub mappage-Mapped :
    (s : Vm) (root va pa perm : ℕ) (g : IsPaged s root)
    → va < maxva
    → va % pgsize ≡ 0
    → pa % pgsize ≡ 0
    → ((is_valid (lookup s root va) ≡ true) × (mappage root va pa perm s ≡ panic "mappage: remap"))
      ⊎ ((is_valid (lookup s root va) ≡ false)
          × Mapped s root va pa perm (length g.pages) (mappage root va pa perm s))
mappage-Mapped s root va pa perm g small va_in pa_in =
    let (t, pages, ranks, grow, ends) =
      walk_loop-Walked 2 va root s g.pages g.ranks g.free g.tree g.top in
    let start = mappage_start s root va pa perm small va_in pa_in in
    let then_map : Run Vm ℕ → Run Vm ℕ = λ r. and_then r (λ pte. map_entry pte pa perm) in
    elim ends [
      | inl (q, run, reach, count) ↦ elim (Bool-cases (is_valid (lookup s root va))) [
        | inl valid ↦ inl (
          valid,
          start
              ∙ ap then_map run
              ∙ remap s root va pa perm t pages g.ranks ranks grow g.top q reach small valid,
        )
        | inr invalid ↦
            let (run', m) =
              write s root va pa perm t pages g.ranks ranks grow g.top q reach small
                (length g.pages) count invalid in
            inr (
              invalid,
              subst (Mapped s root va pa perm (length g.pages))
                  (sym (start ∙ ap then_map run ∙ run')) m,
            )
      ]
      | inr (run, none, few) ↦ inr (
        none,
        subst (Mapped s root va pa perm (length g.pages))
            (sym (start ∙ ap then_map run ∙ no_entry t pa perm))
            (short t few (IsPaged-grown s root va pa perm t pages g.ranks ranks grow g.top)
              grow.kernel_pagetable (λ vb. grow.entries 2 vb root g.top)),
      )
    ]

-- An address or a page that is not aligned makes mappage panic.
pub mappage-unaligned :
    (s : Vm) (root va pa perm : ℕ)
    → (va % pgsize ≢ 0) ⊎ (pa % pgsize ≢ 0)
    → mappage root va pa perm s ≡ panic "mappage: not aligned"
unfolding mappage
mappage-unaligned s root va pa perm h =
    let bad : (not (va % pgsize == 0) || not (pa % pgsize == 0)) ≡ true = ground arith in rw bad
