-- ===== src/Vm/Walks.antt =====
-- walk (riscv-os/kernel/vm.c) with allocation.
use Prim.Native.Nat.{bit_or}
use os.Common.{
  ℕ, zero, suc, ◌+◌, length, ◌<◌, ◌≡◌, ◌⊎◌, inl, inr, refl, sym, ap, ◌∙◌, subst, arith, true, false,
  ne→==, Bool-cases, update, update_self, List, ◌∷◌, Out, ok,
}
use os.Pmm.{Kmem}
use os.Pmm.Pages.{Good, IsFree, alloc_page_lem}
use os.Vm.{Vm, px, slot, is_valid, pte_pa, pa2pte, pte_v, set_word, clear_page, walk_loop}
use os.Vm.Bits.{is_valid-flag}
use os.Vm.Trees.{entry, at, IsTree, Reach, px_bound}
use os.Vm.Missing.{missing, blank-missing}
use os.Vm.Growth.{grown-IsTree, entry-grown, new_entry, new_pa, new_word, old_word, old_rank, ne_n}

-- What walk may change: there are more tables perhaps, and less free pages; the old tables stand
-- for what they stood for, and keep their valid entries.
pub record IsGrown (s : Vm) (rank : ℕ → ℕ) (t : Vm) (pages : List ℕ) (ranks : ℕ → ℕ) : Type 0 where
  pub free : IsFree t.kmem pages
  pub tree : IsTree t.word pages ranks
  pub kept : (x : ℕ) → 0 < rank x → ranks x ≡ rank x
  pub words :
      (x j : ℕ)
      → 0 < rank x
      → j < 512
      → is_valid (s.word (at x j)) ≡ true
      → t.word (at x j) ≡ s.word (at x j)
  pub entries : (k va x : ℕ) → rank x ≡ suc k → entry t.word k va x ≡ entry s.word k va x
  pub kernel_pagetable : t.kernel_pagetable ≡ s.kernel_pagetable
  pub satp : t.satp ≡ s.satp

IsGrown-none :
    (s : Vm) (rank : ℕ → ℕ) (pages : List ℕ)
    → IsFree s.kmem pages
    → IsTree s.word pages rank
    → IsGrown s rank s pages rank
IsGrown-none s rank pages f g = record {
  free = f;
  tree = g;
  kept = λ x h. refl;
  words = λ x j h j_in v. refl;
  entries = λ k va x r. refl;
  kernel_pagetable = refl;
  satp = refl;
}

IsGrown-then :
    (s t u : Vm) (rank : ℕ → ℕ) (pages pages' : List ℕ) (ranks ranks' : ℕ → ℕ)
    → IsGrown s rank t pages ranks
    → IsGrown t ranks u pages' ranks'
    → IsGrown s rank u pages' ranks'
IsGrown-then s t u rank pages pages' ranks ranks' a b = record {
  free = b.free;
  tree = b.tree;
  kept = λ x h. b.kept x (subst (λ r. 0 < r) (sym (a.kept x h)) h) ∙ a.kept x h;
  words = λ x j h j_in v.
      let same = a.words x j h j_in v in
      b.words x j (subst (λ r. 0 < r) (sym (a.kept x h)) h) j_in (ap is_valid same ∙ v) ∙ same;
  entries = λ k va x r. b.entries k va x (a.kept x (omega (arith, r)) ∙ r) ∙ a.entries k va x r;
  kernel_pagetable = b.kernel_pagetable ∙ a.kernel_pagetable;
  satp = b.satp ∙ a.satp;
}

-- How a walk ends, with `n` free pages: at the entry of the address in a table of the lowest level,
-- with a page less for each table that was missing, or without an entry, for there are less free
-- pages than tables missing.
abbrev pub Walked : ℕ → ℕ → ℕ → Vm → (ℕ → ℕ) → ℕ → Type 0
Walked l va p s rank n =
    (t : Vm) × (pages : List ℕ) × (ranks : ℕ → ℕ) × IsGrown s rank t pages ranks
    × (((q : ℕ) × (walk_loop l va true p s ≡ ok (slot zero va q) t)
          × Reach t.word l va p q
          × (length pages + missing s.word l va p ≡ n))
        ⊎ ((walk_loop l va true p s ≡ ok 0 t)
            × (is_valid (entry s.word l va p) ≡ false)
            × (n < missing s.word l va p)))

-- A new table for the way of `va`, below `p`.
module _ (s : Vm) (rank : ℕ → ℕ) (n : ℕ) (rest : List ℕ) (k : Kmem) (l va p : ℕ)
    (g : IsTree s.word (n ∷ rest) rank) (good : Good n) (once : Out n rest) (f : IsFree k rest)
    (r : rank p ≡ suc (suc l)) (empty : is_valid (s.word (slot (suc l) va p)) ≡ false) where
  abbrev pub with_table : Vm
  with_table =
      set_word (slot (suc l) va p) (bit_or (pa2pte n) pte_v) (clear_page n (record s { kmem = k }))

  pub with_table-IsGrown : IsGrown s rank (with_table) rest (update rank n (suc l))
  with_table-IsGrown = record {
    free = f;
    tree =
        grown-IsTree s.word n rest rank g good once p (px (suc l) va) l (px_bound (suc l) va) r
          empty;
    kept = λ x h.
        old_rank s.word n rest rank g good once p (px (suc l) va) l (px_bound (suc l) va) r empty x
          (ne_n s.word n rest rank g good once p (px (suc l) va) l (px_bound (suc l) va) r empty x
            h);
    words = λ x j h j_in v.
        old_word s.word n rest rank g good once p (px (suc l) va) l (px_bound (suc l) va) r empty x
          j h j_in (λ e e'. cc (v, empty, ap (λ m. is_valid (s.word (at m j))) e, e'));
    entries =
        entry-grown s.word n rest rank g good once p (px (suc l) va) l (px_bound (suc l) va) r
          empty;
    kernel_pagetable = refl;
    satp = refl;
  }

  with_table-missing : missing (with_table).word l va n ≡ l
  with_table-missing =
      blank-missing (with_table).word l va n
        (new_word s.word n rest rank g good once p (px (suc l) va) l (px_bound (suc l) va) r empty)

  -- Its entry stays as it is.
  pub new_table :
      (t : Vm) (pages' : List ℕ) (ranks' : ℕ → ℕ)
      → IsGrown (with_table) (update rank n (suc l)) t pages' ranks'
      → (is_valid (t.word (slot (suc l) va p)) ≡ true) × (pte_pa (t.word (slot (suc l) va p)) ≡ n)
  new_table t pages' ranks' more =
      let i_in = px_bound (suc l) va in
      let entry_eq = new_entry s.word n rest rank g good once p (px (suc l) va) l i_in r empty in
      let valid : is_valid ((with_table).word (slot (suc l) va p)) ≡ true =
        ap is_valid entry_eq ∙ is_valid-flag (pa2pte n) in
      let ne =
        ne_n s.word n rest rank g good once p (px (suc l) va) l i_in r empty p (omega (arith, r)) in
      let high : 0 < update rank n (suc l) p =
        omega (
          arith,
          old_rank s.word n rest rank g good once p (px (suc l) va) l i_in r empty p ne,
          r,
        ) in
      let same = more.words p (px (suc l) va) high i_in valid in
      (
        ap is_valid same ∙ valid,
        ap pte_pa same ∙ new_pa s.word n rest rank g good once p (px (suc l) va) l i_in r empty,
      )

-- A table more.
count_up : {n m k l : ℕ} (p : ℕ) → n ≡ suc m → k ≡ l → p + k ≡ m → p + suc l ≡ n
count_up p a b c = omega (arith, a, b, c)

few_up : {n m k l : ℕ} → n ≡ suc m → k ≡ l → m < k → n < suc l
few_up a b c = omega (arith, a, b, c)

pub walk_loop-Walked :
    (l va p : ℕ) (s : Vm) (pages : List ℕ) (rank : ℕ → ℕ)
    → IsFree s.kmem pages
    → IsTree s.word pages rank
    → rank p ≡ suc l
    → Walked l va p s rank (length pages)
unfolding walk_loop
walk_loop-Walked zero va p s pages rank f g r =
    (s, pages, rank, IsGrown-none s rank pages f g, inl (p, refl, refl, omega arith))
walk_loop-Walked (suc l) va p s pages rank f g r =
    elim (Bool-cases (is_valid (s.word (slot (suc l) va p)))) [
      | inl valid ↦
          let c = pte_pa (s.word (slot (suc l) va p)) in
          let (t, pages', ranks', grow, ends) =
            walk_loop-Walked l va c s pages rank f g
              (g.child p (px (suc l) va) l (px_bound (suc l) va) r valid) in
          let same = grow.words p (px (suc l) va) (omega (arith, r)) (px_bound (suc l) va) valid in
          (
            t,
            pages',
            ranks',
            grow,
            elim ends [
              | inl (q, run, reach, count) ↦ inl (
                q,
                rw valid run,
                (
                  ap is_valid same ∙ valid,
                  subst (λ m. Reach t.word l va (pte_pa m) q) (sym same) reach,
                ),
                rw valid count,
              )
              | inr (run, none, few) ↦ inr (rw valid run, rw valid none, rw valid few)
            ],
          )
      | inr empty ↦ elim (alloc_page_lem s.kmem pages f) [
        | inl (nothing, run) ↦
            let few : length pages < suc l = omega (arith, ap length nothing) in
            (
              s,
              pages,
              rank,
              IsGrown-none s rank pages f g,
              inr (rw (empty, run), rw empty, rw empty few),
            )
        | inr (n, rest, k, e, positive, run, f') ↦
            let fe : IsFree s.kmem (n ∷ rest) = subst (IsFree s.kmem) e f in
            let ge : IsTree s.word (n ∷ rest) rank = subst (λ x. IsTree s.word x rank) e g in
            let w = with_table s rank n rest k l va p ge fe.good.0 fe.once.0 f' r empty in
            let grow =
              with_table-IsGrown s rank n rest k l va p ge fe.good.0 fe.once.0 f' r empty in
            let (t, pages', ranks', more, ends) =
              walk_loop-Walked l va n w rest (update rank n (suc l)) f' grow.tree
                (update_self rank n (suc l)) in
            let some = ne→== n 0 (omega (arith, positive)) in
            let size : length pages ≡ suc (length rest) = ap length e in
            let rest_missing : missing w.word l va n ≡ l =
              with_table-missing s rank n rest k l va p ge fe.good.0 fe.once.0 f' r empty in
            let there =
              new_table s rank n rest k l va p ge fe.good.0 fe.once.0 f' r empty t pages' ranks'
                more in
            (
              t,
              pages',
              ranks',
              IsGrown-then s w t rank rest pages' (update rank n (suc l)) ranks' grow more,
              elim ends [
                | inl (q, run', reach, count) ↦ inl (
                  q,
                  rw (empty, run, some) run',
                  (there.0, subst (λ m. Reach t.word l va m q) (sym there.1) reach),
                  rw empty (count_up (length pages') size rest_missing count),
                )
                | inr (run', _, few) ↦
                    inr (
                      rw (empty, run, some) run',
                      rw empty,
                      rw empty (few_up size rest_missing few),
                    )
              ],
            )
      ]
    ]
