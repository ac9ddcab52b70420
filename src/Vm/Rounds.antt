-- ===== src/Vm/Rounds.antt =====
-- A round of kvmmap (riscv-os/kernel/vm.c), and the entries of a range.
use os.Common.{
  ℕ, ◌*◌, length, suc, ◌+◌, ◌-◌, ◌/◌, ◌%◌, ◌^◌, ◌≤◌, ◌<◌, ◌≡◌, ◌≢◌, ◌⊎◌, inl, inr, refl, ap, ◌∙◌,
  arith, true, false, ◌&&◌, ◌==◌, ltb, leb, eq→==, ne→==, if◌then◌else◌, Bool-cases, Run, ok, panic,
}
use os.Pmm.{pgsize}
use os.Vm.{Vm, maxva, is_valid, mappage, minus_one, kvmmap_loop}
use os.Vm.Missing.{tables_missing, borders}
use os.Vm.Mapping.{IsPaged, lookup, entry_for, Mapped, done, short}

-- The entry of `vb` when `sz` bytes from `va` on have been mapped to those from `pa` on, and it was
-- `v` before.
abbrev pub ranged : ℕ → ℕ → ℕ → ℕ → ℕ → ℕ → ℕ
ranged v va pa sz perm vb =
    if leb va vb && ltb vb (va + sz) then entry_for (pa + (vb / 2 ^ 12 * 2 ^ 12 - va)) perm else v

-- One page more.
pub ranged_one :
    (v a pa perm vb : ℕ)
    → a % pgsize ≡ 0
    → (if vb / pgsize == a / pgsize then entry_for pa perm else v) ≡ ranged v a pa pgsize perm vb
ranged_one v a pa perm vb h = elim (Bool-cases (vb / pgsize == a / pgsize)) [
  | inl same ↦
      let inside : (leb a vb && ltb vb (a + pgsize)) ≡ true = ground arith in
      let place : pa ≡ pa + (vb / 2 ^ 12 * 2 ^ 12 - a) = ground arith in
      rw (same, inside) (ap (λ p. entry_for p perm) place)
  | inr other ↦
      let outside : (leb a vb && ltb vb (a + pgsize)) ≡ false = ground arith in rw (other, outside)
]

ranged_more :
    (v a pa sz perm vb : ℕ)
    → a % pgsize ≡ 0
    → ranged
        (if vb / pgsize == a / pgsize then entry_for pa perm else v)
        (a + pgsize)
        (pa + pgsize)
        sz
        perm
        vb
      ≡ ranged v a pa (pgsize + sz) perm vb
ranged_more v a pa sz perm vb h =
    elim (Bool-cases (leb (a + pgsize) vb && ltb vb (a + pgsize + sz))) [
      | inl late ↦
          let inside : (leb a vb && ltb vb (a + (pgsize + sz))) ≡ true = ground arith in
          let place : pa + pgsize + (vb / 2 ^ 12 * 2 ^ 12 - (a + pgsize))
              ≡ pa + (vb / 2 ^ 12 * 2 ^ 12 - a) =
            ground arith in
          rw (late, inside) (ap (λ p. entry_for p perm) place)
      | inr early ↦ elim (Bool-cases (vb / pgsize == a / pgsize)) [
        | inl same ↦
            let inside : (leb a vb && ltb vb (a + (pgsize + sz))) ≡ true = ground arith in
            let place : pa ≡ pa + (vb / 2 ^ 12 * 2 ^ 12 - a) = ground arith in
            rw (early, same, inside) (ap (λ p. entry_for p perm) place)
        | inr other ↦
            let outside : (leb a vb && ltb vb (a + (pgsize + sz))) ≡ false = ground arith in
            rw (early, other, outside)
      ]
    ]

-- The tables that are made to map the pages from `va` to `last`.
abbrev pub tables_for : Vm → ℕ → ℕ → ℕ → ℕ
tables_for s root va last = tables_missing s root va + borders va last

-- The outcomes of kvmmap, with `n` free pages, the last page mapped being `last`.
pub data Ranged (s : Vm) (root va pa sz perm last n : ℕ) : Run Vm (Unit {0}) → Type 0 where
  all :
      (t : Vm) (g : IsPaged t root)
      → n ≤ length g.pages + tables_for s root va last
      → t.kernel_pagetable ≡ s.kernel_pagetable
      → ((vb : ℕ) → vb < maxva → lookup t root vb ≡ ranged (lookup s root vb) va pa sz perm vb)
      → Ranged s root va pa sz perm last n (ok tt t)
  failed :
      n < tables_for s root va last
      → Ranged s root va pa sz perm last n (panic "kvmmap: mappage failed")

-- No page of the range is mapped.
abbrev pub IsUnmapped : Vm → ℕ → ℕ → ℕ → Type 0
IsUnmapped s root va sz = (vb : ℕ) → va ≤ vb → vb < va + sz → is_valid (lookup s root vb) ≡ false

pub Mapped-cases :
    (s : Vm) (root va pa perm n : ℕ) (r : Run Vm ℕ)
    → Mapped s root va pa perm n r
    → ((t : Vm) × (r ≡ ok 0 t)
        × (g : IsPaged t root) × (length g.pages + tables_missing s root va ≡ n)
        × (tables_missing t root va ≡ 0)
        × (t.kernel_pagetable ≡ s.kernel_pagetable)
        × ((vb : ℕ)
            → vb < maxva
            → lookup t root vb
              ≡ (if vb / pgsize == va / pgsize then entry_for pa perm else lookup s root vb)))
      ⊎ ((t : Vm) × (r ≡ ok minus_one t) × (n < tables_missing s root va))
Mapped-cases s root va pa perm n r (done t g count zero_left same look) =
    inl (t, refl, g, count, zero_left, same, look)
Mapped-cases s root va pa perm n r (short t few g _ same) = inr (t, refl, few)

-- No page of the rest of the range has been mapped.
pub IsUnmapped-rest :
    (s t : Vm) (root a pa sz perm : ℕ)
    → a % pgsize ≡ 0
    → a + (pgsize + sz) ≤ maxva
    → ((vb : ℕ)
        → vb < maxva
        → lookup t root vb
          ≡ (if vb / pgsize == a / pgsize then entry_for pa perm else lookup s root vb))
    → IsUnmapped s root a (pgsize + sz)
    → IsUnmapped t root (a + pgsize) sz
IsUnmapped-rest s t root a pa sz perm a_in small look empty vb low high =
    let other : (vb / pgsize == a / pgsize) ≡ false = ground arith in
    let same : lookup t root vb ≡ lookup s root vb =
      look vb (omega arith) ∙ ap (λ b. if b then entry_for pa perm else lookup s root vb) other in
    ap is_valid same ∙ empty vb (omega arith) (omega arith)

-- The tables for the rest of the pages, and those for the first one.
module _ (a last n m x y : ℕ) (count : m + x ≡ n) (next : y ≤ borders a (a + pgsize))
    (order : a + pgsize ≤ last) where
  left_over : (k : ℕ) → m ≤ k + (y + borders (a + pgsize) last) → n ≤ k + (x + borders a last)
  left_over k h = omega (arith, count, next, order, h)

  too_few : m < y + borders (a + pgsize) last → n < x + borders a last
  too_few h = omega (arith, count, next, order, h)

pub Ranged-more :
    (s t : Vm) (root a pa sz perm last n m : ℕ)
    → a % pgsize ≡ 0
    → a + pgsize ≤ last
    → m + tables_missing s root a ≡ n
    → tables_missing t root (a + pgsize) ≤ borders a (a + pgsize)
    → ((vb : ℕ)
        → vb < maxva
        → lookup t root vb
          ≡ (if vb / pgsize == a / pgsize then entry_for pa perm else lookup s root vb))
    → t.kernel_pagetable ≡ s.kernel_pagetable
    → (r : Run Vm (Unit {0})) → Ranged t root (a + pgsize) (pa + pgsize) sz perm last m r
    → Ranged s root a pa (pgsize + sz) perm last n r
Ranged-more s t root a pa sz perm last n m a_in order count next look kept r
      (all u g left same look') =
    all u g
      (left_over a last n m (tables_missing s root a) (tables_missing t root (a + pgsize)) count
        next order (length g.pages) left)
      (same ∙ kept)
      (λ vb vb_in.
        look' vb vb_in
        ∙ ap (λ v. ranged v (a + pgsize) (pa + pgsize) sz perm vb) (look vb vb_in)
        ∙ ranged_more (lookup s root vb) a pa sz perm vb a_in)
Ranged-more s t root a pa sz perm last n m a_in order count next look kept r (failed few) = failed (
    too_few a last n m (tables_missing s root a) (tables_missing t root (a + pgsize)) count next
      order few)

-- One round: it fails, it is the last one, or it goes on with the next page.
module _ (rounds : ℕ) (s t : Vm) (root a last pa perm : ℕ) where
  pub round_fails :
      mappage root a pa perm s ≡ ok minus_one t
      → kvmmap_loop (suc rounds) root a last pa perm s ≡ panic "kvmmap: mappage failed"
  unfolding kvmmap_loop
  round_fails run = rw run refl

  pub round_last :
      mappage root a pa perm s ≡ ok 0 t
      → a ≡ last
      → kvmmap_loop (suc rounds) root a last pa perm s ≡ ok tt t
  unfolding kvmmap_loop
  round_last run e = rw (run, eq→== a last e)

  pub round_next :
      mappage root a pa perm s ≡ ok 0 t
      → a ≢ last
      → a + pgsize < 2 ^ 64
      → pa + pgsize < 2 ^ 64
      → kvmmap_loop (suc rounds) root a last pa perm s
        ≡ kvmmap_loop rounds root (a + pgsize) last (pa + pgsize) perm t
  unfolding kvmmap_loop
  round_next run ne small small_pa =
      let next : (a + pgsize) % 2 ^ 64 ≡ a + pgsize = omega arith in
      let next_pa : (pa + pgsize) % 2 ^ 64 ≡ pa + pgsize = omega arith in
      rw (run, ne→== a last ne)
        (ap (λ x. kvmmap_loop rounds root x last ((pa + pgsize) % 2 ^ 64) perm t) next
          ∙ ap (λ x. kvmmap_loop rounds root (a + pgsize) last x perm t) next_pa)

-- The bytes of `k` pages and one more.
