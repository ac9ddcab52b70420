-- ===== src/Vm/Ranges.antt =====
-- kvmmap (riscv-os/kernel/vm.c): the mapping of a range of pages.
use os.Common.{
  ℕ, length, zero, suc, ◌+◌, ◌-◌, ◌*◌, ◌/◌, ◌%◌, ◌^◌, ◌≤◌, ◌<◌, ◌≡◌, inl, inr, refl, sym, ap, ◌∙◌,
  subst, arith, Run,
}
use os.Pmm.{pgsize}
use os.Vm.{Vm, maxva, mappage, kvmmap_loop, kvmmap, pg_round_down}
use os.Vm.Missing.{next-missing}
use os.Vm.Mapping.{IsPaged, lookup, mappage-Mapped}
use os.Vm.Rounds.{
  ranged_one, Ranged, all, failed, IsUnmapped, Mapped-cases, IsUnmapped-rest, Ranged-more,
  round_fails, round_last, round_next,
}

abbrev bytes : ℕ → ℕ
bytes zero = pgsize
bytes (suc k) = pgsize + bytes k

bytes_lem : (k : ℕ) → bytes k ≡ pgsize + k * pgsize
bytes_lem zero = refl
bytes_lem (suc k) = omega (arith, bytes_lem k)

kvmmap_loop-Ranged :
    (k : ℕ) (s : Vm) (root a last pa perm : ℕ) (g : IsPaged s root)
    → a % pgsize ≡ 0
    → pa % pgsize ≡ 0
    → last ≡ a + k * pgsize
    → a + (bytes k) ≤ maxva
    → pa + (bytes k) ≤ 2 ^ 64
    → IsUnmapped s root a (bytes k)
    → Ranged s root a pa
        (bytes k)
        perm
        last
        (length g.pages)
        (kvmmap_loop (suc k) root a last pa perm s)
kvmmap_loop-Ranged zero s root a last pa perm g a_in pa_in e small small_pa empty =
    elim (mappage-Mapped s root a pa perm g (omega arith) a_in pa_in) [
      | inl (valid, _) ↦ absurd (cc (valid, empty a (omega arith) (omega arith)))
      | inr (_, m) ↦
          elim (Mapped-cases s root a pa perm (length g.pages) (mappage root a pa perm s) m) [
            | inr (t, run, few) ↦
                subst (Ranged s root a pa pgsize perm last (length g.pages))
                  (sym (round_fails 0 s t root a last pa perm run)) (failed (omega (arith, few)))
            | inl (t, run, g', count, _, kept, look) ↦
                subst (Ranged s root a pa pgsize perm last (length g.pages))
                  (sym (round_last 0 s t root a last pa perm run (omega arith)))
                  (all t g' (omega (arith, count)) kept
                    (λ vb vb_in. look vb vb_in ∙ ranged_one (lookup s root vb) a pa perm vb a_in))
          ]
    ]
kvmmap_loop-Ranged (suc k) s root a last pa perm g a_in pa_in e small small_pa empty =
    elim (mappage-Mapped s root a pa perm g (omega (arith, bytes_lem k)) a_in pa_in) [
      | inl (valid, _) ↦
          absurd (cc (valid, empty a (omega (arith, bytes_lem k)) (omega (arith, bytes_lem k))))
      | inr (_, m) ↦
          elim (Mapped-cases s root a pa perm (length g.pages) (mappage root a pa perm s) m) [
            | inr (t, run, few) ↦
                subst (Ranged s root a pa (bytes (suc k)) perm last (length g.pages))
                  (sym (round_fails (suc k) s t root a last pa perm run))
                  (failed (omega (arith, few)))
            | inl (t, run, g', count, zero_left, kept, look) ↦
                subst (Ranged s root a pa (bytes (suc k)) perm last (length g.pages))
                  (sym (
                    round_next (suc k) s t root a last pa perm run (omega (arith, bytes_lem k))
                      (omega (arith, bytes_lem k)) (omega (arith, bytes_lem k))))
                  (Ranged-more s t root a pa (bytes k) perm last (length g.pages) (length g'.pages)
                    a_in (omega arith) count
                    (next-missing t root a a_in (omega (arith, bytes_lem k)) zero_left) look kept
                    (kvmmap_loop (suc k) root (a + pgsize) last (pa + pgsize) perm t)
                    (kvmmap_loop-Ranged k t root (a + pgsize) last (pa + pgsize) perm g'
                      (omega (arith, bytes_lem k)) (omega (arith, bytes_lem k))
                      (omega (arith, bytes_lem k)) (omega (arith, bytes_lem k))
                      (omega (arith, bytes_lem k))
                      (IsUnmapped-rest s t root a pa (bytes k) perm a_in
                        (omega (arith, bytes_lem k)) look empty)))
          ]
    ]

kvmmap_lem :
    (root va pa sz perm : ℕ)
    → va % pgsize ≡ 0
    → sz % pgsize ≡ 0
    → 0 < sz
    → va + sz ≤ maxva
    → kvmmap root va pa sz perm
      ≡ kvmmap_loop (suc (sz / pgsize - 1)) root va (va + (sz / pgsize - 1) * pgsize) pa perm
unfolding kvmmap
kvmmap_lem root va pa sz perm va_in sz_in some small =
    let last = pg_round_down ((va + sz + 2 ^ 64 - 1) % 2 ^ 64) in
    let a_eq : pg_round_down va ≡ va = omega arith in
    let last_eq : last ≡ va + (sz / pgsize - 1) * pgsize = omega arith in
    let rounds : (last - va) / pgsize ≡ sz / pgsize - 1 = omega (arith, last_eq) in
    ap (λ x. kvmmap_loop (suc ((last - x) / pgsize)) root x last pa perm) a_eq
    ∙ ap (λ x. kvmmap_loop (suc x) root va last pa perm) rounds
    ∙ ap (λ x. kvmmap_loop (suc (sz / pgsize - 1)) root va x pa perm) last_eq

-- kvmmap of whole pages below MAXVA none of which is mapped, in well-formed page tables: if there
-- are as many free pages as tables are missing for the first page, and one more for each border of
-- tables in the range, it returns, every address of the range has the entry of its page behind
-- `pa`, every other one the entry that it had, and no more free pages than these have been taken;
-- it panics only if there are less.
pub kvmmap-Ranged :
    (s : Vm) (root va pa sz perm : ℕ) (g : IsPaged s root)
    → va % pgsize ≡ 0
    → pa % pgsize ≡ 0
    → sz % pgsize ≡ 0
    → 0 < sz
    → va + sz ≤ maxva
    → pa + sz ≤ 2 ^ 64
    → IsUnmapped s root va sz
    → Ranged s root va pa sz perm (va + sz - pgsize) (length g.pages) (kvmmap root va pa sz perm s)
kvmmap-Ranged s root va pa sz perm g va_in pa_in sz_in some small small_pa empty =
    let k = sz / pgsize - 1 in
    let size : bytes k ≡ sz = omega (arith, bytes_lem k) in
    let last : va + k * pgsize ≡ va + sz - pgsize = omega arith in
    subst (Ranged s root va pa sz perm (va + sz - pgsize) (length g.pages))
      (sym (
        ap (λ (f : Vm → Run Vm (Unit {0})). f s)
          (kvmmap_lem root va pa sz perm va_in sz_in some small)))
      (subst
        (λ l.
          Ranged s root va pa sz perm l (length g.pages)
            (kvmmap_loop (suc k) root va (va + k * pgsize) pa perm s))
        last
        (subst
          (λ n.
            Ranged s root va pa n perm (va + k * pgsize) (length g.pages)
              (kvmmap_loop (suc k) root va (va + k * pgsize) pa perm s))
          size
          (kvmmap_loop-Ranged k s root va (va + k * pgsize) pa perm g va_in pa_in refl
            (omega (arith, size)) (omega (arith, size))
            (subst (IsUnmapped s root va) (sym size) empty))))
