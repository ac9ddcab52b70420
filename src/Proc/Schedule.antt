-- ===== src/Proc/Schedule.antt =====
-- The rounds of scheduler_run (riscv-os/kernel/proc.c).
use os.Common.{
  ℕ, zero, suc, ◌+◌, ◌≤◌, ◌<◌, ◌≡◌, ◌⊎◌, inl, inr, refl, sym, ap, ◌∙◌, subst, arith, Bool, true,
  false, not, ◌==◌, if◌then◌else◌, Bool-cases, ok, and_then, M, pure,
}
use os.Proc.{Threads, nproc, is_runnable, dispatch, pass_loop, scheduler_run}

abbrev pub runs : Threads → ℕ → Bool
runs t i = is_runnable (t.procs i).state

-- The work that is left, which every switch to a runnable thread lowers; the thread comes back.
abbrev pub Lowers : (ℕ → M Threads (Unit {0})) → (Threads → ℕ) → Type 0
Lowers body work =
    (i : ℕ) (t : Threads)
    → i < nproc
    → runs t i ≡ true
    → (u : Threads) × (dispatch body i t ≡ ok tt u) × (work u < work t)

-- What a pass from place `i` up to `end` has done: nothing, as no thread was runnable, or work.
abbrev Passed : (Threads → ℕ) → ℕ → ℕ → Bool → Threads → Bool → Threads → Type 0
Passed work i end any t any' u =
    ((any' ≡ any) × (u ≡ t) × ((j : ℕ) → i ≤ j → j < end → runs t j ≡ false))
    ⊎ ((any' ≡ true) × (work u < work t))

module _ (body : ℕ → M Threads (Unit {0})) (work : Threads → ℕ) (lowers : Lowers body work) where
  pass_loop-Passed :
      (rounds i : ℕ) (any : Bool) (t : Threads)
      → i + rounds ≤ nproc
      → (any' : Bool) × (u : Threads) × (pass_loop body rounds i any t ≡ ok any' u)
        × Passed work i (i + rounds) any t any' u
  unfolding pass_loop
  pass_loop-Passed zero i any t h = (any, t, refl, inl (refl, refl, λ j k l. absurd (omega arith)))
  pass_loop-Passed (suc rounds) i any t h = elim (Bool-cases (runs t i)) [
    | inl ready ↦
        let (t', run, less) = lowers i t (omega arith) ready in
        let (any', u, run', p) = pass_loop-Passed rounds (i + 1) true t' (omega arith) in
        (
          any',
          u,
          rw ready (ap (λ r. and_then r (λ _. pass_loop body rounds (i + 1) true)) run ∙ run'),
          elim p [
            | inl (e, same, none) ↦ inr (e, subst (λ v. work v < work t) (sym same) less)
            | inr (e, fewer) ↦ inr (e, omega (arith, less, fewer))
          ],
        )
    | inr idle ↦
        let (any', u, run', p) = pass_loop-Passed rounds (i + 1) any t (omega arith) in
        (
          any',
          u,
          rw idle run',
          elim p [
            | inl (e, same, none) ↦ inl (
              e,
              same,
              λ j k l. elim (Bool-cases (j == i)) [
                | inl here ↦ (let q : j ≡ i = ground arith in ap (runs t) q ∙ idle)
                | inr other ↦ none j (ground arith) (omega arith)
              ],
            )
            | inr q ↦ inr q
          ],
        )
  ]

  -- If every runnable thread that is switched to comes back with less work left, scheduler_run
  -- returns after at most as many passes as there is work, and one more, and then no thread is
  -- runnable.
  pub scheduler_run-idle :
      (passes : ℕ) (t : Threads)
      → work t < passes
      → (u : Threads) × (scheduler_run body passes t ≡ ok tt u)
        × ((i : ℕ) → i < nproc → runs u i ≡ false)
  unfolding scheduler_run
  scheduler_run-idle zero t h = absurd (omega arith)
  scheduler_run-idle (suc passes) t h =
      let rest = (λ (a : Bool). if not a then pure tt else scheduler_run body passes) in
      let (any, u, run, p) = pass_loop-Passed nproc 0 false t (omega arith) in
      elim p [
        | inl (e, same, none) ↦ (
          u,
          ap (λ r. and_then r rest) run ∙ ap (λ a. rest a u) e,
          λ i k. ap (λ v. runs v i) same ∙ none i (omega arith) k,
        )
        | inr (e, less) ↦
            let (v, go, idle) = scheduler_run-idle passes u (omega (arith, less)) in
            (v, ap (λ r. and_then r rest) run ∙ ap (λ a. rest a u) e ∙ go, idle)
      ]
