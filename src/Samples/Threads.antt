-- ===== src/Samples/Threads.antt =====
-- The scheduler with threads that end at once.
use os.Common.{
  ℕ, zero, suc, ◌+◌, ◌<◌, ◌≡◌, refl, arith, Bool, true, false, not, ◌&&◌, ◌==◌, Bool-cases, inl,
  inr, none, update, ok, M, modify,
}
use os.Proc.{
  Threads, Proc, runnable, unused, zombie, running, nproc, set_proc, dispatch, scheduler_run,
}
use os.Proc.Schedule.{runs, Lowers, scheduler_run-idle}

-- The thread ends without a stack to free.
abbrev ending : ℕ → M Threads (Unit {0})
ending i = modify (λ t. set_proc i (record (t.procs i) { state = zombie }) t)

abbrev weight : Bool → ℕ
weight true = 1
weight false = 0

-- The number of runnable threads.
abbrev ready : Threads → ℕ
ready t = weight (runs t 0) + weight (runs t 1) + weight (runs t 2) + weight (runs t 3)

abbrev ended : ℕ → Threads → Threads
ended i t =
    let u = set_proc i (record (t.procs i) { state = running }) t in
    record (set_proc i (record (u.procs i) { state = zombie }) u) { current_proc = none }

dispatch-ending : (i : ℕ) (t : Threads) → dispatch ending i t ≡ ok tt (ended i t)
unfolding dispatch
dispatch-ending i t = refl

ended-runs : (i j : ℕ) (t : Threads) → runs (ended i t) j ≡ (not (j == i) && runs t j)
ended-runs i j t = elim (Bool-cases (j == i)) [
  | inl same ↦ rw same refl
  | inr other ↦ rw other refl
]

ready-ended : (i : ℕ) (t : Threads) → i < 4 → runs t i ≡ true → ready (ended i t) < ready t
ready-ended zero t h r = rw r (omega arith)
ready-ended (suc zero) t h r = rw r (omega arith)
ready-ended (suc (suc zero)) t h r = rw r (omega arith)
ready-ended (suc (suc (suc zero))) t h r = rw r (omega arith)
ready-ended (suc (suc (suc (suc i)))) t h r = absurd (omega arith)

ending-Lowers : Lowers ending ready
ending-Lowers i t h r = (ended i t, dispatch-ending i t, ready-ended i t h r)

abbrev thread : Proc
thread = record {
  pid = 1;
  state = runnable;
  kstack = 0;
  context = record { ra = 0; sp = 0; s = λ _. 0 };
  name = λ _. 0;
}

abbrev two_threads : Threads
two_threads = record {
  procs = update (update (λ _. record thread { state = unused }) 0 thread) 2 thread;
  current_proc = none;
  next_pid = 3;
  kmem = record { freelist = 0; next = λ _. 0 };
}

scheduler_run-idle_example :
    (u : Threads) × (scheduler_run ending 3 two_threads ≡ ok tt u)
    × ((i : ℕ) → i < nproc → runs u i ≡ false)
scheduler_run-idle_example =
    scheduler_run-idle ending ready ending-Lowers 3 two_threads (omega arith)
