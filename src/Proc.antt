-- ===== src/Proc.antt =====
-- Kernel threads (riscv-os/kernel/proc.c, riscv-os/include/proc.h) over the page allocator. What a
-- thread does between two switches is a parameter; lines on the console are left out.
pub mod Schedule
use os.Common.{
  ℕ, zero, suc, ◌+◌, ◌%◌, ◌^◌, Bool, true, false, not, if◌then◌else◌, ◌==◌, update, Option, none,
  some, List, [], ◌∷◌, Run, ok, panic, hang, M, pure, get, modify, fail, spin, ◌>>=◌, ◌>>◌,
}
use os.Klog.Format.{Chars, strncpy0}
use os.Pmm.{Kmem, pgsize, alloc_page, free_page}

abbrev pub nproc : ℕ
nproc = 4

-- `procstate_t`
pub data ProcState : Type 0 where
  unused : ProcState
  runnable : ProcState
  running : ProcState
  zombie : ProcState

-- `struct context`, with the callee-saved registers by number.
pub record Context : Type 0 where
  pub ra : ℕ
  pub sp : ℕ
  pub s : ℕ → ℕ

pub record Proc : Type 0 where
  pub pid : ℕ
  pub state : ProcState
  pub kstack : ℕ
  pub context : Context
  pub name : Chars

-- The globals of proc.c, and the page allocator's.
pub record Threads : Type 0 where
  pub procs : ℕ → Proc
  pub current_proc : Option ℕ
  pub next_pid : ℕ
  pub kmem : Kmem

abbrev pub set_proc : ℕ → Proc → Threads → Threads
set_proc i p t = record t { procs = update t.procs i p }

abbrev pub is_unused : ProcState → Bool
is_unused unused = true
is_unused runnable = false
is_unused running = false
is_unused zombie = false

abbrev pub is_runnable : ProcState → Bool
is_runnable unused = false
is_runnable runnable = true
is_runnable running = false
is_runnable zombie = false

-- `for (int i = 0; i < NPROC; i++)` of proc_init, by the rounds left.
unfoldable pub init_loop : ℕ → ℕ → (ℕ → Proc) → ℕ → Proc
init_loop zero i procs = procs
init_loop (suc rounds) i procs = init_loop rounds (i + 1) (
    update procs i
      (record (procs i) { pid = 0; state = unused; kstack = 0; name = update (procs i).name 0 0 }))

unfoldable pub proc_init : M Threads (Unit {0})
unfolding init_loop
proc_init =
    modify (λ t. record t { procs = init_loop nproc 0 t.procs; current_proc = none; next_pid = 1 })

-- The loop of alloc_proc: the first place that is not in use.
unfoldable pub find_proc : ℕ → ℕ → (ℕ → Proc) → Option ℕ
find_proc zero i procs = none
find_proc (suc rounds) i procs = elim (is_unused (procs i).state) [
  | true ↦ some i
  | false ↦ find_proc rounds (i + 1) procs
]

abbrev pub put_kmem : {A : Type 0} → Threads → Run Kmem A → Run Threads A
put_kmem t (ok a k) = ok a (record t { kmem = k })
put_kmem t (panic m) = panic m
put_kmem t hang = hang

-- `name ? name : "kthread"`
abbrev pub name_or_default : Option (List ℕ) → List ℕ
name_or_default none = 107 ∷ 116 ∷ 104 ∷ 114 ∷ 101 ∷ 97 ∷ 100 ∷ []
name_or_default (some name) = name

-- The end of alloc_proc, with the stack's page (0 if there is none).
unfoldable pub set_up : ℕ → ℕ → Option (List ℕ) → ℕ → M Threads (Option ℕ)
set_up i fn name stack = if stack == 0 then fail "alloc_proc: alloc_page for kstack failed" else do
  modify (λ t.
      set_proc i
        (record (t.procs i) {
          kstack = stack;
          context = record (t.procs i).context { ra = fn; sp = (stack + pgsize) % 2 ^ 64 };
          name = strncpy0 (t.procs i).name (name_or_default name) 16;
        })
        t)
  pure (some i)

-- `next_pid` is an `int`.
unfoldable pub alloc_at : ℕ → Option (List ℕ) → Option ℕ → M Threads (Option ℕ)
unfolding set_up
alloc_at fn name none = pure none
alloc_at fn name (some i) = do
  modify (λ t. set_proc i (record (t.procs i) { pid = t.next_pid; state = runnable }) t)
  modify (λ t. record t { next_pid = (t.next_pid + 1) % 2 ^ 32 })
  stack ← (λ t. put_kmem t (alloc_page t.kmem))
  set_up i fn name stack

unfoldable pub alloc_proc : ℕ → Option (List ℕ) → M Threads (Option ℕ)
unfolding find_proc alloc_at
alloc_proc fn name = do t ← get; alloc_at fn name (find_proc nproc 0 t.procs)

unfoldable pub kproc_create : ℕ → Option (List ℕ) → M Threads (Option ℕ)
kproc_create fn name = alloc_proc fn name

-- Up to the switch to the scheduler.
unfoldable pub yield : M Threads (Unit {0})
yield = do
  t ← get
  elim t.current_proc [
    | none ↦ pure tt
    | some i ↦ modify (λ u. set_proc i (record (u.procs i) { state = runnable }) u)
  ]

-- `if (p->kstack)` of kproc_exit.
unfoldable pub free_stack : ℕ → M Threads (Unit {0})
free_stack i = do
  t ← get
  if (t.procs i).kstack == 0 then pure tt else do
    (λ u. put_kmem u (free_page (u.procs i).kstack u.kmem))
    modify (λ u. set_proc i (record (u.procs i) { kstack = 0 }) u)

-- Up to the switch to the scheduler.
unfoldable pub kproc_exit : M Threads (Unit {0})
unfolding free_stack
kproc_exit = do
  t ← get
  elim t.current_proc [
    | none ↦ fail "kproc_exit: no current_proc"
    | some i ↦ do modify (λ u. set_proc i (record (u.procs i) { state = zombie }) u); free_stack i
  ]

-- The scheduler, where `body i` is what the thread in place `i` does from the switch to it up to
-- the switch back.
module _ (body : ℕ → M Threads (Unit {0})) where
  unfoldable pub dispatch : ℕ → M Threads (Unit {0})
  dispatch i = do
    modify (λ t. record t { current_proc = some i })
    modify (λ t. set_proc i (record (t.procs i) { state = running }) t)
    body i
    modify (λ t. record t { current_proc = none })

  -- One pass over the table, by the rounds left: was a thread runnable?
  unfoldable pub pass_loop : ℕ → ℕ → Bool → M Threads Bool
  pass_loop zero i any = pure any
  pass_loop (suc rounds) i any = do
    t ← get
    if is_runnable (t.procs i).state
        then dispatch i >> pass_loop rounds (i + 1) true
        else pass_loop rounds (i + 1) any

  -- `for (;;)` of scheduler_run, for a number of passes.
  unfoldable pub scheduler_run : ℕ → M Threads (Unit {0})
  scheduler_run zero = spin
  scheduler_run (suc passes) = do
    any ← pass_loop nproc 0 false
    if not any then pure tt else scheduler_run passes
