-- ===== src/Syscalls.antt =====
-- System calls (riscv-os/kernel/syscall.c, sysproc.c) but for those on files. A result is a 64-bit
-- word. The frame that is being served, if there is one, is an argument.
pub mod Files
pub mod Calls
pub mod Dispatch
use os.Common.{
  ℕ, zero, suc, ◌+◌, ◌-◌, ◌*◌, ◌%◌, ◌^◌, Bool, true, false, not, ◌&&◌, ◌||◌, if◌then◌else◌, ltb,
  leb, ◌==◌, Option, none, some, List, [], ◌∷◌, length, M, pure, get, fail, spin, ◌>>=◌, ◌>>◌,
}
use os.Machine.{Machine}

-- The registers of `struct syscall_frame`.
pub record Frame : Type 0 where
  pub a0 : ℕ
  pub a1 : ℕ
  pub a2 : ℕ
  pub a3 : ℕ
  pub a4 : ℕ
  pub a5 : ℕ
  pub a6 : ℕ
  pub a7 : ℕ

-- `(uint64)-1`
abbrev pub failure : ℕ
failure = 2 ^ 64 - 1

-- `(uint64)` of an `int`, given by its 32-bit word.
unfoldable pub sign_extend : ℕ → ℕ
sign_extend w = if ltb w (2 ^ 31) then w else w + (2 ^ 64 - 2 ^ 32)

unfoldable pub argraw : Option Frame → ℕ → M Machine ℕ
argraw none n = fail "argraw: cur_frame is null"
argraw (some f) n =
    if n == 0
    then pure f.a0
    else if n == 1
    then pure f.a1
    else if n == 2
    then pure f.a2
    else if n == 3
    then pure f.a3
    else if n == 4
    then pure f.a4
    else if n == 5
    then pure f.a5
    else fail "argraw: bad arg index"

unfoldable pub argint : Option Frame → ℕ → M Machine ℕ
unfolding argraw
argint frame n = do w ← argraw frame n; pure (w % 2 ^ 32)

unfoldable pub argaddr : Option Frame → ℕ → M Machine ℕ
unfolding argraw
argaddr frame n = argraw frame n

-- The characters up to a 0, at most the rounds left.
unfoldable pub read_str : ℕ → ℕ → (ℕ → ℕ) → List ℕ
read_str zero a mem = []
read_str (suc rounds) a mem =
    let rest = read_str rounds (a + 1) mem in if mem a == 0 then [] else mem a ∷ rest

-- The string in `buf` (none for -1); the result is its length.
unfoldable pub argstr : Option Frame → ℕ → ℕ → M Machine (Option (List ℕ))
unfolding argaddr read_str
argstr frame n max = do
  src ← argaddr frame n
  s ← get
  if (src == 0) || (max == 0) then pure none else pure (some (read_str (max - 1) src s.memory))

-- The pid of the current process, if there is one.
unfoldable pub sys_getpid : Option ℕ → M Machine ℕ
sys_getpid none = pure 0
sys_getpid (some pid) = pure (sign_extend pid)

unfoldable pub sys_uptime : ℕ → M Machine ℕ
sys_uptime ticks = pure ticks

-- The busy wait of sys_pause; `ticks` is the counter at each reading, of which `rounds` are made.
unfoldable pub pause_loop : ℕ → ℕ → (ℕ → ℕ) → ℕ → ℕ → M Machine ℕ
pause_loop zero k ticks start n = spin
pause_loop (suc rounds) k ticks start n =
    if ltb ((ticks k + 2 ^ 64 - start) % 2 ^ 64) n
    then pause_loop rounds (k + 1) ticks start n
    else pure 0

unfoldable pub sys_pause : ℕ → (ℕ → ℕ) → Option Frame → M Machine ℕ
unfolding pause_loop argint
sys_pause rounds ticks frame = do
  n ← argint frame 0
  pause_loop rounds 1 ticks (ticks 0) (if leb (2 ^ 31) n then 0 else n)

-- The sum of two words, as the `int` that it is on this machine.
unfoldable pub sys_test_add : Option Frame → M Machine ℕ
unfolding argint sign_extend
sys_test_add frame = do
  x ← argint frame 0
  y ← argint frame 1
  pure (sign_extend ((x + y) % 2 ^ 32))

unfoldable pub sys_test_str : Option Frame → M Machine ℕ
unfolding argstr
sys_test_str frame = do
  got ← argstr frame 0 64
  elim got [ none ↦ pure failure | some str ↦ pure (length str) ]
