-- ===== src/Syscalls/Dispatch.antt =====
-- The table of system calls (riscv-os/kernel/syscall.c: syscalls, syscall).
use os.Common.{ℕ, ◌%◌, ◌^◌, ◌&&◌, if◌then◌else◌, ltb, ◌==◌, Option, none, some, M, pure, ◌>>=◌}
use os.Machine.{Machine}
use os.Syscalls.{Frame, failure, sys_getpid, sys_uptime, sys_pause, sys_test_add, sys_test_str}
use os.Syscalls.Calls.{sys_open, sys_read, sys_write, sys_close, sys_fstat, sys_dup}

-- What the calls read outside of this state: the pid of the current process, and the tick counter
-- at its readings, of which a pause makes `rounds`.
pub record Clock : Type 0 where
  pub pid : Option ℕ
  pub ticks : ℕ → ℕ
  pub rounds : ℕ

-- `syscalls[num]`
unfoldable pub syscalls : Clock → ℕ → Option (Option Frame → M Machine ℕ)
syscalls c num =
    if num == 1
    then some (λ f. sys_getpid c.pid)
    else if num == 2
    then some (λ f. sys_uptime (c.ticks 0))
    else if num == 3
    then some (sys_pause c.rounds c.ticks)
    else if num == 4
    then some sys_test_add
    else if num == 5
    then some sys_test_str
    else if num == 6
    then some sys_open
    else if num == 7
    then some sys_read
    else if num == 8
    then some sys_write
    else if num == 9
    then some sys_close
    else if num == 10
    then some sys_fstat
    else if num == 11
    then some sys_dup
    else none

unfoldable pub run_call : Option (Option Frame → M Machine ℕ) → Frame → M Machine ℕ
run_call none f = pure failure
run_call (some call) f = call (some f)

-- The frame with the result. `num` is an `int`, compared with the length of the table.
unfoldable pub syscall : Clock → Frame → M Machine Frame
unfolding syscalls run_call
syscall c f = do
  let num = f.a7 % 2 ^ 32
  ret ← (if ltb 0 num && ltb num 12 then run_call (syscalls c num) f else pure failure)
  pure (record f { a0 = ret })
