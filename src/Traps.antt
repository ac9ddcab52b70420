-- ===== src/Traps.antt =====
-- The traps of riscv-os/kernel/trap.c, less its lines on the console.
pub mod Return
use Prim.Native.Nat.{bit_and}
use os.Common.{ℕ, ◌+◌, ◌%◌, ◌^◌, if◌then◌else◌, ◌==◌, M, pure, get, modify, fail, ◌>>=◌, ◌>>◌}
use os.Riscv.{
  Hart, sstatus_spp, r_scause, r_sepc, r_sstatus, r_time, w_sepc, w_sstatus, w_stimecmp, w_stvec,
  intr_get,
}

-- With the address of kernelvec.
unfoldable pub trapinithart : ℕ → M Hart (Unit {0})
trapinithart kernelvec = w_stvec kernelvec

unfoldable pub clockintr : M Hart (Unit {0})
clockintr = do
  modify (λ h. record h { ticks = (h.ticks + 1) % 2 ^ 64 })
  now ← r_time
  w_stimecmp ((now + 1000000) % 2 ^ 64)

-- The cause of a timer interrupt in supervisor mode.
abbrev pub timer_cause : ℕ
timer_cause = 2 ^ 63 + 5

unfoldable pub kerneltrap : M Hart (Unit {0})
unfolding clockintr intr_get
kerneltrap = do
  scause ← r_scause
  sepc ← r_sepc
  sstatus ← r_sstatus
  if bit_and sstatus sstatus_spp == 0 then fail "kerneltrap: not from supervisor mode" else do
    on ← intr_get
    if on then fail "kerneltrap: interrupts enabled" else do
      (if scause == timer_cause then clockintr else fail "kerneltrap")
      w_sepc sepc
      w_sstatus sstatus
