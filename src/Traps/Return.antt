-- ===== src/Traps/Return.antt =====
-- A timer interrupt of the kernel, from the trap to the return (riscv-os/kernel/trap.c). What the
-- hart does at a trap and at `sret` is as the privileged architecture of RISC-V has it; the general
-- registers are saved by riscv-os/kernel/kernelvec.S and not in the model.
use Prim.Native.Nat.{bit_and, bit_or}
use os.Common.{ℕ, ◌+◌, ◌*◌, ◌^◌, Bool, ◌&&◌, ◌||◌, ◌==◌}
use os.Riscv.{Hart, complement}
use os.Riscv.Bits.{bit}
use os.Traps.{timer_cause}

-- The fields SIE, SPIE and SPP of sstatus.
abbrev trap_bits : ℕ
trap_bits = 2 ^ 1 + 2 ^ 5 + 2 ^ 8

-- sstatus at a trap from supervisor mode: SPP is set, SIE goes to SPIE and is cleared.
abbrev pub entered : ℕ → ℕ
entered x = bit_or (bit_and x (complement trap_bits)) (2 ^ 8 + 2 ^ 5 * bit 1 x)

-- sstatus at `sret`: SPIE goes to SIE and is set, SPP is cleared.
abbrev pub left : ℕ → ℕ
left x = bit_or (bit_and x (complement trap_bits)) (2 ^ 5 + 2 * bit 5 x)

abbrev pub timer_interrupt : Hart → Hart
timer_interrupt h = record h {
  sepc = h.pc;
  scause = timer_cause;
  stval = 0;
  sstatus = entered h.sstatus;
  pc = h.stvec;
}

-- The field MPRV of mstatus, which a return to supervisor mode clears.
abbrev mprv : ℕ
mprv = 2 ^ 17

abbrev pub sret : Hart → Hart
sret h = record h {
  pc = h.sepc;
  mode = bit 8 h.sstatus;
  sstatus = left h.sstatus;
  mstatus = bit_and h.mstatus (complement mprv);
}

-- The bits of the masks at the other places.
abbrev plain_bit : ℕ → Bool
plain_bit k =
    (k == 1)
    || (k == 5)
    || (k == 8)
    || ((bit k (complement trap_bits) == 1)
        && (bit k (2 ^ 8 + 2 ^ 5) == 0)
        && (bit k (2 ^ 5 + 2) == 0))
