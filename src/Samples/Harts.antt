-- ===== src/Samples/Harts.antt =====
-- The theorems about traps and the start of the kernel at a sample hart.
use os.Common.{◌≡◌, [], ok}
use os.Riscv.{Hart}
use os.Boot.{start}
use os.Boot.Supervisor.{IsSupervisor, start-IsSupervisor}

-- In the kernel, with interrupts enabled.
abbrev hart : Hart
hart = record {
  sstatus = 2;
  sie = 0;
  stvec = 2147488768;
  scause = 0;
  sepc = 0;
  stval = 0;
  satp = 0;
  mstatus = 6144;
  mepc = 0;
  medeleg = 0;
  mideleg = 0;
  mie = 0;
  pmpaddr0 = 0;
  pmpcfg0 = 0;
  menvcfg = 0;
  mcounteren = 0;
  mhartid = 0;
  tp = 0;
  time = 5000000;
  stimecmp = 0;
  pc = 2147500032;
  mode = 1;
  ticks = 9;
  written = [];
}

start-IsSupervisor_example :
    (t : Hart) × (start 2147483648 (record hart { mode = 3 }) ≡ ok tt t)
    × IsSupervisor 2147483648 (record hart { mode = 3 }) t
start-IsSupervisor_example = start-IsSupervisor 2147483648 (record hart { mode = 3 })
