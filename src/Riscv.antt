-- ===== src/Riscv.antt =====
-- The registers of the hart and their accessors (riscv-os/include/riscv.h). A register holds a
-- 64-bit word, and is read as it was written; `time` is what its next reading gives. `pc` and `mode`
-- are what the hart goes on with (1 is supervisor mode), `ticks` is the counter of trap.c, and
-- `written` has the kernel's writes to control registers, the last one first. The fields of mstatus
-- that sstatus shows are kept in sstatus alone.
pub mod Bits
use Prim.Native.Nat.{bit_and, bit_or}
use os.Common.{String, List, ◌∷◌, ℕ, ◌-◌, ◌*◌, ◌^◌, Bool, not, ◌==◌, M, modify, pure, get, ◌>>=◌}

-- A write to a control register, by the register's name.
pub record CsrWrite : Type 0 where
  pub csr : String
  pub value : ℕ

pub record Hart : Type 0 where
  pub sstatus : ℕ
  pub sie : ℕ
  pub stvec : ℕ
  pub scause : ℕ
  pub sepc : ℕ
  pub stval : ℕ
  pub satp : ℕ
  pub mstatus : ℕ
  pub mepc : ℕ
  pub medeleg : ℕ
  pub mideleg : ℕ
  pub mie : ℕ
  pub pmpaddr0 : ℕ
  pub pmpcfg0 : ℕ
  pub menvcfg : ℕ
  pub mcounteren : ℕ
  pub mhartid : ℕ
  pub tp : ℕ
  pub time : ℕ
  pub stimecmp : ℕ
  pub pc : ℕ
  pub mode : ℕ
  pub ticks : ℕ
  pub written : List CsrWrite

abbrev pub sstatus_sie : ℕ
sstatus_sie = 2 ^ 1

abbrev pub sstatus_spie : ℕ
sstatus_spie = 2 ^ 5

abbrev pub sstatus_spp : ℕ
sstatus_spp = 2 ^ 8

abbrev pub mstatus_mpp_mask : ℕ
mstatus_mpp_mask = 3 * 2 ^ 11

abbrev pub mstatus_mpp_s : ℕ
mstatus_mpp_s = 2 ^ 11

abbrev pub sie_seie : ℕ
sie_seie = 2 ^ 9

abbrev pub sie_stie : ℕ
sie_stie = 2 ^ 5

abbrev pub mie_stie : ℕ
mie_stie = 2 ^ 5

-- `~` of a 64-bit word.
abbrev pub complement : ℕ → ℕ
complement x = 2 ^ 64 - 1 - x

abbrev pub r_sstatus : M Hart ℕ
r_sstatus = do h ← get; pure h.sstatus

abbrev pub w_sstatus : ℕ → M Hart (Unit {0})
w_sstatus x =
    modify
      (λ h. record h { sstatus = x; written = record { csr = "sstatus"; value = x } ∷ h.written })

abbrev pub r_sie : M Hart ℕ
r_sie = do h ← get; pure h.sie

abbrev pub w_sie : ℕ → M Hart (Unit {0})
w_sie x =
    modify (λ h. record h { sie = x; written = record { csr = "sie"; value = x } ∷ h.written })

abbrev pub w_stvec : ℕ → M Hart (Unit {0})
w_stvec x =
    modify (λ h. record h { stvec = x; written = record { csr = "stvec"; value = x } ∷ h.written })

abbrev pub r_scause : M Hart ℕ
r_scause = do h ← get; pure h.scause

abbrev pub r_sepc : M Hart ℕ
r_sepc = do h ← get; pure h.sepc

abbrev pub w_sepc : ℕ → M Hart (Unit {0})
w_sepc x =
    modify (λ h. record h { sepc = x; written = record { csr = "sepc"; value = x } ∷ h.written })

abbrev pub r_stval : M Hart ℕ
r_stval = do h ← get; pure h.stval

abbrev pub r_satp : M Hart ℕ
r_satp = do h ← get; pure h.satp

abbrev pub w_satp : ℕ → M Hart (Unit {0})
w_satp x =
    modify (λ h. record h { satp = x; written = record { csr = "satp"; value = x } ∷ h.written })

abbrev pub r_mstatus : M Hart ℕ
r_mstatus = do h ← get; pure h.mstatus

abbrev pub w_mstatus : ℕ → M Hart (Unit {0})
w_mstatus x =
    modify
      (λ h. record h { mstatus = x; written = record { csr = "mstatus"; value = x } ∷ h.written })

abbrev pub w_mepc : ℕ → M Hart (Unit {0})
w_mepc x =
    modify (λ h. record h { mepc = x; written = record { csr = "mepc"; value = x } ∷ h.written })

abbrev pub r_medeleg : M Hart ℕ
r_medeleg = do h ← get; pure h.medeleg

abbrev pub w_medeleg : ℕ → M Hart (Unit {0})
w_medeleg x =
    modify
      (λ h. record h { medeleg = x; written = record { csr = "medeleg"; value = x } ∷ h.written })

abbrev pub r_mideleg : M Hart ℕ
r_mideleg = do h ← get; pure h.mideleg

abbrev pub w_mideleg : ℕ → M Hart (Unit {0})
w_mideleg x =
    modify
      (λ h. record h { mideleg = x; written = record { csr = "mideleg"; value = x } ∷ h.written })

abbrev pub r_mie : M Hart ℕ
r_mie = do h ← get; pure h.mie

abbrev pub w_mie : ℕ → M Hart (Unit {0})
w_mie x =
    modify (λ h. record h { mie = x; written = record { csr = "mie"; value = x } ∷ h.written })

abbrev pub w_pmpaddr0 : ℕ → M Hart (Unit {0})
w_pmpaddr0 x =
    modify
      (λ h. record h { pmpaddr0 = x; written = record { csr = "pmpaddr0"; value = x } ∷ h.written })

abbrev pub w_pmpcfg0 : ℕ → M Hart (Unit {0})
w_pmpcfg0 x =
    modify
      (λ h. record h { pmpcfg0 = x; written = record { csr = "pmpcfg0"; value = x } ∷ h.written })

abbrev pub r_menvcfg : M Hart ℕ
r_menvcfg = do h ← get; pure h.menvcfg

abbrev pub w_menvcfg : ℕ → M Hart (Unit {0})
w_menvcfg x =
    modify
      (λ h. record h { menvcfg = x; written = record { csr = "menvcfg"; value = x } ∷ h.written })

abbrev pub r_mcounteren : M Hart ℕ
r_mcounteren = do h ← get; pure h.mcounteren

abbrev pub w_mcounteren : ℕ → M Hart (Unit {0})
w_mcounteren x = modify (λ h. record h {
  mcounteren = x;
  written = record { csr = "mcounteren"; value = x } ∷ h.written;
})

abbrev pub r_mhartid : M Hart ℕ
r_mhartid = do h ← get; pure h.mhartid

abbrev pub r_tp : M Hart ℕ
r_tp = do h ← get; pure h.tp

abbrev pub w_tp : ℕ → M Hart (Unit {0})
w_tp x = modify (λ h. record h { tp = x })

abbrev pub r_time : M Hart ℕ
r_time = do h ← get; pure h.time

abbrev pub w_stimecmp : ℕ → M Hart (Unit {0})
w_stimecmp x =
    modify
      (λ h. record h { stimecmp = x; written = record { csr = "stimecmp"; value = x } ∷ h.written })

unfoldable pub intr_on : M Hart (Unit {0})
intr_on = do x ← r_sstatus; w_sstatus (bit_or x sstatus_sie)

unfoldable pub intr_off : M Hart (Unit {0})
intr_off = do x ← r_sstatus; w_sstatus (bit_and x (complement sstatus_sie))

unfoldable pub intr_get : M Hart Bool
intr_get = do x ← r_sstatus; pure (not (bit_and x sstatus_sie == 0))
