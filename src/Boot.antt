-- ===== src/Boot.antt =====
-- The way into supervisor mode: riscv-os/kernel/start.c.
pub mod Supervisor
use Prim.Native.Nat.{bit_and, bit_or}
use os.Common.{ℕ, ◌+◌, ◌-◌, ◌*◌, ◌/◌, ◌%◌, ◌^◌, if◌then◌else◌, leb, ◌==◌, M, modify, ◌>>=◌, ◌>>◌}
use os.Riscv.{
  Hart, complement, mstatus_mpp_mask, mstatus_mpp_s, sie_seie, sie_stie, mie_stie, r_mstatus,
  w_mstatus, w_mepc, w_satp, w_medeleg, w_mideleg, r_sie, w_sie, w_pmpaddr0, w_pmpcfg0, r_mie,
  w_mie, r_menvcfg, w_menvcfg, r_mcounteren, w_mcounteren, r_mhartid, w_tp, r_time, w_stimecmp,
}

unfoldable pub timerinit : M Hart (Unit {0})
timerinit = do
  a ← r_mie
  w_mie (bit_or a mie_stie)
  b ← r_menvcfg
  w_menvcfg (bit_or b (2 ^ 63))
  c ← r_mcounteren
  w_mcounteren (bit_or c 2)
  now ← r_time
  w_stimecmp ((now + 1000000) % 2 ^ 64)

-- `(uint64)(int)x`
abbrev pub as_int : ℕ → ℕ
as_int x = if leb (2 ^ 31) (x % 2 ^ 32) then 2 ^ 64 - 2 ^ 32 + x % 2 ^ 32 else x % 2 ^ 32

-- mstatus at `mret`: MPIE goes to MIE and is set, MPP becomes user mode, and MPRV is cleared unless
-- the hart stays in machine mode.
abbrev pub returned : ℕ → ℕ
returned x =
    let fields = 2 ^ 3 + 2 ^ 7 + 3 * 2 ^ 11 in
    let cleared = if x / 2 ^ 11 % 4 == 3 then fields else fields + 2 ^ 17 in
    bit_or (bit_and x (complement cleared)) (2 ^ 7 + 2 ^ 3 * (x / 2 ^ 7 % 2))

-- The instruction: the hart goes on at mepc, in the mode of the field MPP of mstatus.
abbrev pub mret : M Hart (Unit {0})
mret =
    modify
      (λ h. record h { pc = h.mepc; mode = h.mstatus / 2 ^ 11 % 4; mstatus = returned h.mstatus })

-- With the address of main.
unfoldable pub start : ℕ → M Hart (Unit {0})
unfolding timerinit
start main = do
  x ← r_mstatus
  w_mstatus (bit_or (bit_and x (complement mstatus_mpp_mask)) mstatus_mpp_s)
  w_mepc main
  w_satp 0
  w_medeleg 65535
  w_mideleg 65535
  e ← r_sie
  w_sie (bit_or (bit_or e sie_seie) sie_stie)
  w_pmpaddr0 (2 ^ 54 - 1)
  w_pmpcfg0 15
  timerinit
  id ← r_mhartid
  w_tp (as_int id)
  mret
