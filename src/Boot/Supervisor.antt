-- ===== src/Boot/Supervisor.antt =====
-- Where start (riscv-os/kernel/start.c) leaves the hart.
use Prim.Native.Nat.{max, min, bit_and, bit_or}
use os.Common.{
  ℕ, zero, suc, ◌+◌, ◌-◌, ◌*◌, ◌/◌, ◌%◌, ◌^◌, ◌≤◌, ◌<◌, ◌≡◌, ◌≢◌, ◌⊎◌, inl, inr, refl, ap, ◌∙◌,
  arith, Bool, true, false, ne→==, ◌&&◌, ◌||◌, ◌==◌, ok,
}
use os.Fs.Masks.{all_below, all_below-at}
use os.Riscv.{Hart, complement, mstatus_mpp_mask, mstatus_mpp_s, sie_seie, sie_stie, mie_stie}
use os.Riscv.Bits.{bit, bit_bound, bit-bit_or, bit-bit_and}
use os.Boot.{start, returned}

-- The bits of the constants of start.
abbrev start_bit : ℕ → Bool
start_bit k =
    (k == 11)
    || (k == 12)
    || ((bit k (complement mstatus_mpp_mask) == 1) && (bit k mstatus_mpp_s == 0))

all_start : all_below 64 start_bit ≡ true
all_start = refl

-- The fields that mret changes: MIE, MPIE, MPP and MPRV.
abbrev mret_fields : ℕ
mret_fields = 2 ^ 3 + 2 ^ 7 + 3 * 2 ^ 11 + 2 ^ 17

-- What mret sets, by MPIE.
abbrev mret_sets : ℕ → ℕ
mret_sets mpie = 2 ^ 7 + 2 ^ 3 * mpie

module _ (x : ℕ) where
  abbrev mstatus_after : ℕ
  mstatus_after = bit_or (bit_and x (complement mstatus_mpp_mask)) mstatus_mpp_s

  bit-mstatus :
      (k : ℕ)
      → bit k mstatus_after
        ≡ max (min (bit k x) (bit k (complement mstatus_mpp_mask))) (bit k mstatus_mpp_s)
  bit-mstatus k =
      bit-bit_or k (bit_and x (complement mstatus_mpp_mask)) mstatus_mpp_s
      ∙ ap (λ n. max n (bit k mstatus_mpp_s)) (bit-bit_and k x (complement mstatus_mpp_mask))

  others_kept : (k : ℕ) → k < 64 → k ≢ 11 → k ≢ 12 → bit k mstatus_after ≡ bit k x
  others_kept k h ne ne' =
      let t = all_below-at 64 k start_bit h all_start in
      let a : bit k (complement mstatus_mpp_mask) ≡ 1 = ground arith in
      let b : bit k mstatus_mpp_s ≡ 0 = ground arith in
      omega (arith, bit-mstatus k, a, b, bit_bound k x)

  field_mpp : mstatus_after / 2 ^ 11 % 4 ≡ 1
  field_mpp = omega (arith, bit-mstatus 11, bit-mstatus 12)

  abbrev mstatus_returned : ℕ
  mstatus_returned = returned mstatus_after

  not_machine : (mstatus_after / 2 ^ 11 % 4 == 3) ≡ false
  not_machine = ne→== (mstatus_after / 2 ^ 11 % 4) 3 (omega (arith, field_mpp))

  mpie : mstatus_after / 2 ^ 7 % 2 ≡ bit 7 x
  mpie = omega (arith, others_kept 7 (omega arith) (omega arith) (omega arith))

  module _ (b : ℕ) (b_eq : bit 7 x ≡ b) where
    returned_eq :
        mstatus_returned ≡ bit_or (bit_and mstatus_after (complement mret_fields)) (mret_sets b)
    returned_eq = rw not_machine (
        ap (λ n. bit_or (bit_and mstatus_after (complement mret_fields)) (mret_sets n))
          (mpie ∙ b_eq))

    bit-returned :
        (k : ℕ)
        → bit k mstatus_returned
          ≡ max (min (bit k mstatus_after) (bit k (complement mret_fields))) (bit k (mret_sets b))
    bit-returned k =
        ap (bit k) returned_eq
        ∙ bit-bit_or k (bit_and mstatus_after (complement mret_fields)) (mret_sets b)
        ∙ ap (λ n. max n (bit k (mret_sets b)))
            (bit-bit_and k mstatus_after (complement mret_fields))

  sie_bits : (k : ℕ) → bit k x ≤ bit k (bit_or (bit_or x sie_seie) sie_stie)
  sie_bits k = omega (arith, bit-bit_or k (bit_or x sie_seie) sie_stie, bit-bit_or k x sie_seie)

-- The bits of the constants of mret at the other places.
abbrev mret_bit : ℕ → Bool
mret_bit k =
    (k == 3)
    || (k == 7)
    || (k == 11)
    || (k == 12)
    || (k == 17)
    || ((bit k (complement mret_fields) == 1)
        && (bit k (mret_sets 0) == 0)
        && (bit k (mret_sets 1) == 0))

all_mret : all_below 64 mret_bit ≡ true
all_mret = refl

two_bits : (n : ℕ) → n < 2 → (n ≡ 0) ⊎ (n ≡ 1)
two_bits zero h = inl refl
two_bits (suc zero) h = inr refl
two_bits (suc (suc n)) h = absurd (omega arith)

-- mstatus behind mret.
pub record IsMretStatus (x y : ℕ) : Type 0 where
  pub others : (k : ℕ) → k < 64 → k ≢ 3 → k ≢ 7 → k ≢ 11 → k ≢ 12 → k ≢ 17 → bit k y ≡ bit k x
  pub mie : bit 3 y ≡ bit 7 x
  pub mpie : bit 7 y ≡ 1
  pub mpp : (bit 11 y ≡ 0) × (bit 12 y ≡ 0)
  pub mprv : bit 17 y ≡ 0

mstatus_returned-IsMretStatus : (x : ℕ) → IsMretStatus x (mstatus_returned x)
mstatus_returned-IsMretStatus x = elim (two_bits (bit 7 x) (omega (arith, bit_bound 7 x))) [
  | inl clear ↦ record {
    others = λ k h a b c d e.
        let t = all_below-at 64 k mret_bit h all_mret in
        let kept : bit k (complement mret_fields) ≡ 1 = ground arith in
        let unset : bit k (mret_sets 0) ≡ 0 = ground arith in
        omega (arith, bit-returned x 0 clear k, others_kept x k h c d, kept, unset, bit_bound k x);
    mie = omega (arith, bit-returned x 0 clear 3, clear);
    mpie = omega (arith, bit-returned x 0 clear 7, bit_bound 7 (mstatus_after x));
    mpp = (omega (arith, bit-returned x 0 clear 11), omega (arith, bit-returned x 0 clear 12));
    mprv = omega (arith, bit-returned x 0 clear 17);
  }
  | inr is_on ↦ record {
    others = λ k h a b c d e.
        let t = all_below-at 64 k mret_bit h all_mret in
        let kept : bit k (complement mret_fields) ≡ 1 = ground arith in
        let unset : bit k (mret_sets 1) ≡ 0 = ground arith in
        omega (arith, bit-returned x 1 is_on k, others_kept x k h c d, kept, unset, bit_bound k x);
    mie = omega (arith, bit-returned x 1 is_on 3, is_on, bit_bound 3 (mstatus_after x));
    mpie = omega (arith, bit-returned x 1 is_on 7, bit_bound 7 (mstatus_after x));
    mpp = (omega (arith, bit-returned x 1 is_on 11), omega (arith, bit-returned x 1 is_on 12));
    mprv = omega (arith, bit-returned x 1 is_on 17);
  }
]

-- Supervisor mode at `main`, without paging; the traps are delegated, the timer is set and its
-- interrupts, like those of devices, get through, and all of the memory can be accessed.
pub record IsSupervisor (main : ℕ) (h t : Hart) : Type 0 where
  pub mode : t.mode ≡ 1
  pub pc : t.pc ≡ main
  pub satp : t.satp ≡ 0
  pub mstatus : IsMretStatus h.mstatus t.mstatus
  pub delegated : (k : ℕ) → k < 16 → (bit k t.medeleg ≡ 1) × (bit k t.mideleg ≡ 1)
  pub timer_on : (bit 5 t.sie ≡ 1) × (bit 5 t.mie ≡ 1)
  pub devices_on : bit 9 t.sie ≡ 1
  pub sie_kept : (k : ℕ) → bit k h.sie ≤ bit k t.sie
  pub sstc : (bit 63 t.menvcfg ≡ 1) × (bit 1 t.mcounteren ≡ 1)
  pub stimecmp : t.stimecmp ≡ (h.time + 1000000) % 2 ^ 64
  pub memory : (t.pmpaddr0 ≡ 2 ^ 54 - 1) × (t.pmpcfg0 ≡ 15)
  pub tp : h.mhartid < 2 ^ 31 → t.tp ≡ h.mhartid
  pub sstatus : t.sstatus ≡ h.sstatus

all_delegated : all_below 16 (λ k. bit k 65535 == 1) ≡ true
all_delegated = refl

delegation : (k : ℕ) → k < 16 → bit k 65535 ≡ 1
delegation k h = let t = all_below-at 16 k (λ k. bit k 65535 == 1) h all_delegated in ground arith

-- start returns, and has the hart go on at main in supervisor mode, without paging, with the traps
-- delegated and the timer set for a million steps of `time` later; the interrupts of the timer and
-- of devices are enabled in sie. mstatus is as before but for the fields that `mret` changes: MIE is
-- as MPIE was, MPIE is set, MPP is user mode and MPRV is clear. tp has the number of the hart, if
-- that is less than 2 ^ 31.
pub start-IsSupervisor :
    (main : ℕ) (h : Hart) → (t : Hart) × (start main h ≡ ok tt t) × IsSupervisor main h t
unfolding start
start-IsSupervisor main h = (
  _,
  refl,
  record {
    mode = field_mpp h.mstatus;
    pc = refl;
    satp = refl;
    mstatus = mstatus_returned-IsMretStatus h.mstatus;
    delegated = λ k k_in. (delegation k k_in, delegation k k_in);
    timer_on = (
      omega (
        arith,
        bit-bit_or 5 (bit_or h.sie sie_seie) sie_stie,
        bit_bound 5 (bit_or h.sie sie_seie),
      ),
      omega (arith, bit-bit_or 5 h.mie mie_stie, bit_bound 5 h.mie),
    );
    devices_on = omega (
      arith,
      bit-bit_or 9 (bit_or h.sie sie_seie) sie_stie,
      bit-bit_or 9 h.sie sie_seie,
      bit_bound 9 h.sie,
    );
    sie_kept = sie_bits h.sie;
    sstc = (
      omega (arith, bit-bit_or 63 h.menvcfg (2 ^ 63), bit_bound 63 h.menvcfg),
      omega (arith, bit-bit_or 1 h.mcounteren 2, bit_bound 1 h.mcounteren),
    );
    stimecmp = refl;
    memory = (refl, refl);
    tp = λ small. ground arith;
    sstatus = refl;
  },
)
