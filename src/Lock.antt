-- ===== src/Lock.antt =====
-- Spin locks and sleep locks (riscv-os/include/spinlock.h, riscv-os/include/sleeplock.h) on the one
-- hart of the machine. A wait that no other flow of control can end is `none`.
pub mod Waits
use os.Common.{ℕ, zero, suc, Bool, true, false, not, Option, none, some, if◌then◌else◌}

-- The interrupt enable bit, which `intr_on` and `intr_off` write.
pub record Cpu : Type 0 where
  pub intr : Bool

-- `name` is for debugging alone.
pub record Spinlock : Type 0 where
  pub locked : Bool

pub record Sleeplock : Type 0 where
  pub lk : Spinlock
  pub locked : Bool

abbrev pub initlock : Spinlock
initlock = record { locked = false }

abbrev pub initsleeplock : Sleeplock
initsleeplock = record { lk = initlock; locked = false }

-- A sleep lock that is held or not, its inner lock free.
abbrev pub sleeping : Bool → Sleeplock
sleeping b = record { lk = initlock; locked = b }

-- The old value, and the lock with the new one.
atomic_xchg : Spinlock → Bool → Bool × Spinlock
atomic_xchg l b = (l.locked, record { locked = b })

-- `while (atomic_xchg(&lk->locked, 1) != 0)`, on fuel.
acquire_loop : ℕ → Spinlock → Option Spinlock
acquire_loop zero l = none
acquire_loop (suc fuel) l =
    let (old, l') = atomic_xchg l true in
    let rest = acquire_loop fuel l' in if old then rest else some l'

-- Interrupts go off first. One round is as good as any number (`Lock.Waits`).
unfoldable pub acquire : Cpu → Spinlock → Option (Cpu × Spinlock)
unfolding acquire_loop atomic_xchg
acquire c l = elim (acquire_loop 1 l) [ none ↦ none | some l' ↦ some (record { intr = false }, l') ]

unfoldable pub release : Cpu → Spinlock → Cpu × Spinlock
release c l = (record { intr = true }, record { locked = false })

pub holding : Spinlock → Bool
holding l = l.locked

-- `for (;;)` of acquiresleep, on fuel.
pub acquiresleep_loop : ℕ → Cpu → Sleeplock → Option (Cpu × Sleeplock)
acquiresleep_loop zero c l = none
acquiresleep_loop (suc fuel) c l = elim (acquire c l.lk) [
  | none ↦ none
  | some (c', lk') ↦ elim (not l.locked) [
    | true ↦ let (c'', lk'') = release c' lk' in some (c'', record { lk = lk''; locked = true })
    | false ↦
        let (c'', lk'') = release c' lk' in
        acquiresleep_loop fuel c'' (record { lk = lk''; locked = l.locked })
  ]
]

unfoldable pub acquiresleep : Cpu → Sleeplock → Option (Cpu × Sleeplock)
unfolding acquiresleep_loop acquire release
acquiresleep c l = acquiresleep_loop 1 c l

unfoldable pub releasesleep : Cpu → Sleeplock → Option (Cpu × Sleeplock)
unfolding acquire release
releasesleep c l = elim (acquire c l.lk) [
  | none ↦ none
  | some (c', lk') ↦
      let (c'', lk'') = release c' lk' in some (c'', record { lk = lk''; locked = false })
]

unfoldable pub holdingsleep : Cpu → Sleeplock → Option (Bool × Cpu × Sleeplock)
unfolding acquire release
holdingsleep c l = elim (acquire c l.lk) [
  | none ↦ none
  | some (c', lk') ↦
      let (c'', lk'') = release c' lk' in
      some (l.locked, c'', record { lk = lk''; locked = l.locked })
]
