-- ===== src/Lock/Waits.antt =====
-- When the waits of spinlock.h and sleeplock.h end, and what they leave behind.
use os.Common.{ℕ, zero, suc, ◌≡◌, refl, Bool, true, false, Option, none, some, arith}
use os.Lock.{
  Cpu, Spinlock, Sleeplock, sleeping, acquire, acquire_loop, acquiresleep_loop, acquiresleep,
  releasesleep, holdingsleep,
}

abbrev pub enabled : Cpu
enabled = record { intr = true }

abbrev taken : Spinlock
taken = record { locked = true }

-- What the exchange loop gives when it may go round `suc fuel` times.
abbrev exchanged : Bool → Option Spinlock
exchanged true = none
exchanged false = some taken

-- A free spin lock is got in the first round, a held one in no round at all.
acquire_loop_lem : (fuel : ℕ) (l : Spinlock) → acquire_loop (suc fuel) l ≡ exchanged l.locked
unfolding acquire
acquire_loop_lem zero l = ground arith
acquire_loop_lem (suc fuel) l = ground (arith, acquire_loop_lem fuel taken)

pub acquire-free :
    (c : Cpu) (l : Spinlock)
    → l.locked ≡ false
    → acquire c l ≡ some (record { intr = false }, record { locked = true })
unfolding acquire
acquire-free c l h = ground arith

-- What acquiresleep gives where the inner lock is free.
abbrev pub slept : Bool → Option (Cpu × Sleeplock)
slept true = none
slept false = some (enabled, sleeping true)

acquiresleep_loop_lem :
    (fuel : ℕ) (c : Cpu) (l : Sleeplock)
    → l.lk.locked ≡ false
    → acquiresleep_loop (suc fuel) c l ≡ slept l.locked
unfolding acquiresleep
acquiresleep_loop_lem zero c l h = ground arith
acquiresleep_loop_lem (suc fuel) c l h =
    ground (arith, acquiresleep_loop_lem fuel enabled (sleeping l.locked))

pub acquiresleep_lem :
    (c : Cpu) (l : Sleeplock) → l.lk.locked ≡ false → acquiresleep c l ≡ slept l.locked
unfolding acquiresleep
acquiresleep_lem c l h = acquiresleep_loop_lem 0 c l h

pub releasesleep_lem :
    (c : Cpu) (l : Sleeplock)
    → l.lk.locked ≡ false
    → releasesleep c l ≡ some (enabled, sleeping false)
unfolding releasesleep
releasesleep_lem c l h = ground arith

pub holdingsleep_lem :
    (c : Cpu) (l : Sleeplock)
    → l.lk.locked ≡ false
    → holdingsleep c l ≡ some (l.locked, enabled, sleeping l.locked)
unfolding holdingsleep
holdingsleep_lem c l h = ground arith

-- For a sleep lock that is free and whose inner lock is free: acquiresleep returns, holdingsleep
-- then answers yes, a second acquiresleep is still waiting after any number of rounds, and
-- releasesleep gives the free lock back; each leaves the inner lock free and the interrupts on.
pub sleeplock_life :
    (c : Cpu) (l : Sleeplock) (fuel : ℕ)
    → l.lk.locked ≡ false
    → l.locked ≡ false
    → (acquiresleep c l ≡ some (enabled, sleeping true))
      × (holdingsleep c (sleeping true) ≡ some (true, enabled, sleeping true))
      × (acquiresleep_loop fuel c (sleeping true) ≡ none)
      × (releasesleep c (sleeping true) ≡ some (enabled, sleeping false))
unfolding acquiresleep holdingsleep releasesleep
sleeplock_life c l zero inner unheld = ground arith
sleeplock_life c l (suc fuel) inner unheld =
    (ground arith, refl, acquiresleep_loop_lem fuel c (sleeping true) refl, refl)
