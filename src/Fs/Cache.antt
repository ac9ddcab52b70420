-- ===== src/Fs/Cache.antt =====
-- The inode cache (riscv-os/kernel/fs.c: iget).
use os.Common.{
  ℕ, zero, suc, ◌+◌, ◌<◌, ◌≡◌, inl, inr, refl, sym, ap, subst, arith, Bool, true, false, ◌==◌, ltb,
  ◌&&◌, Bool-cases, Option, none, some, Run, ok, panic, and_then, Lowest, hit, miss, Lowest-before,
}
use os.Lock.{Cpu, Spinlock, initlock, release}
use os.Lock.Waits.{enabled, acquire-free}
use os.Machine.{Machine, Inode}
use os.Fs.Inodes.{
  ninode, set_inode, put_icache, Scan, cached, missing, note_empty, iget_scan, iget_found, iget,
}

-- The place is in use for the inode of this number on this device.
abbrev pub holds : ℕ → ℕ → (ℕ → Inode) → ℕ → Bool
holds dev inum inode i = ltb 0 (inode i).ref && ((inode i).dev == dev) && ((inode i).inum == inum)

abbrev pub is_spare : (ℕ → Inode) → ℕ → Bool
is_spare inode i = (inode i).ref == 0

-- What the scan finds from a place on: the first one for the inode, or that there is none, and then
-- the first place that is not in use, unless one was known before.
pub data Scanned (dev inum : ℕ) (inode : ℕ → Inode) (from end : ℕ) : Option ℕ → Scan → Type 0 where
  old :
      (e : Option ℕ) (i : ℕ)
      → Lowest (holds dev inum inode) from end (some i)
      → Scanned dev inum inode from end e (cached i)
  known :
      (e : ℕ)
      → Lowest (holds dev inum inode) from end none
      → Scanned dev inum inode from end (some e) (missing (some e))
  new :
      (r : Option ℕ)
      → Lowest (holds dev inum inode) from end none
      → Lowest (is_spare inode) from end r
      → Scanned dev inum inode from end none (missing r)

module _ (dev inum : ℕ) (inode : ℕ → Inode) (from end : ℕ) (inside : from < end)
    (fails : holds dev inum inode from ≡ false) where
  before :
      (r : Option ℕ)
      → Lowest (holds dev inum inode) (from + 1) end r
      → Lowest (holds dev inum inode) from end r
  before r l = Lowest-before (holds dev inum inode) from end r fails l

  Scanned-spare :
      (r : Scan)
      → is_spare inode from ≡ true
      → Scanned dev inum inode (from + 1) end (some from) r
      → Scanned dev inum inode from end none r
  Scanned-spare r spare (old _ i l) = old none i (before (some i) l)
  Scanned-spare r spare (known _ l) =
      new (some from) (before none l)
        (hit from (omega arith) inside spare (λ j h k. absurd (omega arith)))

  Scanned-used :
      (r : Scan)
      → is_spare inode from ≡ false
      → Scanned dev inum inode (from + 1) end none r
      → Scanned dev inum inode from end none r
  Scanned-used r used (old _ i l) = old none i (before (some i) l)
  Scanned-used r used (new q l m) =
      new q (before none l) (Lowest-before (is_spare inode) from end q used m)

  Scanned-before :
      (e : Option ℕ) (r : Scan)
      → Scanned dev inum inode (from + 1) end (note_empty e from (inode from)) r
      → Scanned dev inum inode from end e r
  Scanned-before (some e) r (old _ i l) = old (some e) i (before (some i) l)
  Scanned-before (some e) r (known _ l) = known e (before none l)
  Scanned-before none r g = elim (Bool-cases (is_spare inode from)) [
    | inl spare ↦
        let e : note_empty none from (inode from) ≡ some from = rw spare refl in
        Scanned-spare r spare (subst (λ q. Scanned dev inum inode (from + 1) end q r) e g)
    | inr used ↦
        let e : note_empty none from (inode from) ≡ none = rw used refl in
        Scanned-used r used (subst (λ q. Scanned dev inum inode (from + 1) end q r) e g)
  ]

iget_scan-Scanned :
    (rounds i dev inum : ℕ) (inode : ℕ → Inode) (e : Option ℕ)
    → Scanned dev inum inode i (i + rounds) e (iget_scan rounds i dev inum inode e)
unfolding iget_scan
iget_scan-Scanned zero i dev inum inode none =
    new none (miss (λ j h k. absurd (omega arith))) (miss (λ j h k. absurd (omega arith)))
iget_scan-Scanned zero i dev inum inode (some e) = known e (miss (λ j h k. absurd (omega arith)))
iget_scan-Scanned (suc rounds) i dev inum inode e = elim (Bool-cases (holds dev inum inode i)) [
  | inl same ↦
      rw (same, iget_scan)
        (old e i (hit i (omega arith) (omega arith) same (λ j h k. absurd (omega arith))))
  | inr other ↦
      let e' = note_empty e i (inode i) in
      let next = iget_scan rounds (i + 1) dev inum inode e' in
      let rest : Scanned dev inum inode (i + 1) (i + suc rounds) e' next =
        subst (λ end. Scanned dev inum inode (i + 1) end e' next) (omega arith)
          (iget_scan-Scanned rounds (i + 1) dev inum inode e') in
      rw (other, iget_scan)
        (Scanned-before dev inum inode i (i + suc rounds) (omega arith) other e next rest)
]

-- The state with the lock of the cache free and interrupts on.
abbrev pub settled : Machine → Machine
settled s = record s { cpu = enabled; icache_lock = initlock }

abbrev pub taken : Machine → Machine
taken s = record s { cpu = record { intr = false }; icache_lock = record { locked = true } }

-- One more reference to the inode in place `i`.
abbrev pub shared : ℕ → Machine → Machine
shared i s = set_inode i (record (s.inode i) { ref = (s.inode i).ref + 1 }) s

-- Place `i` is now for the inode, which is not loaded.
abbrev pub entered : ℕ → ℕ → ℕ → Machine → Machine
entered dev inum i s =
    set_inode i (record (s.inode i) { dev = dev; inum = inum; ref = 1; valid = false }) s

-- The outcomes of iget.
pub data Got (dev inum : ℕ) (s : Machine) : Run Machine ℕ → Type 0 where
  again :
      (i : ℕ)
      → Lowest (holds dev inum s.inode) 0 ninode (some i)
      → Got dev inum s (ok i (settled (shared i s)))
  fresh :
      (i : ℕ)
      → Lowest (holds dev inum s.inode) 0 ninode none
      → Lowest (is_spare s.inode) 0 ninode (some i)
      → Got dev inum s (ok i (settled (entered dev inum i s)))
  full :
      Lowest (holds dev inum s.inode) 0 ninode none
      → Lowest (is_spare s.inode) 0 ninode none
      → Got dev inum s (panic "iget: no free inode")

iget_found-Got :
    (dev inum : ℕ) (s : Machine) (r : Scan)
    → Scanned dev inum s.inode 0 ninode none r
    → Got dev inum s (iget_found dev inum r (taken s))
unfolding iget_found release
iget_found-Got dev inum s r (old _ i l) = again i l
iget_found-Got dev inum s r (new none l m) = full l m
iget_found-Got dev inum s r (new (some i) l m) = fresh i l m

-- The lock of the cache being free, iget adds a reference to the first place in use that has the
-- inode's device and number, or else
-- takes the first place that is not in use for it, with one reference and not loaded, or else
-- panics; it changes nothing else and leaves the lock free.
pub iget-Got :
    (dev inum : ℕ) (s : Machine) → s.icache_lock.locked ≡ false → Got dev inum s (iget dev inum s)
unfolding iget
iget-Got dev inum s h =
    let scan = iget_scan ninode 0 dev inum s.inode none in
    subst (Got dev inum s)
      (sym (
        ap
          (λ (r : Option (Cpu × Spinlock)).
            and_then (put_icache s r)
              (λ _ t. iget_found dev inum (iget_scan ninode 0 dev inum t.inode none) t))
          (acquire-free s.cpu s.icache_lock h)))
      (iget_found-Got dev inum s scan (iget_scan-Scanned ninode 0 dev inum s.inode none))
