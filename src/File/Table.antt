-- ===== src/File/Table.antt =====
-- The table of open files and its counts (riscv-os/kernel/file.c).
use os.Common.{
  ℕ, zero, suc, ◌+◌, ◌-◌, ◌<◌, ◌≡◌, ◌⊎◌, inl, inr, refl, ap, ◌∙◌, subst, arith, Bool, true, false,
  ◌==◌, ltb, Bool-cases, Option, none, some, update, update_self, update-update, update-same, ok,
  panic, and_then, Lowest, hit, miss, Lowest-before,
}
use os.Lock.{Cpu, Spinlock, initlock, release}
use os.Lock.Waits.{enabled, acquire-free}
use os.Machine.{Machine, File}
use os.File.{
  nfile, set_file, put_ftable, acquire_ftable, find_file, filealloc_at, filealloc, filedup,
  fileclose, filedup_held, fileclose_held,
}

-- A place of the table that is not in use.
abbrev pub unused_file : (ℕ → File) → ℕ → Bool
unused_file file i = (file i).ref == 0

pub find_file-Lowest :
    (rounds i : ℕ) (file : ℕ → File)
    → Lowest (unused_file file) i (i + rounds) (find_file rounds i file)
unfolding find_file
find_file-Lowest zero i file = miss (λ j h k. absurd (omega arith))
find_file-Lowest (suc rounds) i file = elim (Bool-cases (unused_file file i)) [
  | inl free ↦
      rw (free, find_file) (hit i (omega arith) (omega arith) free (λ j h k. absurd (omega arith)))
  | inr used ↦
      let rest : Lowest (unused_file file) (i + 1) (i + suc rounds)
          (find_file rounds (i + 1) file) =
        subst (λ end. Lowest (unused_file file) (i + 1) end (find_file rounds (i + 1) file))
          (omega arith) (find_file-Lowest rounds (i + 1) file) in
      rw (used, find_file)
        (Lowest-before (unused_file file) i (i + suc rounds) (find_file rounds (i + 1) file) used
          rest)
]

-- The state with the lock of the table free and interrupts on.
abbrev pub settled : Machine → Machine
settled s = record s { cpu = enabled; ftable_lock = initlock }

abbrev pub taken : Machine → Machine
taken s = record s { cpu = record { intr = false }; ftable_lock = record { locked = true } }

pub acquire_ftable-free :
    (s : Machine) → s.ftable_lock.locked ≡ false → acquire_ftable s ≡ ok tt (taken s)
acquire_ftable-free s h =
    ap (λ (r : Option (Cpu × Spinlock)). put_ftable s r) (acquire-free s.cpu s.ftable_lock h)

-- The state with a new count in place `f`.
abbrev pub with_ref : ℕ → ℕ → Machine → Machine
with_ref f n s = set_file f (record (s.file f) { ref = n }) s

-- The lock of the table being free, filealloc returns the lowest place of the table that is not in
-- use, with a count of one, or the null pointer if every place is in use; it changes nothing else,
-- and leaves the lock free.
pub filealloc_lem :
    (s : Machine)
    → s.ftable_lock.locked ≡ false
    → (r : Option ℕ) × Lowest (unused_file s.file) 0 nfile r
      × (filealloc s
          ≡ ok r (settled (elim r as (λ _. Machine) [ none ↦ s | some i ↦ with_ref i 1 s ])))
unfolding filealloc filealloc_at release
filealloc_lem s h = (
  find_file nfile 0 s.file,
  find_file-Lowest nfile 0 s.file,
  ap (λ r. and_then r (λ _ t. filealloc_at (find_file nfile 0 t.file) t)) (acquire_ftable-free s h)
      ∙ at (find_file nfile 0 s.file),
)
  where
    at :
        (r : Option ℕ)
        → filealloc_at r (taken s)
          ≡ ok r (settled (elim r as (λ _. Machine) [ none ↦ s | some i ↦ with_ref i 1 s ]))
    at none = refl
    at (some i) = refl

filedup_held_lem :
    (f : ℕ) (s : Machine)
    → ltb (s.file f).ref 1 ≡ false
    → filedup_held f (taken s) ≡ ok f (settled (with_ref f ((s.file f).ref + 1) s))
unfolding filedup_held release
filedup_held_lem f s h = rw (h, filedup_held) refl

-- A file with two references or more loses one.
fileclose_held_lem :
    (f n : ℕ) (s : Machine)
    → (s.file f).ref ≡ suc n
    → 0 < n
    → fileclose_held f (taken s) ≡ ok tt (settled (with_ref f n s))
unfolding fileclose_held release
fileclose_held_lem f n s h k =
    let x = s.file f in
    let opened : ltb x.ref 1 ≡ false = ground arith in
    let fewer : x.ref - 1 ≡ n = omega arith in
    let more : ltb 0 (update s.file f (record x { ref = x.ref - 1 }) f).ref ≡ true =
      ap (λ y. ltb 0 y.ref) (update_self s.file f (record x { ref = x.ref - 1 }))
      ∙ (ground arith) in
    rw (opened, fileclose_held) (rw more (ap (λ m. ok tt (settled (with_ref f m s))) fewer))

with_ref_back : (f n : ℕ) (s : Machine) → with_ref f (s.file f).ref (with_ref f n s) ≡ s
with_ref_back f n s =
    let x = record (s.file f) { ref = n } in
    ap (λ y. record s { file = update (update s.file f x) f (record y { ref = (s.file f).ref }) })
      (update_self s.file f x)
    ∙ ap (λ file. record s { file = file })
        (update-update s.file f x (s.file f) ∙ update-same s.file f)

-- The lock of the table being free, filedup adds a reference to an open file, and fileclose then
-- only takes it away: the inode stays open, and all counts are as before. On a file that is not
-- open both panic.
pub filedup-fileclose :
    (f : ℕ) (s : Machine)
    → s.ftable_lock.locked ≡ false
    → (((s.file f).ref ≡ 0) × (filedup f s ≡ panic "filedup") × (fileclose f s ≡ panic "fileclose"))
      ⊎ ((0 < (s.file f).ref)
          × (filedup f s ≡ ok f (settled (with_ref f ((s.file f).ref + 1) s)))
          × (fileclose f (settled (with_ref f ((s.file f).ref + 1) s)) ≡ ok tt (settled s)))
unfolding filedup fileclose filedup_held fileclose_held release
filedup-fileclose f s h = elim (Bool-cases (ltb (s.file f).ref 1)) [
  | inl closed ↦ inl (
    ground arith,
    ap (λ r. and_then r (λ _. filedup_held f)) (acquire_ftable-free s h)
        ∙ (rw (closed, filedup_held) refl),
    ap (λ r. and_then r (λ _. fileclose_held f)) (acquire_ftable-free s h)
        ∙ (rw (closed, fileclose_held) refl),
  )
  | inr opened ↦
      let n = (s.file f).ref in
      let dup = settled (with_ref f (n + 1) s) in
      inr (
        ground arith,
        ap (λ r. and_then r (λ _. filedup_held f)) (acquire_ftable-free s h)
            ∙ filedup_held_lem f s opened,
        ap (λ r. and_then r (λ _. fileclose_held f)) (acquire_ftable-free dup refl)
            ∙ fileclose_held_lem f n (with_ref f (n + 1) s)
                (ap (λ x. x.ref) (update_self s.file f (record (s.file f) { ref = n + 1 }))
                  ∙ (omega arith))
                (ground arith)
            ∙ ap (λ t. ok tt (settled t)) (with_ref_back f (n + 1) s),
      )
]
