-- ===== src/Log/End.antt =====
-- The end of an operation (riscv-os/kernel/log.c: end_op): the last one to end commits.
use os.Common.{
  ℕ, ◌+◌, ◌-◌, ◌<◌, ◌≡◌, ◌≢◌, ◌⊎◌, inl, inr, refl, sym, ap, ◌∙◌, List, arith, true, false, ◌==◌,
  ltb, Bool-cases, ok, panic, and_then,
}
use os.Machine.{Machine, Log}
use os.Bytes.{get32}
use os.Log.{set_log, commit_alone, end_op}
use os.Log.Install.{IsQuiet}
use os.Log.Replay.{IsPlaced}
use os.Log.Commit.{IsLogSynced, emptied, commit-IsCommitted}

-- The log with no operation going on.
abbrev pub at_rest : Log → Log
at_rest l = record (emptied l) { outstanding = 0; committing = false }

-- Every block of the transaction is at home, nothing else has changed but the header, and the log is
-- empty and at rest.
pub record IsEnded (s t : Machine) (after : List ℕ) : Type 0 where
  pub quiet : IsQuiet t after
  pub log : t.log ≡ at_rest s.log
  pub header : get32 (t.ramdisk s.log.start) 0 ≡ 0
  pub home :
      (j : ℕ) → j < s.log.lh.n → t.ramdisk (s.log.lh.block j) ≡ s.ramdisk (s.log.start + 1 + j)
  pub other :
      (b : ℕ)
      → b ≢ s.log.start
      → ((j : ℕ) → j < s.log.lh.n → s.log.lh.block j ≢ b)
      → t.ramdisk b ≡ s.ramdisk b

IsQuiet-set_log :
    (s : Machine) (order : List ℕ) (l : Log)
    → l.dev ≡ s.log.dev
    → IsQuiet s order
    → IsQuiet (set_log l s) order
IsQuiet-set_log s order l e q = record {
  cache = record { lock_free = q.cache.lock_free; bufs = q.cache.bufs };
  idle = q.idle;
  two = q.two;
  used = λ z. q.used (sym e ∙ z);
}

-- commit_alone in a state with `outstanding` at 0 already.
commit_alone-IsEnded :
    (s : Machine) (order : List ℕ)
    → IsQuiet s order
    → IsPlaced s.log
    → IsLogSynced s order 0
    → 0 < s.log.lh.n
    → s.log.outstanding ≡ 0
    → (t : Machine) × (after : List ℕ) × (commit_alone s ≡ ok tt t) × IsEnded s t after
unfolding commit_alone
commit_alone-IsEnded s order q w y h z =
    let busy = record s.log { committing = true } in
    let (t, after, run, r) =
      commit-IsCommitted (set_log busy s) order (IsQuiet-set_log s order busy refl q)
        (record { area = w.area; inside = w.inside; outside = w.outside; once = w.once })
        (λ j lo hi. y j lo hi) h in
    let rest = record t.log { committing = false } in
    (
      set_log rest t,
      after,
      ap (λ r. and_then r (λ _ u. ok tt (set_log (record u.log { committing = false }) u))) run,
      record {
        quiet = IsQuiet-set_log t after rest refl r.quiet;
        log =
            ap (λ (l : Log). record l { committing = false }) r.log
            ∙ ap (λ n. record (at_rest s.log) { outstanding = n }) z;
        header = r.header;
        home = r.home;
        other = r.other;
      },
    )

abbrev less_one : Machine → Machine
less_one s = set_log (record s.log { outstanding = s.log.outstanding - 1 }) s

-- On a quiet cache whose copies of the log's data blocks agree with the disk, with entries that are
-- distinct blocks of the disk outside the log, and one at least: end_op panics if no operation is
-- going on; if it ends one of several, it counts one less and does nothing else, so that their
-- blocks are committed together; if it ends the last one, it returns with each data block of the
-- log at its home, all other blocks but the header as before, and the log empty and at rest.
pub end_op-IsEnded :
    (s : Machine) (order : List ℕ)
    → IsQuiet s order
    → IsPlaced s.log
    → IsLogSynced s order 0
    → 0 < s.log.lh.n
    → ((s.log.outstanding ≡ 0) × (end_op s ≡ panic "end_op: no outstanding"))
      ⊎ (((1 < s.log.outstanding)
            × (end_op s ≡ ok tt (set_log (record s.log { outstanding = s.log.outstanding - 1 }) s)))
          ⊎ ((s.log.outstanding ≡ 1)
              × (t : Machine) × (after : List ℕ) × (end_op s ≡ ok tt t)
              × IsEnded s t after))
unfolding end_op
end_op-IsEnded s order q w y h = elim (Bool-cases (ltb s.log.outstanding 1)) [
  | inl none ↦ inl (ground arith, rw none refl)
  | inr some ↦ elim (Bool-cases (s.log.outstanding - 1 == 0)) [
    | inl last ↦
        let z : s.log.outstanding - 1 ≡ 0 = ground arith in
        let (t, after, run, r) =
          commit_alone-IsEnded (less_one s) order (IsQuiet-set_log s order (less_one s).log refl q)
            (record { area = w.area; inside = w.inside; outside = w.outside; once = w.once })
            (λ j lo hi. y j lo hi) h z in
        inr (
          inr (
            ground arith,
            t,
            after,
            rw some (rw last run),
            record {
              quiet = r.quiet;
              log = r.log;
              header = r.header;
              home = r.home;
              other = r.other;
            },
          ))
    | inr others ↦ inr (inl (ground arith, rw some (rw others refl)))
  ]
]
