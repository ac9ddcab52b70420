-- ===== src/Log/Commit.antt =====
-- The whole of an installation, and of a commit.
use os.Common.{
  ℕ, zero, suc, ◌+◌, ◌≤◌, ◌<◌, ◌≡◌, ◌≢◌, refl, sym, ap, ◌∙◌, subst, List, arith, lt→ltb, update,
  update_self, update_ne, Run, ok, and_then,
}
use os.Machine.{Machine, Block, Log, fssize}
use os.Bytes.{get32}
use os.Bio.Read.{content}
use os.Bio.Synced.{IsSynced, content-synced}
use os.Log.{install_loop, install_trans_from_log, write_head, commit, store_head}
use os.Log.Install.{IsQuiet, install_block-IsInstalled}
use os.Log.Header.{store_head-count}
use os.Log.Replay.{IsPlaced, replay, replay-home, replay-other}
use os.Log.Head.{write_head-IsInstalled}

-- What rounds of the loop from entry `k` do.
pub record IsReplayed (s : Machine) (order : List ℕ) (rounds k : ℕ) (t : Machine) (after : List ℕ)
    : Type 0 where
  pub quiet : IsQuiet t after
  pub ramdisk : t.ramdisk ≡ replay rounds k s.log s.ramdisk
  pub log : t.log ≡ s.log
  pub synced : (b : ℕ) → IsSynced s order s.log.dev b → IsSynced t after s.log.dev b

-- The cache agrees with the disk on the log's data blocks from entry `k`.
abbrev pub IsLogSynced : Machine → List ℕ → ℕ → Type 0
IsLogSynced s order k =
    (j : ℕ) → k ≤ j → j < s.log.lh.n → IsSynced s order s.log.dev (s.log.start + 1 + j)

pub install_loop-IsReplayed :
    (rounds k : ℕ) (s : Machine) (order : List ℕ)
    → IsQuiet s order
    → IsPlaced s.log
    → IsLogSynced s order k
    → k + rounds ≡ s.log.lh.n
    → (t : Machine) × (after : List ℕ) × (install_loop rounds k s ≡ ok tt t)
      × IsReplayed s order rounds k t after
unfolding install_loop replay
install_loop-IsReplayed zero k s order q w y e =
    (s, order, refl, record { quiet = q; ramdisk = refl; log = refl; synced = λ b h. h })
install_loop-IsReplayed (suc rounds) k s order q w y e =
    let p = s.log.start + 1 + k in
    let h = s.log.lh.block k in
    let (t1, order1, run1, r1) =
      install_block-IsInstalled k s order q (omega (arith, w.area)) (w.inside k (omega arith))
        (λ z. omega (arith, w.outside k (omega arith))) in
    let back = sym r1.log in
    let (t, after, run, r) =
      install_loop-IsReplayed rounds (k + 1) t1 order1 r1.quiet (subst IsPlaced back w)
        (λ j lo hi.
          let hi' : j < s.log.lh.n = subst (λ (l : Log). j < l.lh.n) r1.log hi in
          subst (λ (l : Log). IsSynced t1 order1 l.dev (l.start + 1 + j)) back
            (r1.synced (s.log.start + 1 + j) (λ _. y j (omega arith) hi')))
        (let z : k + 1 + rounds ≡ s.log.lh.n = omega arith in z ∙ ap (λ (l : Log). l.lh.n) back) in
    (
      t,
      after,
      ap (λ (x : Run Machine (Unit {0})). and_then x (λ _. install_loop rounds (k + 1))) run1 ∙ run,
      record {
        quiet = r.quiet;
        ramdisk =
            r.ramdisk
            ∙ ap (λ (l : Log). replay rounds (k + 1) l t1.ramdisk) r1.log
            ∙ ap (replay rounds (k + 1) s.log) (
                r1.ramdisk
                ∙ ap (update s.ramdisk h)
                    (content-synced s order s.log.dev p (y k (omega arith) (omega arith))));
        log = r.log ∙ r1.log;
        synced = λ b h'.
            subst (λ (l : Log). IsSynced t after l.dev b) r1.log
              (r.synced b
                (subst (λ (l : Log). IsSynced t1 order1 l.dev b) back (r1.synced b (λ _. h'))));
      },
    )

-- All of the log's entries.
pub install-IsReplayed :
    (s : Machine) (order : List ℕ)
    → IsQuiet s order
    → IsPlaced s.log
    → IsLogSynced s order 0
    → (t : Machine) × (after : List ℕ) × (install_trans_from_log s ≡ ok tt t)
      × IsReplayed s order s.log.lh.n 0 t after
unfolding install_trans_from_log
install-IsReplayed s order q w y = install_loop-IsReplayed s.log.lh.n 0 s order q w y (omega arith)

-- The log with no entries left.
abbrev pub emptied : Log → Log
emptied l = record l { lh = record l.lh { n = 0 } }

-- The end of commit and of recover_from_log: the header of memory is emptied and written.
pub clear-IsInstalled :
    (s : Machine) (order : List ℕ)
    → IsQuiet s order
    → s.log.start < fssize
    → (t : Machine) × (after : List ℕ) × (write_head (record s { log = emptied s.log }) ≡ ok tt t)
      × IsQuiet t after
      × (t.log ≡ emptied s.log)
      × (get32 (t.ramdisk s.log.start) 0 ≡ 0)
      × ((b : ℕ) → b ≢ s.log.start → t.ramdisk b ≡ s.ramdisk b)
clear-IsInstalled s order q h =
    let s' : Machine = record s { log = emptied s.log } in
    let q' : IsQuiet s' order = record {
      cache = record { lock_free = q.cache.lock_free; bufs = q.cache.bufs };
      idle = q.idle;
      two = q.two;
      used = q.used;
    } in
    let (t, after, run, r) = write_head-IsInstalled s' order q' h in
    let v = store_head s'.log.lh (content order s.log.dev s.log.start s') in
    (
      t,
      after,
      run,
      r.quiet,
      r.log,
      ap (λ (d : ℕ → Block). get32 (d s.log.start) 0) r.ramdisk
          ∙ ap (λ (x : Block). get32 x 0) (update_self s.ramdisk s.log.start v)
          ∙ store_head-count s'.log.lh (content order s.log.dev s.log.start s') (omega arith),
      λ b ne. ap (λ (d : ℕ → Block). d b) r.ramdisk ∙ update_ne s.ramdisk s.log.start b v ne,
    )

-- After a commit every block of the transaction is at home, nothing else has changed but the
-- header, and the log is empty, in memory and on the disk.
pub record IsCommitted (s t : Machine) (after : List ℕ) : Type 0 where
  pub quiet : IsQuiet t after
  pub log : t.log ≡ emptied s.log
  pub header : get32 (t.ramdisk s.log.start) 0 ≡ 0
  pub home :
      (j : ℕ) → j < s.log.lh.n → t.ramdisk (s.log.lh.block j) ≡ s.ramdisk (s.log.start + 1 + j)
  pub other :
      (b : ℕ)
      → b ≢ s.log.start
      → ((j : ℕ) → j < s.log.lh.n → s.log.lh.block j ≢ b)
      → t.ramdisk b ≡ s.ramdisk b

-- commit returns on every quiet cache whose copies of the log's data blocks agree with the disk, if
-- the entries are distinct blocks of the disk outside the log and there is one at least: then each
-- data block of the log is at its home, all other blocks but the header are as before, and the log
-- is empty in memory and on the disk.
pub commit-IsCommitted :
    (s : Machine) (order : List ℕ)
    → IsQuiet s order
    → IsPlaced s.log
    → IsLogSynced s order 0
    → 0 < s.log.lh.n
    → (t : Machine) × (after : List ℕ) × (commit s ≡ ok tt t) × IsCommitted s t after
unfolding commit
commit-IsCommitted s order q w y some_blocks =
    let start = s.log.start in
    let start_in : start < fssize = omega (arith, w.area) in
    let v = store_head s.log.lh (content order s.log.dev start s) in
    let (t1, order1, run1, r1) = write_head-IsInstalled s order q start_in in
    let back = sym r1.log in
    let (t2, order2, run2, r2) = install-IsReplayed t1 order1 r1.quiet (subst IsPlaced back w) (
      subst (λ (l : Log). (j : ℕ) → 0 ≤ j → j < l.lh.n → IsSynced t1 order1 l.dev (l.start + 1 + j))
        back (λ j lo hi. r1.synced (start + 1 + j) (λ ne. y j lo hi))) in
    let log2 : t2.log ≡ s.log = r2.log ∙ r1.log in
    let start2 = ap (λ (l : Log). l.start) log2 in
    let (t, after, run3, q3, log3, header, other) =
      clear-IsInstalled t2 order2 r2.quiet (subst (λ n. n < fssize) (sym start2) start_in) in
    let disk2 : t2.ramdisk ≡ replay s.log.lh.n 0 s.log (update s.ramdisk start v) =
      r2.ramdisk
      ∙ ap (λ (l : Log). replay l.lh.n 0 l t1.ramdisk) r1.log
      ∙ ap (replay s.log.lh.n 0 s.log) r1.ramdisk in
    let rest : Machine → Run Machine (Unit {0}) =
      λ u. write_head (record u { log = emptied u.log }) in
    (
      t,
      after,
      rw (lt→ltb 0 s.log.lh.n some_blocks) (
          ap
            (λ (x : Run Machine (Unit {0})).
              and_then x (λ _ u. and_then (install_trans_from_log u) (λ _. rest)))
            run1
          ∙ ap (λ (x : Run Machine (Unit {0})). and_then x (λ _. rest)) run2
          ∙ run3),
      record {
        quiet = q3;
        log = log3 ∙ ap emptied log2;
        header = ap (λ n. get32 (t.ramdisk n) 0) (sym start2) ∙ header;
        home = λ j h.
            other (s.log.lh.block j) (λ e. omega (arith, w.outside j h, start2))
            ∙ ap (λ (d : ℕ → Block). d (s.log.lh.block j)) disk2
            ∙ replay-home s.log w s.log.lh.n 0 (update s.ramdisk start v) j (omega arith)
                (omega arith) (omega arith)
            ∙ update_ne s.ramdisk start (start + 1 + j) v (omega arith);
        other = λ b ne none_has.
            other b (λ e. ne (e ∙ start2))
            ∙ ap (λ (d : ℕ → Block). d b) disk2
            ∙ replay-other s.log w s.log.lh.n 0 (update s.ramdisk start v) b (omega arith)
                (λ j lo hi. none_has j (omega arith))
            ∙ update_ne s.ramdisk start b v ne;
      },
    )
