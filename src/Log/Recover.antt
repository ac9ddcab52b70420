-- ===== src/Log/Recover.antt =====
-- recover_from_log, and what it makes of a commit that was cut off.
use os.Common.{
  ℕ, ◌+◌, ◌≤◌, ◌<◌, ◌≡◌, ◌≢◌, sym, ap, ◌∙◌, subst, List, arith, ltb, lt→ltb, if◌then◌else◌, update,
  update_self, update_ne, Run, ok, pure, and_then,
}
use os.Machine.{Machine, Block, Log, logsize}
use os.Bytes.{get32}
use os.Bio.Synced.{IsSynced}
use os.Log.{write_head, install_trans_from_log, recover_from_log, store_head, load_blocks}
use os.Log.Header.{store_head-count, load-store_head}
use os.Log.Install.{IsQuiet}
use os.Log.Replay.{IsPlaced, replay, replay-other, replay-home, IsPlaced-agree}
use os.Log.Commit.{install-IsReplayed, emptied, clear-IsInstalled}
use os.Log.Reload.{read_head-IsHeadRead}

-- What recover_from_log does once the header has been read.
abbrev resume : Unit {0} → Machine → Run Machine (Unit {0})
resume done t =
    (if ltb 0 t.log.lh.n
        then (λ u.
            and_then (install_trans_from_log u)
              (λ _ v. write_head (record v { log = emptied v.log })))
        else pure tt)
      t

-- The disk at a crash of a commit of `l` that began on the disk `d`: the header is written, and
-- `done` of the entries are installed.
abbrev pub cut_off : ℕ → Log → Block → (ℕ → Block) → ℕ → Block
cut_off done l hd d = replay done 0 l (update d l.start (store_head l.lh hd))

-- The transaction is complete on the disk, and the log is empty.
pub record IsRecovered (l : Log) (d : ℕ → Block) (t : Machine) (after : List ℕ) : Type 0 where
  pub quiet : IsQuiet t after
  pub header : get32 (t.ramdisk l.start) 0 ≡ 0
  pub home : (j : ℕ) → j < l.lh.n → t.ramdisk (l.lh.block j) ≡ d (l.start + 1 + j)
  pub other : (b : ℕ) → b ≢ l.start → ((j : ℕ) → j < l.lh.n → l.lh.block j ≢ b) → t.ramdisk b ≡ d b

module _ (l : Log) (hd : Block) (d : ℕ → Block) (done : ℕ) (w : IsPlaced l)
    (cut : done ≤ l.lh.n) where
  cut_header : cut_off done l hd d l.start ≡ store_head l.lh hd
  cut_header =
      replay-other l w done 0 (update d l.start (store_head l.lh hd)) l.start (omega arith)
        (λ j lo hi e. omega (arith, w.outside j (omega arith)))
      ∙ update_self d l.start (store_head l.lh hd)

  cut_log : (j : ℕ) → j < l.lh.n → cut_off done l hd d (l.start + 1 + j) ≡ d (l.start + 1 + j)
  cut_log j h =
      replay-other l w done 0 (update d l.start (store_head l.lh hd)) (l.start + 1 + j)
        (omega arith) (λ i lo hi e. omega (arith, w.outside i (omega arith)))
      ∙ update_ne d l.start (l.start + 1 + j) (store_head l.lh hd) (omega arith)

  cut_other :
      (b : ℕ)
      → b ≢ l.start
      → ((j : ℕ) → j < l.lh.n → l.lh.block j ≢ b)
      → cut_off done l hd d b ≡ d b
  cut_other b ne none_has =
      replay-other l w done 0 (update d l.start (store_head l.lh hd)) b (omega arith)
        (λ j lo hi. none_has j (omega arith))
      ∙ update_ne d l.start b (store_head l.lh hd) ne

-- The installation of a log `l1` that was read back from the cut-off disk.
module _ (l : Log) (hd : Block) (d : ℕ → Block) (done : ℕ) (w : IsPlaced l) (cut : done ≤ l.lh.n)
    (l1 : Log) (start1 : l1.start ≡ l.start) (n1 : l1.lh.n ≡ l.lh.n)
    (agree : (j : ℕ) → j < l.lh.n → l1.lh.block j ≡ l.lh.block j) (d1 d2 : ℕ → Block)
    (before : d1 ≡ cut_off done l hd d) (after : d2 ≡ replay l1.lh.n 0 l1 d1) where
  installed_home : (j : ℕ) → j < l.lh.n → d2 (l.lh.block j) ≡ d (l.start + 1 + j)
  installed_home j h =
      ap (λ (f : ℕ → Block). f (l.lh.block j)) after
      ∙ ap (replay l1.lh.n 0 l1 d1) (sym (agree j h))
      ∙ replay-home l1 (IsPlaced-agree l l1 start1 n1 agree w) l1.lh.n 0 d1 j (omega arith)
          (omega arith) (omega (arith, n1))
      ∙ ap (λ (n : ℕ). d1 (n + 1 + j)) start1
      ∙ ap (λ (f : ℕ → Block). f (l.start + 1 + j)) before
      ∙ cut_log l hd d done w cut j h

  installed_other : (b : ℕ) → b ≢ l.start → ((j : ℕ) → j < l.lh.n → l.lh.block j ≢ b) → d2 b ≡ d b
  installed_other b ne none_has =
      ap (λ (f : ℕ → Block). f b) after
      ∙ replay-other l1 (IsPlaced-agree l l1 start1 n1 agree w) l1.lh.n 0 d1 b (omega arith)
          (λ j lo hi e. none_has j (omega (arith, n1)) (sym (agree j (omega (arith, n1))) ∙ e))
      ∙ ap (λ (f : ℕ → Block). f b) before
      ∙ cut_other l hd d done w cut b ne none_has

-- A commit that was cut off at any point after its header was written is completed by
-- recover_from_log: on a disk with the header and any number of the entries installed, recovery on
-- a quiet cache without stale copies returns, every block of the transaction is at home, every
-- other block but the header is as before the commit, and the header on the disk counts no entries.
-- The entries are distinct blocks of the disk outside the log, one at least and LOGSIZE at most.
pub recover-IsRecovered :
    (l : Log) (hd : Block) (d : ℕ → Block) (done : ℕ) (s : Machine) (order : List ℕ)
    → IsPlaced l
    → 0 < l.lh.n
    → l.lh.n ≤ logsize
    → done ≤ l.lh.n
    → IsQuiet s order
    → s.log.start ≡ l.start
    → ((b : ℕ) → IsSynced s order s.log.dev b)
    → s.ramdisk ≡ cut_off done l hd d
    → (t : Machine) × (after : List ℕ) × (recover_from_log s ≡ ok tt t) × IsRecovered l d t after
unfolding recover_from_log
recover-IsRecovered l hd d done s order w some_blocks small cut q start_eq y disk =
    let header : s.ramdisk s.log.start ≡ store_head l.lh hd =
      ap (λ (f : ℕ → Block). f s.log.start) disk
      ∙ ap (cut_off done l hd d) start_eq
      ∙ cut_header l hd d done w cut in
    let count : get32 (s.ramdisk s.log.start) 0 ≡ l.lh.n =
      ap (λ (b : Block). get32 b 0) header ∙ store_head-count l.lh hd small in
    let (t1, order1, run1, r1) =
      read_head-IsHeadRead s order q (omega (arith, w.area, start_eq)) (y s.log.start)
        (omega (arith, count)) in
    let start1 : t1.log.start ≡ l.start = ap (λ (x : Log). x.start) r1.log ∙ start_eq in
    let n1 : t1.log.lh.n ≡ l.lh.n = ap (λ (x : Log). x.lh.n) r1.log ∙ count in
    let agree : (j : ℕ) → j < l.lh.n → t1.log.lh.block j ≡ l.lh.block j = λ j h.
      ap (λ (x : Log). x.lh.block j) r1.log
      ∙ ap (λ (n : ℕ). load_blocks n 0 (s.ramdisk s.log.start) s.log.lh.block j) count
      ∙ ap (λ (b : Block). load_blocks l.lh.n 0 b s.log.lh.block j) header
      ∙ (load-store_head l.lh hd s.log.lh.block j small (λ k hk. omega (arith, w.inside k hk))
          h).1 in
    let w1 = IsPlaced-agree l t1.log start1 n1 agree w in
    let (t2, order2, run2, r2) = install-IsReplayed t1 order1 r1.quiet w1 (λ j lo hi.
      subst (λ (x : Log). IsSynced t1 order1 x.dev (t1.log.start + 1 + j)) (sym r1.log)
        (r1.synced (t1.log.start + 1 + j) (y (t1.log.start + 1 + j)))) in
    let start2 : t2.log.start ≡ l.start = ap (λ (x : Log). x.start) r2.log ∙ start1 in
    let (t, after, run3, q3, log3, empty, kept) =
      clear-IsInstalled t2 order2 r2.quiet (omega (arith, w.area, start2)) in
    let rest : Machine → Run Machine (Unit {0}) =
      λ u. write_head (record u { log = emptied u.log }) in
    (
      t,
      after,
      ap (λ (x : Run Machine (Unit {0})). and_then x resume) run1
          ∙ rw (lt→ltb 0 t1.log.lh.n (omega (arith, n1)))
              (ap (λ (x : Run Machine (Unit {0})). and_then x (λ _. rest)) run2 ∙ run3),
      record {
        quiet = q3;
        header = ap (λ n. get32 (t.ramdisk n) 0) (sym start2) ∙ empty;
        home = λ j h.
            kept (l.lh.block j) (λ e. omega (arith, w.outside j h, start2))
            ∙ installed_home l hd d done w cut t1.log start1 n1 agree t1.ramdisk t2.ramdisk
                (r1.ramdisk ∙ disk) r2.ramdisk j h;
        other = λ b ne none_has.
            kept b (λ e. ne (e ∙ start2))
            ∙ installed_other l hd d done w cut t1.log start1 n1 agree t1.ramdisk t2.ramdisk
                (r1.ramdisk ∙ disk) r2.ramdisk b ne none_has;
      },
    )
