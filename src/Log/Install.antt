-- ===== src/Log/Install.antt =====
-- install_trans_from_log copies the log's data blocks to their home blocks.
use os.Common.{
  ℕ, ◌+◌, ◌≤◌, ◌<◌, ◌≡◌, ◌≢◌, sym, ap, ◌∙◌, subst, true, List, ◌∷◌, arith, ◌==◌, ==→ne, Bool-cases,
  inl, inr, length, update, update_self, update_ne, ◌∈◌, has-remove, length-remove, remove, Run, ok,
  and_then,
}
use os.Machine.{Machine, Buf, Block, Log, fssize}
use os.Disk.{virtio_disk_rw}
use os.Bio.{bread, brelse}
use os.Bio.Cache.{IsCache}
use os.Bio.Read.{content, IsRead, bread-IsRead}
use os.Bio.Release.{unplaced, give_back}
use os.Bio.Write.{fill, written, write_lem, written-IsCache, brelse-held, give_back_ne}
use os.Bio.Synced.{
  IsSynced, IsIdle, IsRead-IsSynced, written-IsSynced, give_back-IsSynced, give_back-locked,
  IsIdle-IsReadable, IsRead-IsReadable,
}
use os.Log.{install_block}

-- A state between two calls of the log's own code: the cache is idle and has buffers to spare.
pub record IsQuiet (s : Machine) (order : List ℕ) : Type 0 where
  pub cache : IsCache s order
  pub idle : IsIdle s order
  pub two : 2 ≤ length order
  pub used : s.log.dev ≢ 0

-- What one round of the loop does: block `h` of the disk becomes `v`, the copies of all other
-- blocks stay as much in step as they were, and those of `h` come into step.
pub record IsInstalled (s : Machine) (order : List ℕ) (h : ℕ) (v : Block) (t : Machine)
    (after : List ℕ) : Type 0 where
  pub quiet : IsQuiet t after
  pub ramdisk : t.ramdisk ≡ update s.ramdisk h v
  pub log : t.log ≡ s.log
  pub synced : (b : ℕ) → (b ≢ h → IsSynced s order s.log.dev b) → IsSynced t after s.log.dev b

-- What the round does when both blocks have been read.
abbrev flush_home : ℕ → ℕ → Machine → Run Machine (Unit {0})
flush_home lb db t =
    and_then (virtio_disk_rw db true (fill db (t.buf lb).bytes t))
      (λ _ u. and_then (brelse lb u) (λ _. brelse db))

-- The states of one round when the home block has been written, and when both buffers are back.
abbrev home_written : ℕ → ℕ → Machine → Machine
home_written lb db t = written db (t.buf lb).bytes t

abbrev both_back : ℕ → ℕ → Machine → Machine
both_back lb db t = give_back db (give_back lb (home_written lb db t))

abbrev reorder : ℕ → ℕ → List ℕ → List ℕ
reorder lb db order = db ∷ remove db (lb ∷ remove lb order)

-- One round, with both buffers out: `lb` for the log's block `p`, `db` for the home block `h`.
module _ (s t1 t2 : Machine) (order : List ℕ) (p h lb db : ℕ) (q : IsQuiet s order)
    (r1 : IsRead s order s.log.dev p lb t1) (r2 : IsRead t1 order s.log.dev h db t2) where
  apart_bufs : lb ≢ db
  apart_bufs e = cc (r1.held, r2.was_back, e)

  at_db : (home_written lb db t2).buf db ≡ record (t2.buf db) { bytes = (t2.buf lb).bytes }
  at_db = update_self t2.buf db (record (t2.buf db) { bytes = (t2.buf lb).bytes })

  at_other : (j : ℕ) → j ≢ db → (home_written lb db t2).buf j ≡ t1.buf j
  at_other j ne =
      update_ne t2.buf db j (record (t2.buf db) { bytes = (t2.buf lb).bytes }) ne ∙ r2.others j ne

  home_used : (t2.buf db).dev ≢ 0
  home_used z = q.used (sym r2.dev_eq ∙ z)

  written-IsCache_home : IsCache (home_written lb db t2) order
  written-IsCache_home = written-IsCache db (t2.buf lb).bytes t2 order r2.cache r2.mem home_used

  release_log :
      (brelse lb (home_written lb db t2) ≡ ok tt (give_back lb (home_written lb db t2)))
      × IsCache (give_back lb (home_written lb db t2)) (lb ∷ remove lb order)
  release_log =
      let e = at_other lb apart_bufs in
      brelse-held lb (home_written lb db t2) order written-IsCache_home r1.mem
        (λ z. q.used (sym r1.dev_eq ∙ sym (ap (λ (b : Buf). b.dev) e) ∙ z))
        (ap (λ (b : Buf). b.lock.locked) e ∙ r1.held)

  mem_home : db ∈ (lb ∷ remove lb order)
  mem_home = has-remove lb db order r1.mem ∙ r2.mem

  release_home :
      (brelse db (give_back lb (home_written lb db t2)) ≡ ok tt (both_back lb db t2))
      × IsCache (both_back lb db t2) (reorder lb db order)
  release_home =
      let e =
        give_back_ne lb db (home_written lb db t2) (λ z. apart_bufs (sym z)) ∙ ap unplaced at_db in
      brelse-held db (give_back lb (home_written lb db t2)) (lb ∷ remove lb order) release_log.1
        mem_home (λ z. home_used (sym (ap (λ (b : Buf). b.dev) e) ∙ z))
        (ap (λ (b : Buf). b.lock.locked) e ∙ r2.held)

  mem_back : (j : ℕ) → j ∈ reorder lb db order → j ∈ order
  mem_back j m =
      sym (has-remove lb j order r1.mem) ∙ sym (has-remove db j (lb ∷ remove lb order) mem_home) ∙ m

  IsIdle-back : IsIdle (both_back lb db t2) (reorder lb db order)
  IsIdle-back j m =
      give_back-locked db j (give_back lb (home_written lb db t2)) ∙ (elim (Bool-cases (j == db)) [
        | inl same ↦ rw same
        | inr other ↦ rw other (
            give_back-locked lb j (home_written lb db t2) ∙ (elim (Bool-cases (j == lb)) [
              | inl same ↦ rw same
              | inr third ↦ rw third (
                  ap (λ (b : Buf). b.lock.locked)
                    (at_other j (==→ne j db other) ∙ r1.others j (==→ne j lb third))
                  ∙ q.idle j (mem_back j m))
            ]))
      ])

  IsSynced-back :
      (b : ℕ)
      → (b ≢ h → IsSynced s order s.log.dev b)
      → IsSynced (both_back lb db t2) (reorder lb db order) s.log.dev b
  IsSynced-back b y =
      give_back-IsSynced db (give_back lb (home_written lb db t2)) (lb ∷ remove lb order) s.log.dev
        b mem_home
        (give_back-IsSynced lb (home_written lb db t2) order s.log.dev b r1.mem (
          written-IsSynced db (t2.buf lb).bytes t2 order s.log.dev b r2.cache r2.mem q.used
            r2.dev_eq
            λ ne. IsRead-IsSynced t1 t2 order s.log.dev h db b r2 (
              IsRead-IsSynced s t1 order s.log.dev p lb b r1
                (y (λ e. ne (e ∙ sym r2.blockno_eq))))))

  value_back : (t2.buf lb).bytes ≡ content order s.log.dev p s
  value_back = ap (λ (b : Buf). b.bytes) (r2.others lb apart_bufs) ∙ r1.bytes

  round_IsInstalled :
      IsInstalled s order h (content order s.log.dev p s) (both_back lb db t2) (reorder lb db order)
  round_IsInstalled = record {
    quiet = record {
      cache = release_home.1;
      idle = IsIdle-back;
      two = omega (
        arith,
        length-remove lb order r1.mem,
        length-remove db (lb ∷ remove lb order) mem_home,
        q.two,
      );
      used = subst (λ (l : Log). l.dev ≢ 0) (sym (r2.log ∙ r1.log)) q.used;
    };
    ramdisk =
        ap (λ (d : ℕ → Block). update d (t2.buf db).blockno (t2.buf lb).bytes)
          (r2.ramdisk ∙ r1.ramdisk)
        ∙ ap (λ (n : ℕ). update s.ramdisk n (t2.buf lb).bytes) r2.blockno_eq
        ∙ ap (λ (v : Block). update s.ramdisk h v) value_back;
    log = r2.log ∙ r1.log;
    synced = IsSynced-back;
  }

-- A round of the loop copies the content of the log's block to the home block.
pub install_block-IsInstalled :
    (k : ℕ) (s : Machine) (order : List ℕ)
    → IsQuiet s order
    → s.log.start + 1 + k < fssize
    → s.log.lh.block k < fssize
    → s.log.lh.block k ≢ s.log.start + 1 + k
    → (t : Machine) × (after : List ℕ) × (install_block k s ≡ ok tt t)
      × IsInstalled s order
          (s.log.lh.block k)
          (content order s.log.dev (s.log.start + 1 + k) s)
          t
          after
unfolding install_block
install_block-IsInstalled k s order q p_in h_in apart =
    let dev = s.log.dev in
    let p = s.log.start + 1 + k in
    let h = s.log.lh.block k in
    let (lb, t1, run1, r1) =
      bread-IsRead dev p s order q.cache
        (IsIdle-IsReadable s order dev p q.cache q.idle q.two q.used p_in) in
    let (db, t2, run2, r2) =
      bread-IsRead dev h t1 order r1.cache
        (IsRead-IsReadable s t1 order dev p lb h q.idle r1 q.two q.used h_in apart) in
    let write =
      write_lem db (t2.buf lb).bytes t2 (subst (λ n. n < fssize) (sym r2.blockno_eq) h_in) in
    (
      both_back lb db t2,
      reorder lb db order,
      ap (λ (r : Run Machine ℕ). and_then r (λ i t. and_then (bread dev h t) (λ j. flush_home i j)))
            run1
          ∙ ap (λ (r : Run Machine ℕ). and_then r (flush_home lb)) run2
          ∙ ap
              (λ (r : Run Machine (Unit {0})).
                and_then r (λ _ t. and_then (brelse lb t) (λ _. brelse db)))
              write
          ∙ ap (λ (r : Run Machine (Unit {0})). and_then r (λ _. brelse db))
              (release_log s t1 t2 order p h lb db q r1 r2).0
          ∙ (release_home s t1 t2 order p h lb db q r1 r2).0,
      round_IsInstalled s t1 t2 order p h lb db q r1 r2,
    )
