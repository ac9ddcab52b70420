-- ===== src/Samples/Witnesses.antt =====
-- The theorems of the block layer at the sample states, and runs of it.
use os.Common.{
  ℕ, ◌+◌, ◌-◌, ◌<◌, ◌⊎◌, ◌≡◌, ◌≢◌, refl, sym, true, false, none, some, List, ◌∷◌, arith, ok, panic,
  remove,
}
use os.Lock.{initsleeplock, sleeping, acquiresleep, acquiresleep_loop, releasesleep, holdingsleep}
use os.Lock.Waits.{enabled, sleeplock_life}
use os.Machine.{nbuf, Machine}
use os.Bytes.{get32}
use os.Bio.{bget, bread, brelse, binit_ring}
use os.Bio.Init.{IsFresh, countdown, binit_ring-IsFresh}
use os.Bio.Cache.{IsCache, bget_list, bget_lem}
use os.Bio.Read.{IsReadable, IsRead, bread-IsRead}
use os.Bio.Synced.{IsRead-IsReadable}
use os.Bio.Release.{give_back, brelse_list, brelse-IsCache}
use os.Log.{
  end_op, set_log, log_write, commit, recover_from_log, set_header, load_blocks, store_head,
}
use os.Log.Header.{load-store_head}
use os.Log.Copies.{IsCopied}
use os.Log.Write.{IsPlace, HasNoPlace, enter, log_write-IsCopied, log_write-full}
use os.Log.Commit.{IsCommitted, commit-IsCommitted}
use os.Log.End.{IsEnded, end_op-IsEnded}
use os.Log.Recover.{IsRecovered, cut_off, recover-IsRecovered}
use os.Samples.{
  junk, one_entry, booted, order, booted-IsCache, booted-IsQuiet, booted-IsSynced,
  booted-IsReadable, one_entry-IsPlaced,
}

-- Block 40 as a buffer that is out, and the state with it.
abbrev opened :
    (i : ℕ) × (t : Machine) × (bread 1 40 booted ≡ ok i t) × IsRead booted order 1 40 i t
opened = bread-IsRead 1 40 booted order booted-IsCache (booted-IsReadable 40 (omega arith))

sleeplock_life_example :
    (acquiresleep enabled initsleeplock ≡ some (enabled, sleeping true))
    × (holdingsleep enabled (sleeping true) ≡ some (true, enabled, sleeping true))
    × (acquiresleep_loop 5 enabled (sleeping true) ≡ none)
    × (releasesleep enabled (sleeping true) ≡ some (enabled, sleeping false))
sleeplock_life_example = sleeplock_life enabled initsleeplock 5 refl refl

binit_ring-IsFresh_example : IsFresh (binit_ring (λ _. junk)) (countdown nbuf)
binit_ring-IsFresh_example = binit_ring-IsFresh (λ _. junk)

bget_lem_example : bget 1 40 booted ≡ bget_list 1 40 order booted
bget_lem_example = bget_lem 1 40 booted order booted-IsCache

bread-IsRead_example :
    (i : ℕ) × (t : Machine) × (bread 1 40 booted ≡ ok i t) × IsRead booted order 1 40 i t
bread-IsRead_example =
    bread-IsRead 1 40 booted order booted-IsCache (booted-IsReadable 40 (omega arith))

opened_used : (opened.1.buf opened.0).dev ≢ 0
opened_used z = omega (arith, opened.3.dev_eq)

brelse-IsCache_example :
    (brelse opened.0 opened.1 ≡ brelse_list opened.0 (opened.1.buf opened.0).lock.locked opened.1)
    × IsCache (give_back opened.0 opened.1) (opened.0 ∷ remove opened.0 order)
brelse-IsCache_example =
    brelse-IsCache opened.0 opened.1 order opened.3.cache opened.3.mem opened_used

load-store_head_example :
    (get32 (store_head one_entry.lh (λ o. 255)) 0 ≡ 1)
    × (load_blocks 1 0 (store_head one_entry.lh (λ o. 255)) (λ _. 0) 0 ≡ 40)
load-store_head_example =
    load-store_head one_entry.lh (λ o. 255) (λ _. 0) 0 (omega arith) (λ k h. omega arith)
      (omega arith)

commit-IsCommitted_example :
    (t : Machine) × (after : List ℕ) × (commit booted ≡ ok tt t) × IsCommitted booted t after
commit-IsCommitted_example =
    commit-IsCommitted booted order booted-IsQuiet one_entry-IsPlaced
      (λ j lo hi. booted-IsSynced 1 (2 + 1 + j)) (omega arith)

end_op-IsEnded_example :
    ((booted.log.outstanding ≡ 0) × (end_op booted ≡ panic "end_op: no outstanding"))
    ⊎ (((1 < booted.log.outstanding)
          × (end_op booted
              ≡ ok tt
                  (set_log (record one_entry { outstanding = booted.log.outstanding - 1 }) booted)))
        ⊎ ((booted.log.outstanding ≡ 1)
            × (t : Machine) × (after : List ℕ) × (end_op booted ≡ ok tt t)
            × IsEnded booted t after))
end_op-IsEnded_example =
    end_op-IsEnded booted order booted-IsQuiet one_entry-IsPlaced
      (λ j lo hi. booted-IsSynced 1 (2 + 1 + j)) (omega arith)

-- The machine after a crash in the middle of a commit.
abbrev crashed : Machine
crashed = record booted { ramdisk = cut_off 0 one_entry (λ o. 255) (λ b o. b) }

recover-IsRecovered_example :
    (t : Machine) × (after : List ℕ) × (recover_from_log crashed ≡ ok tt t)
    × IsRecovered one_entry (λ b o. b) t after
recover-IsRecovered_example =
    recover-IsRecovered one_entry (λ o. 255) (λ b o. b) 0 crashed order one_entry-IsPlaced
      (omega arith) (omega arith) (omega arith)
      (record {
        cache = record { lock_free = refl; bufs = booted-IsCache.bufs };
        idle = booted-IsQuiet.idle;
        two = omega arith;
        used = omega arith;
      })
      refl (λ b j m key v. cc ((binit_ring-IsFresh (λ _. junk)).invalid j m)) refl

-- Block 40 is out, in a transaction whose log has it already.
abbrev i : ℕ
i = opened.0

abbrev writing : Machine
writing = record opened.1 { log = one_entry }

writing-IsCache : IsCache writing order
writing-IsCache = record { lock_free = opened.3.cache.lock_free; bufs = opened.3.cache.bufs }

writing-IsPlace : IsPlace writing i 0
writing-IsPlace = record {
  below = omega arith;
  hit = λ h. sym opened.3.blockno_eq;
  earlier = λ j h. absurd (omega arith);
}

-- Any block of the log can be read meanwhile.
log-IsReadable : (b : ℕ) → b < 40 → IsReadable writing order 1 b
log-IsReadable b h =
    (IsRead-IsReadable booted writing order 1 40 i b booted-IsQuiet.idle
      (record {
        cache = writing-IsCache;
        mem = opened.3.mem;
        was_back = opened.3.was_back;
        held = opened.3.held;
        dev_eq = opened.3.dev_eq;
        blockno_eq = opened.3.blockno_eq;
        valid = opened.3.valid;
        bytes = opened.3.bytes;
        others = opened.3.others;
        ramdisk = opened.3.ramdisk;
        log = refl;
        above_eq = opened.3.above_eq;
      })
      (omega arith) (omega arith) (omega arith) (omega arith))

log_write-IsCopied_example :
    (t : Machine) × (after : List ℕ) × (log_write i writing ≡ ok tt t)
    × IsCopied
        (set_header (enter 0 (writing.buf i).blockno one_entry.lh) writing)
        i
        (2 + 1 + 0)
        t
        after
log_write-IsCopied_example =
    log_write-IsCopied i 0 writing order writing-IsCache opened.3.mem opened.3.held (omega arith)
      writing-IsPlace (λ e. (omega arith, omega arith, omega arith))
      (log-IsReadable 3 (omega arith))

-- A transaction with thirty blocks, none of them block 40.
abbrev full : Machine
full = record writing { log = record one_entry { lh = record { n = 30; block = λ k. 100 + k } } }

full-IsReadable : (b : ℕ) → b < 40 → IsReadable full order 1 b
full-IsReadable b h =
    let r = log-IsReadable b h in
    record { used = r.used; inside = r.inside; back = r.back; spare = r.spare }

log_write-full_example :
    (HasNoPlace full i × (log_write i full ≡ panic "log_write: log full"))
    ⊎ (¬ (HasNoPlace full i) × (t : Machine) × (log_write i full ≡ ok tt t))
log_write-full_example =
    log_write-full i full order
      (record { lock_free = writing-IsCache.lock_free; bufs = writing-IsCache.bufs }) opened.3.mem
      opened.3.held (omega arith) (λ k e. full-IsReadable (2 + 1 + k) (omega (arith, e.below)))
