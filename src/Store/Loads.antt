-- ===== src/Store/Loads.antt =====
-- iupdate, and what ilock does to load an inode (riscv-os/kernel/fs.c), outside a transaction.
use os.Common.{
  ℕ, ◌<◌, ◌≡◌, ◌≢◌, refl, sym, ap, ◌∙◌, subst, true, List, ◌∷◌, length, eq→==, ne→==, update,
  update_self, update-update, ok, panic,
}
use os.Machine.{Machine, Block, Inode, Above, above, nbuf, fssize}
use os.Bio.{bread}
use os.Fs.Inodes.{iblock, dinode_at, t_unused, set_inode, store_dinode, load_dinode}
use os.Fs.Lifetime.{iupdate, ilock_load}
use os.Store.{IsOpen, IsOpen-above}
use os.Store.Sessions.{IsOpened, IsApart, bread-IsOpened}
use os.Store.Updates.{IsDone, give_up, rewrite-IsDone}

-- The block of the inode in place `i`.
abbrev pub home : Machine → ℕ → ℕ
home s i = iblock (s.inode i).inum s.sb

-- The inode in place `i` is on the disk, in a block that is not out.
pub record IsHomed (s : Machine) (out : List ℕ) (i : ℕ) : Type 0 where
  pub dev_eq : (s.inode i).dev ≡ s.log.dev
  pub inside : home s i < fssize
  pub apart : IsApart s out (home s i)

abbrev pub stored : Machine → ℕ → ℕ → Block
stored s i =
    update s.ramdisk (home s i)
      (store_dinode (s.inode i) (dinode_at (s.inode i).inum) (s.ramdisk (home s i)))

-- iupdate puts the inode into its dinode on the disk.
pub iupdate-IsDone :
    (s : Machine) (out : List ℕ) (i : ℕ)
    → IsOpen s out
    → IsHomed s out i
    → length out < nbuf
    → (t : Machine) × (iupdate i s ≡ ok tt t) × IsDone s out (stored s i) t
unfolding iupdate
iupdate-IsDone s out i o h room =
    rewrite-IsDone s out (s.inode i).dev (home s i)
      (store_dinode (s.inode i) (dinode_at (s.inode i).inum)) o h.dev_eq h.inside h.apart room

-- The inode as ilock loads it from the disk.
abbrev pub loaded : Machine → ℕ → Inode
loaded s i = record (load_dinode (s.ramdisk (home s i)) (dinode_at (s.inode i).inum) (s.inode i)) {
  valid = true;
}

-- The disk and the log are as they were, and so is what stands above but for the inode in place
-- `i`, which is now `x`.
pub record IsLocked (s : Machine) (out : List ℕ) (i : ℕ) (x : Inode) (t : Machine) : Type 0 where
  pub is_open : IsOpen t out
  pub ramdisk : t.ramdisk ≡ s.ramdisk
  pub log : t.log ≡ s.log
  pub above_eq : above t ≡ record (above s) { inode = update s.inode i x }

module _ (s t u : Machine) (out : List ℕ) (i b : ℕ) (v : Block) (r : IsOpened s out (home s i) b t)
    (v_eq : v ≡ s.ramdisk (home s i)) where
  abbrev now_valid : Machine
  now_valid = set_inode i (record (u.inode i) { valid = true }) u

  module _
      (done : IsDone
        (set_inode i (load_dinode v (dinode_at (s.inode i).inum) (t.inode i)) t)
        out
        t.ramdisk
        u) where
    here : u.inode i ≡ load_dinode v (dinode_at (s.inode i).inum) (t.inode i)
    here =
        ap (λ (a : Above). a.inode i) done.above_eq
        ∙ update_self t.inode i (load_dinode v (dinode_at (s.inode i).inum) (t.inode i))

    same_inode :
        record (load_dinode v (dinode_at (s.inode i).inum) (t.inode i)) { valid = true }
        ≡ loaded s i
    same_inode =
        ap
          (λ (w : Block). record (load_dinode w (dinode_at (s.inode i).inum) (t.inode i)) {
            valid = true;
          })
          v_eq
        ∙ ap
            (λ (a : Above).
              record (load_dinode (s.ramdisk (home s i)) (dinode_at (s.inode i).inum) (a.inode i)) {
                valid = true;
              })
            r.above_eq

    inode_eq : (now_valid).inode ≡ update s.inode i (loaded s i)
    inode_eq =
        ap (λ (y : Inode). update u.inode i (record y { valid = true })) here
        ∙ ap
            (λ (a : Above).
              update a.inode i
                (record (load_dinode v (dinode_at (s.inode i).inum) (t.inode i)) { valid = true }))
            done.above_eq
        ∙ update-update t.inode i (load_dinode v (dinode_at (s.inode i).inum) (t.inode i))
            (record (load_dinode v (dinode_at (s.inode i).inum) (t.inode i)) { valid = true })
        ∙ ap (λ (y : Inode). update t.inode i y) same_inode
        ∙ ap (λ (a : Above). update a.inode i (loaded s i)) r.above_eq

    type_eq : ((now_valid).inode i).type ≡ (loaded s i).type
    type_eq =
        ap (λ (f : ℕ → Inode). (f i).type) inode_eq
        ∙ ap (λ (y : Inode). y.type) (update_self s.inode i (loaded s i))

    now_valid-IsLocked : IsLocked s out i (loaded s i) (now_valid)
    now_valid-IsLocked = record {
      is_open = IsOpen-above u (now_valid) out done.is_open refl refl refl refl;
      ramdisk = done.ramdisk ∙ r.ramdisk;
      log = done.log ∙ r.log;
      above_eq =
          ap (λ (a : Above). record a { inode = (now_valid).inode }) done.above_eq
          ∙ ap (λ (a : Above). record a { inode = (now_valid).inode }) r.above_eq
          ∙ ap (λ (f : ℕ → Inode). record (above s) { inode = f }) inode_eq;
    }

pub ilock_load-IsLocked :
    (s : Machine) (out : List ℕ) (i : ℕ)
    → IsOpen s out
    → IsHomed s out i
    → length out < nbuf
    → ((loaded s i).type ≡ t_unused → ilock_load i s ≡ panic "ilock: no type")
      × ((loaded s i).type ≢ t_unused
          → (t : Machine) × (ilock_load i s ≡ ok tt t) × IsLocked s out i (loaded s i) t)
unfolding ilock_load
ilock_load-IsLocked s out i o h room =
    let (b, t, run, r) = bread-IsOpened s out (home s i) o h.inside h.apart room in
    let x = load_dinode (t.buf b).bytes (dinode_at (s.inode i).inum) (t.inode i) in
    let t1 = set_inode i x t in
    let o1 : IsOpen t1 (b ∷ out) = IsOpen-above t t1 (b ∷ out) r.is_open refl refl refl refl in
    let agrees : (t.buf b).bytes ≡ t.ramdisk (t.buf b).blockno =
      r.bytes
      ∙ sym (ap (λ (d : ℕ → Block). d (home s i)) r.ramdisk)
      ∙ sym (ap t.ramdisk r.blockno_eq) in
    let (u, run1, done) = give_up b t1 out o1 agrees in
    let u1 = set_inode i (record (u.inode i) { valid = true }) u in
    let run' : bread (s.inode i).dev (home s i) s ≡ ok b t =
      subst (λ d. bread d (home s i) s ≡ ok b t) (sym h.dev_eq) run in
    let type_eq' = type_eq s t u out i b (t.buf b).bytes r r.bytes done in
    (
      λ unused. rw (run', run1, eq→== (u1.inode i).type t_unused (type_eq' ∙ unused)),
      λ in_use. (
        u1,
        rw (run', run1, ne→== (u1.inode i).type t_unused (λ e. in_use (sym type_eq' ∙ e))),
        now_valid-IsLocked s t u out i b (t.buf b).bytes r r.bytes done,
      ),
    )

-- An inode as iget enters it: in use, free, and not loaded.
