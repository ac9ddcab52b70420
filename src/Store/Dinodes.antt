-- ===== src/Store/Dinodes.antt =====
-- iupdate and ilock (riscv-os/kernel/fs.c) outside a transaction.
use os.Common.{
  ℕ, ◌≤◌, ◌<◌, ◌≡◌, ◌≢◌, refl, sym, ap, ◌∙◌, subst, true, false, List, length, ltb, le→ltb,
  update_self, some, ok,
}
use os.Lock.{sleeping}
use os.Lock.Waits.{enabled, slept, acquiresleep_lem}
use os.Lock.{acquiresleep}
use os.Machine.{Machine, Buf, Block, Log, Inode, Above, nbuf, fssize}
use os.Fs.Inodes.{iblock, dinode_at, t_unused, set_inode, store_dinode, load_dinode}
use os.Fs.Lifetime.{iupdate, ilock, ilock_load}
use os.Fs.Dinodes.{IsNarrow, IsLoaded, load-store_dinode}
use os.Store.{IsOpen, IsOpen-above}
use os.Store.Updates.{IsDone}
use os.Store.Loads.{home, IsHomed, stored, iupdate-IsDone, loaded, ilock_load-IsLocked}

pub record IsEntered (y : Inode) : Type 0 where
  pub in_use : 1 ≤ y.ref
  pub inner : y.lock.lk.locked ≡ false
  pub unlocked : y.lock.locked ≡ false
  pub valid : y.valid ≡ false

-- The state in which ilock has locked the inode.
abbrev pub locked_at : ℕ → Machine → Machine
locked_at k s =
    set_inode k (record (s.inode k) { lock = sleeping true }) (record s { cpu = enabled })

ilock_lem :
    (s : Machine) (k : ℕ) (y : Inode)
    → s.inode k ≡ y
    → IsEntered y
    → ilock (some k) s ≡ ilock_load k (locked_at k s)
unfolding ilock
ilock_lem s k y e h =
    let ref : ltb (s.inode k).ref 1 ≡ false =
      le→ltb (s.inode k).ref 1 (subst (λ (x : Inode). 1 ≤ x.ref) (sym e) h.in_use) in
    let lock : acquiresleep s.cpu (s.inode k).lock ≡ slept false =
      acquiresleep_lem s.cpu (s.inode k).lock (ap (λ (x : Inode). x.lock.lk.locked) e ∙ h.inner)
      ∙ ap slept (ap (λ (x : Inode). x.lock.locked) e ∙ h.unlocked) in
    let valid : ((locked_at k s).inode k).valid ≡ false =
      ap (λ (x : Inode). x.valid)
        (update_self s.inode k (record (s.inode k) { lock = sleeping true }))
      ∙ ap (λ (x : Inode). x.valid) e
      ∙ h.valid in
    rw (ref, lock, valid)

module _ (s : Machine) (out : List ℕ) (i k : ℕ) (y : Inode) (t : Machine) (h : IsHomed s out i)
    (r : IsDone s out (stored s i) t) (dev_eq : y.dev ≡ (s.inode i).dev)
    (inum_eq : y.inum ≡ (s.inode i).inum) where
  abbrev entering : Machine
  entering = locked_at k (set_inode k y t)

  at_k : (entering).inode k ≡ record y { lock = sleeping true }
  at_k =
      update_self (set_inode k y t).inode k
        (record ((set_inode k y t).inode k) { lock = sleeping true })
      ∙ ap (λ (x : Inode). record x { lock = sleeping true }) (update_self t.inode k y)

  inum_k : ((entering).inode k).inum ≡ (s.inode i).inum
  inum_k = ap (λ (x : Inode). x.inum) at_k ∙ inum_eq

  home_k : home (entering) k ≡ home s i
  home_k =
      ap (λ n. iblock n t.sb) inum_k ∙ ap (λ (a : Above). iblock (s.inode i).inum a.sb) r.above_eq

  IsHomed-k : IsHomed (entering) out k
  IsHomed-k = record {
    dev_eq =
        ap (λ (x : Inode). x.dev) at_k ∙ dev_eq ∙ h.dev_eq ∙ ap (λ (l : Log). l.dev) (sym r.log);
    inside = subst (λ n. n < fssize) (sym home_k) h.inside;
    apart = λ j m e. h.apart j m (ap (λ (c : Buf). c.blockno) (sym (r.kept j m)) ∙ e ∙ home_k);
  }

  loaded_k :
      loaded (entering) k
      ≡ load_dinode
          (store_dinode (s.inode i) (dinode_at (s.inode i).inum) (s.ramdisk (home s i)))
          (dinode_at (s.inode i).inum)
          (record y { lock = sleeping true; valid = true })
  unfolding load_dinode
  loaded_k =
      let o = dinode_at (s.inode i).inum in
      let v = store_dinode (s.inode i) o (s.ramdisk (home s i)) in
      ap
        (λ (x : Inode). record (load_dinode (t.ramdisk (home (entering) k)) (dinode_at x.inum) x) {
          valid = true;
        })
        at_k
      ∙ ap
          (λ n.
            record (load_dinode (t.ramdisk n) (dinode_at y.inum)
              (record y { lock = sleeping true })) { valid = true })
          home_k
      ∙ ap
          (λ (d : ℕ → Block).
            record (load_dinode (d (home s i)) (dinode_at y.inum)
              (record y { lock = sleeping true })) { valid = true })
          r.ramdisk
      ∙ ap
          (λ (w : Block).
            record (load_dinode w (dinode_at y.inum) (record y { lock = sleeping true })) {
              valid = true;
            })
          (update_self s.ramdisk (home s i) v)
      ∙ ap
          (λ n. record (load_dinode v (dinode_at n) (record y { lock = sleeping true })) {
            valid = true;
          })
          inum_eq

-- What iupdate has stored ilock loads again. Outside a transaction: when iupdate of the inode in
-- place i has returned, and then the inode is entered in a place k as y, ilock of it returns with
-- the inode locked, valid, and with all that a dinode holds as it was in place i. The fields of
-- that inode have the structure's widths, and it has a type.
pub iupdate-ilock :
    (s : Machine) (out : List ℕ) (i k : ℕ) (y : Inode)
    → IsOpen s out
    → IsHomed s out i
    → length out < nbuf
    → IsNarrow (s.inode i)
    → (s.inode i).type ≢ t_unused
    → IsEntered y
    → y.dev ≡ (s.inode i).dev
    → y.inum ≡ (s.inode i).inum
    → (t : Machine) × (u : Machine) × (iupdate i s ≡ ok tt t)
      × (ilock (some k) (set_inode k y t) ≡ ok tt u)
      × IsLoaded (s.inode i) (record y { lock = sleeping true; valid = true }) (u.inode k)
      × IsOpen u out
iupdate-ilock s out i k y o h room narrow typed entered dev_eq inum_eq =
    let (t, run, r) = iupdate-IsDone s out i o h room in
    let v = entering s out i k y t h r dev_eq inum_eq in
    let same = loaded_k s out i k y t h r dev_eq inum_eq in
    let back : IsLoaded (s.inode i) (record y { lock = sleeping true; valid = true }) (loaded v k) =
      subst (IsLoaded (s.inode i) (record y { lock = sleeping true; valid = true })) (sym same) (
        load-store_dinode (s.inode i) (record y { lock = sleeping true; valid = true })
          (dinode_at (s.inode i).inum) (s.ramdisk (home s i)) narrow) in
    let (u, run', l) =
      (ilock_load-IsLocked v out k (IsOpen-above t v out r.is_open refl refl refl refl)
          (IsHomed-k s out i k y t h r dev_eq inum_eq) room).1
        (λ e. typed (sym back.type ∙ e)) in
    (
      t,
      u,
      run,
      ilock_lem (set_inode k y t) k y (update_self t.inode k y) entered ∙ run',
      subst (IsLoaded (s.inode i) (record y { lock = sleeping true; valid = true }))
          (sym (ap (λ (a : Above). a.inode k) l.above_eq ∙ update_self v.inode k (loaded v k)))
          back,
      l.is_open,
    )
