-- ===== src/Store/Sessions.antt =====
-- bread (riscv-os/kernel/bio.c) outside a transaction.
use os.Common.{
  ℕ, ◌<◌, ◌≡◌, ◌≢◌, inl, inr, refl, sym, ap, ◌∙◌, subst, arith, true, false, List, ◌∷◌, ◌==◌, ==→eq,
  ==→ne, ◌∈◌, has, length, Bool-cases, ok,
}
use os.Machine.{Machine, Buf, Block, Log, nbuf, fssize, above}
use os.Bio.{has_key, bread}
use os.Bio.Buffers.{IsCounted}
use os.Bio.Read.{IsReadable, IsRead, bread-IsRead}
use os.Bio.Release.{unplaced}
use os.Bio.Synced.{IsSynced, content-synced}
use os.Store.{IsHeld, IsOpen, lacking, Out-lacking, IsHeld-same, IsBack-same}

-- What bread leaves: buffer `i` is out as well and has the bytes of block `b`.
pub record IsOpened (s : Machine) (out : List ℕ) (b i : ℕ) (t : Machine) : Type 0 where
  pub is_open : IsOpen t (i ∷ out)
  pub fresh : has i out ≡ false
  pub blockno_eq : (t.buf i).blockno ≡ b
  pub bytes : (t.buf i).bytes ≡ s.ramdisk b
  pub others : (j : ℕ) → j ≢ i → t.buf j ≡ s.buf j
  pub ramdisk : t.ramdisk ≡ s.ramdisk
  pub log : t.log ≡ s.log
  pub above_eq : above t ≡ above s

-- The buffers that are out are for other blocks.
abbrev pub IsApart : Machine → List ℕ → ℕ → Type 0
IsApart s out b = (j : ℕ) → j ∈ out → (s.buf j).blockno ≢ b

module _ (s : Machine) (out : List ℕ) (b : ℕ) (o : IsOpen s out) (inside : b < fssize)
    (apart : IsApart s out b) (room : length out < nbuf) where
  key_back : (j : ℕ) → has_key s.log.dev b (s.buf j) ≡ true → has j out ≡ false
  key_back j key = elim (Bool-cases (has j out)) [
    | inl m ↦ absurd (apart j m (ground arith))
    | inr free ↦ free
  ]

  open-IsReadable : IsReadable s o.order s.log.dev b
  open-IsReadable =
      let (j, m, free) = lacking o.order out o.cache.ring.distinct.1 (omega (arith, o.all)) in
      record {
        used = o.used;
        inside = inside;
        back = λ l n key. (o.back l n (key_back l key)).unlocked;
        spare = (j, m, not_out (s.buf j) (o.cache.counted j m) (o.back j m free).unlocked);
      }
    where
      not_out : (c : Buf) → IsCounted c → c.lock.locked ≡ false → c.refcnt ≡ 0
      not_out c counted h = ground arith

  open-IsSynced : IsSynced s o.order s.log.dev b
  open-IsSynced j m key v =
      (o.back j m (key_back j key)).synced (ground arith) v ∙ ap s.ramdisk (ground arith)

  opened : (i : ℕ) (t : Machine) → IsRead s o.order s.log.dev b i t → IsOpened s out b i t
  opened i t r =
      let fresh : has i out ≡ false = elim (Bool-cases (has i out)) [
        | inl m ↦ absurd (cc ((o.held i m).locked, r.was_back))
        | inr free ↦ free
      ] in
      record {
        is_open = record {
          order = o.order;
          cache = r.cache;
          all = o.all;
          used = subst (λ (l : Log). l.dev ≢ 0) (sym r.log) o.used;
          plain = ap (λ (l : Log). l.outstanding) r.log ∙ o.plain;
          distinct = (Out-lacking i out fresh, o.distinct);
          held = λ j m. elim (Bool-cases (j == i)) [
            | inl same ↦
                (let e : i ≡ j = sym (==→eq j i same) in
                  subst (IsHeld t o.order) e (record {
                    mem = r.mem;
                    locked = r.held;
                    dev_eq = r.dev_eq ∙ sym (ap (λ (l : Log). l.dev) r.log);
                    inside = subst (λ n. n < fssize) (sym r.blockno_eq) inside;
                  }))
            | inr other ↦
                IsHeld-same s t o.order o.order j (o.held j (ground arith)) refl
                  (ap unplaced (r.others j (==→ne j i other))) r.log
          ];
          back = λ j m free.
              IsBack-same s t j (o.back j m (ground arith))
                (ap unplaced (r.others j (ground arith))) r.log
                (λ d. ap (λ (f : ℕ → Block). f (s.buf j).blockno) r.ramdisk);
        };
        fresh = fresh;
        blockno_eq = r.blockno_eq;
        bytes = r.bytes ∙ content-synced s o.order s.log.dev b open-IsSynced;
        others = r.others;
        ramdisk = r.ramdisk;
        log = r.log;
        above_eq = r.above_eq;
      }

  -- Reading block `b` of the disk.
  pub bread-IsOpened :
      (i : ℕ) × (t : Machine) × (bread s.log.dev b s ≡ ok i t) × IsOpened s out b i t
  bread-IsOpened =
      let (i, t, run, r) = bread-IsRead s.log.dev b s o.order o.cache open-IsReadable in
      (i, t, run, opened i t r)
