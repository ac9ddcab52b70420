-- ===== src/Klog/Ring.antt =====
-- The ring of riscv-os/kernel/klog.c keeps the latest entries.
use os.Common.{
  ℕ, suc, ◌+◌, ◌-◌, ◌%◌, ◌^◌, ◌≤◌, ◌<◌, ◌≡◌, ◌⊎◌, inl, inr, refl, ap, ◌∙◌, arith, true, false,
  if◌then◌else◌, ◌==◌, Bool-cases, update, update_self, update_ne,
}
use os.Klog.{
  Klog, KlogEntry, Message, klog_nentry, fill_entry, record_entry, klogf, ready, slt,
  klog_emit_console,
}

-- The entry that was written `i` entries before the last one.
abbrev pub recent : Klog → ℕ → KlogEntry
recent k i = k.ring ((k.head + 255 - i) % klog_nentry)

pub record IsKlog (k : Klog) : Type 0 where
  pub inited : k.inited ≡ true
  pub head : k.head < klog_nentry
  pub count : k.count ≤ klog_nentry

-- The message is the latest entry of `t`, behind those of `k`, of which the oldest is gone if the
-- ring was full.
pub record IsLogged (m : Message) (k t : Klog) : Type 0 where
  pub newest : recent t 0 ≡ fill_entry m (k.ring k.head)
  pub older : (i : ℕ) → suc i < klog_nentry → recent t (suc i) ≡ recent k i
  pub count : t.count ≡ (if k.count == klog_nentry then klog_nentry else k.count + 1)
  pub level : t.level_threshold ≡ k.level_threshold
  pub filtered : t.filtered ≡ k.filtered
  pub good : IsKlog t

record_entry-recent :
    (m : Message) (k : Klog) (i : ℕ)
    → recent (record_entry m k) i
      ≡ update k.ring k.head
          (fill_entry m (k.ring k.head))
          (((k.head + 1) % klog_nentry + 255 - i) % klog_nentry)
unfolding record_entry klog_emit_console
record_entry-recent m k i = elim (Bool-cases k.console_on) [ inl on ↦ rw on | inr off ↦ rw off ]

record_entry-IsKlog : (m : Message) (k : Klog) → IsKlog k → IsKlog (record_entry m k)
unfolding record_entry klog_emit_console
record_entry-IsKlog m k g = elim (Bool-cases k.console_on) [
  | inl on ↦ record {
    inited = rw on g.inited;
    head = rw on (omega arith);
    count = rw on (ground (arith, g.count));
  }
  | inr off ↦ record {
    inited = rw off g.inited;
    head = rw off (omega arith);
    count = rw off (ground (arith, g.count));
  }
]

record_entry-same :
    (m : Message) (k : Klog)
    → (record_entry m k).count ≡ (if k.count == klog_nentry then k.count else k.count + 1)
      × (record_entry m k).level_threshold ≡ k.level_threshold
      × (record_entry m k).filtered ≡ k.filtered
unfolding record_entry klog_emit_console
record_entry-same m k = elim (Bool-cases k.console_on) [
  | inl on ↦ rw on (refl, refl, refl)
  | inr off ↦ rw off (refl, refl, refl)
]

record_entry-IsLogged : (m : Message) (k : Klog) → IsKlog k → IsLogged m k (record_entry m k)
record_entry-IsLogged m k g =
    let (n, l, f) = record_entry-same m k in
    let entry = fill_entry m (k.ring k.head) in
    let back : ((k.head + 1) % klog_nentry + 255 - 0) % klog_nentry ≡ k.head = omega arith in
    record {
      newest =
          record_entry-recent m k 0
          ∙ ap (update k.ring k.head entry) back
          ∙ update_self k.ring k.head entry;
      older = λ i h.
          record_entry-recent m k (suc i)
          ∙ update_ne k.ring k.head (((k.head + 1) % klog_nentry + 255 - suc i) % klog_nentry) entry
              (omega arith)
          ∙ ap k.ring (omega arith);
      count = n ∙ (ground arith);
      level = l;
      filtered = f;
      good = record_entry-IsKlog m k g;
    }

pub ready_id : (k : Klog) → k.inited ≡ true → ready k ≡ k
unfolding ready
ready_id k e = rw e refl

-- On a log that is set up, klogf puts the message behind the earlier ones, if its level reaches the
-- threshold: it is the latest entry, every earlier one but the oldest of a full ring is one place
-- further back, and the count grows up to KLOG_NENTRY. A message below the threshold is counted as
-- filtered, and nothing else changes.
pub klogf_lem :
    (m : Message) (k : Klog)
    → IsKlog k
    → (slt m.level k.level_threshold ≡ true
        × (klogf m k ≡ record k { filtered = (k.filtered + 1) % 2 ^ 64 }))
      ⊎ (slt m.level k.level_threshold ≡ false × IsLogged m k (klogf m k))
unfolding klogf
klogf_lem m k g = rw (ready_id k g.inited) (elim (Bool-cases (slt m.level k.level_threshold)) [
  | inl low ↦ inl (low, rw low refl)
  | inr high ↦ inr (high, rw high (record_entry-IsLogged m k g))
])
