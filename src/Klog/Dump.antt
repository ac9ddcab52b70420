-- ===== src/Klog/Dump.antt =====
-- klog_dump of riscv-os/kernel/klog.c.
use mathlib.Core.List.{append_assoc}
use os.Common.{
  ℕ, zero, suc, ◌+◌, ◌-◌, ◌%◌, ◌≤◌, ◌≡◌, ◌⊎◌, ◌<◌, ◌^◌, refl, sym, ap, ◌∙◌, arith, inl, inr, ◌==◌,
  ltb, Bool-cases, List, [], ◌∷◌, ◌++◌,
}
use os.Klog.{
  Klog, KlogEntry, klog_nentry, klog_dump, dump_lines, dump_loop, klog_emit_console, to_print,
  tail_of,
}
use os.Klog.Ring.{IsKlog, recent, ready_id}

-- The latest `n` entries, the last one first.
abbrev pub latest : ℕ → Klog → List KlogEntry
latest zero k = []
latest (suc n) k = latest n k ++ recent k n ∷ []

-- The lines that a dump has printed, the last one first.
dump_loop-latest :
    (rounds i lines : ℕ) (k t : Klog)
    → i + rounds ≡ lines
    → lines ≤ klog_nentry
    → t.ring ≡ k.ring
    → (dump_loop rounds i (tail_of lines k) t).console ≡ latest rounds k ++ t.console
unfolding dump_loop klog_emit_console
dump_loop-latest zero i lines k t e h same = refl
dump_loop-latest (suc rounds) i lines k t e h same =
    let at = (tail_of lines k + i) % klog_nentry in
    let place : at ≡ (k.head + 255 - rounds) % klog_nentry = omega arith in
    dump_loop-latest rounds (i + 1) lines k (klog_emit_console (t.ring at) t) (omega arith) h same
    ∙ ap (λ x. latest rounds k ++ x ∷ t.console) (ap (λ r. r at) same ∙ ap k.ring place)
    ∙ sym (append_assoc (latest rounds k) (recent k rounds ∷ []) t.console)

dump_lines-latest :
    (lines : ℕ) (k : Klog)
    → lines ≤ k.count
    → k.count ≤ klog_nentry
    → (dump_lines lines k).console ≡ latest lines k ++ k.console
unfolding dump_lines
dump_lines-latest lines k h g = elim (Bool-cases (ltb lines k.count)) [
  | inl few ↦ rw few (dump_loop-latest lines 0 lines k k (omega arith) (omega arith) refl)
  | inr all ↦
      let e : lines ≡ k.count = ground arith in
      rw all (
        ap (λ n. (dump_loop lines 0 (tail_of n k) k).console) (sym e)
        ∙ dump_loop-latest lines 0 lines k k (omega arith) (omega arith) refl)
]

-- The number of lines of a dump: all of the ring's `count` entries if `max_lines` is 0, negative or
-- larger than their number, and else `max_lines`.
pub record IsPrinted (max_lines count n : ℕ) : Type 0 where
  pub all : (max_lines ≡ 0) ⊎ (2 ^ 31 ≤ max_lines) ⊎ (count < max_lines) → n ≡ count
  pub some : 0 < max_lines → max_lines < 2 ^ 31 → max_lines ≤ count → n ≡ max_lines

to_print-IsPrinted : (max_lines count : ℕ) → IsPrinted max_lines count (to_print max_lines count)
to_print-IsPrinted max_lines count = record {
  all = λ h. ground arith;
  some = λ a b c. ground arith;
}

-- klog_dump on a log that is set up sends the latest entries to the console, the oldest of them
-- first: all that the ring holds if `max_lines` is 0, negative or larger than their number, and else
-- `max_lines` of them.
pub klog_dump-latest :
    (max_lines : ℕ) (k : Klog)
    → IsKlog k
    → (n : ℕ) × IsPrinted max_lines k.count n
      × ((klog_dump max_lines k).console ≡ latest n k ++ k.console)
unfolding klog_dump
klog_dump-latest max_lines k g = (
  to_print max_lines k.count,
  to_print-IsPrinted max_lines k.count,
  rw (ready_id k g.inited) (elim (Bool-cases (k.count == 0)) [
    | inl none ↦
        let empty : to_print max_lines k.count ≡ 0 = ground arith in
        rw none (ap (λ n. latest n k ++ k.console) (sym empty))
    | inr some ↦ rw some (dump_lines-latest (to_print max_lines k.count) k (ground arith) g.count)
  ]),
)
