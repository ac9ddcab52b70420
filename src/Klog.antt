-- ===== src/Klog.antt =====
-- The kernel's message log (riscv-os/kernel/klog.c, riscv-os/include/klog.h). An `int` is its 32-bit
-- word. The lines that go to the console are entries; the line with the counts is left out.
pub mod Format
pub mod Ring
pub mod Dump
pub mod Bounds
pub mod Digits
use os.Common.{
  ℕ, zero, suc, ◌+◌, ◌-◌, ◌%◌, ◌^◌, Bool, true, false, not, ◌&&◌, ◌||◌, if◌then◌else◌, ltb, leb,
  ◌==◌, update, Option, none, some, List, [], ◌∷◌, ◌++◌,
}
use os.Klog.Format.{Chars, strncpy0, kvsnprintf_local}

abbrev pub klog_nentry : ℕ
klog_nentry = 256

abbrev pub klog_maxmsg : ℕ
klog_maxmsg = 160

abbrev pub klog_maxtag : ℕ
klog_maxtag = 16

-- `KLOG_DEBUG`, `KLOG_FATAL`
abbrev pub klog_debug : ℕ
klog_debug = 0

abbrev pub klog_fatal : ℕ
klog_fatal = 4

pub record KlogEntry : Type 0 where
  pub ts : ℕ
  pub level : ℕ
  pub tag : Chars
  pub msg : Chars

-- `ks`, and what has been sent to the console, the last line first.
pub record Klog : Type 0 where
  pub inited : Bool
  pub level_threshold : ℕ
  pub console_on : Bool
  pub ring : ℕ → KlogEntry
  pub head : ℕ
  pub count : ℕ
  pub total_written : ℕ
  pub overwritten : ℕ
  pub filtered : ℕ
  pub console : List KlogEntry

abbrev pub blank : KlogEntry
blank = record { ts = 0; level = 0; tag = λ _. 0; msg = λ _. 0 }

unfoldable pub klog_init : Klog → Klog
klog_init k = record {
  inited = true;
  level_threshold = klog_debug;
  console_on = true;
  ring = λ _. blank;
  head = 0;
  count = 0;
  total_written = 0;
  overwritten = 0;
  filtered = 0;
  console = k.console;
}

-- `if (!ks.inited) klog_init();`
unfoldable pub ready : Klog → Klog
unfolding klog_init
ready k = if not k.inited then klog_init k else k

-- `a < b` of two `int`s.
abbrev pub slt : ℕ → ℕ → Bool
slt a b = ltb ((a + 2 ^ 31) % 2 ^ 32) ((b + 2 ^ 31) % 2 ^ 32)

unfoldable pub klog_set_level : ℕ → Klog → Klog
unfolding ready
klog_set_level level k =
    let low = if slt level klog_debug then klog_debug else level in
    record (ready k) { level_threshold = if slt klog_fatal low then klog_fatal else low }

unfoldable pub klog_get_level : Klog → ℕ × Klog
unfolding ready
klog_get_level k = ((ready k).level_threshold, ready k)

unfoldable pub klog_enable_console : ℕ → Klog → Klog
unfolding ready
klog_enable_console on k = record (ready k) { console_on = not (on == 0) }

unfoldable pub klog_emit_console : KlogEntry → Klog → Klog
klog_emit_console e k = record k { console = e ∷ k.console }

-- What a call gives: `fmt` and `tag` may be null pointers; `time` is what r_time reads.
pub record Message : Type 0 where
  pub level : ℕ
  pub tag : Option (List ℕ)
  pub fmt : Option (List ℕ)
  pub args : ℕ → ℕ
  pub strings : ℕ → List ℕ
  pub time : ℕ

-- `tag ? tag : "-"`
abbrev pub tag_text : Option (List ℕ) → List ℕ
tag_text none = 45 ∷ []
tag_text (some tag) = tag

abbrev pub fmt_text : Option (List ℕ) → List ℕ
fmt_text none = []
fmt_text (some fmt) = fmt

-- The entry that a message makes, in the slot that held `old`.
unfoldable pub fill_entry : Message → KlogEntry → KlogEntry
unfolding strncpy0 kvsnprintf_local
fill_entry m old = record {
  ts = m.time;
  level = m.level % 256;
  tag = strncpy0 old.tag (tag_text m.tag) klog_maxtag;
  msg = kvsnprintf_local old.msg klog_maxmsg (fmt_text m.fmt) m.args m.strings;
}

-- klogf behind the filter.
unfoldable pub record_entry : Message → Klog → Klog
unfolding fill_entry klog_emit_console
record_entry m k =
    let full = k.count == klog_nentry in
    let e = fill_entry m (k.ring k.head) in
    let t = record k {
      ring = update k.ring k.head e;
      head = (k.head + 1) % klog_nentry;
      count = if full then k.count else k.count + 1;
      overwritten = if full then (k.overwritten + 1) % 2 ^ 64 else k.overwritten;
      total_written = (k.total_written + 1) % 2 ^ 64;
    } in
    if k.console_on then klog_emit_console e t else t

unfoldable pub klogf : Message → Klog → Klog
unfolding ready record_entry
klogf m k =
    if slt m.level (ready k).level_threshold
    then record (ready k) { filtered = ((ready k).filtered + 1) % 2 ^ 64 }
    else record_entry m (ready k)

-- `for (int i = 0; i < to_print; i++)` of klog_dump, by the rounds left.
unfoldable pub dump_loop : ℕ → ℕ → ℕ → Klog → Klog
unfolding klog_emit_console
dump_loop zero i tail k = k
dump_loop (suc rounds) i tail k =
    dump_loop rounds (i + 1) tail (klog_emit_console (k.ring ((tail + i) % klog_nentry)) k)

-- The number of lines: `max_lines` is an `int`.
abbrev pub to_print : ℕ → ℕ → ℕ
to_print max_lines count =
    if (max_lines == 0) || leb (2 ^ 31) max_lines || ltb count max_lines then count else max_lines

abbrev pub tail_of : ℕ → Klog → ℕ
tail_of lines k = (k.head + klog_nentry - lines) % klog_nentry

unfoldable pub dump_lines : ℕ → Klog → Klog
unfolding dump_loop
dump_lines lines k =
    dump_loop lines 0 (if ltb lines k.count then tail_of lines k else tail_of k.count k) k

unfoldable pub klog_dump : ℕ → Klog → Klog
unfolding ready dump_lines
klog_dump max_lines k =
    if (ready k).count == 0
    then ready k
    else dump_lines (to_print max_lines (ready k).count) (ready k)

unfoldable pub klog_clear : Klog → Klog
unfolding ready
klog_clear k = record (ready k) { head = 0; count = 0 }

pub record KlogStats : Type 0 where
  pub total_written : ℕ
  pub overwritten : ℕ
  pub filtered : ℕ
  pub count : ℕ

unfoldable pub klog_get_stats : Klog → KlogStats
unfolding ready
klog_get_stats k =
    let r = ready k in
    record {
      total_written = r.total_written;
      overwritten = r.overwritten;
      filtered = r.filtered;
      count = r.count;
    }
