-- ===== src/Samples/Kernel.antt =====
-- The theorems of the message log and of the page allocator at sample states, and runs of them.
use os.Common.{
  ℕ, ◌*◌, ◌≤◌, ◌<◌, ◌+◌, ◌%◌, ◌^◌, ◌≡◌, ◌⊎◌, refl, inr, true, false, none, some, [], ◌∷◌, ◌++◌,
  arith, ok, panic, map,
}
use os.Klog.{
  Klog, Message, blank, klog_init, klogf, klog_dump, slt, klog_maxmsg, klog_maxtag, fill_entry,
}
use os.Klog.Format.{digits_of, kvsnprintf_local}
use os.Klog.Ring.{IsKlog, IsLogged, klogf_lem}
use os.Klog.Dump.{latest, IsPrinted, klog_dump-latest}
use os.Klog.Digits.{value, digits_of-number}
use os.Klog.Bounds.{IsString, fill_entry-IsString}
use os.Pmm.{Kmem, pgsize, phystop, kernbase, free_page, alloc_page, pmm_init}
use os.Pmm.Pages.{IsFree, Good, pages_from, pmm_init-IsFree, free_page-alloc_page}

abbrev unset : Klog
unset = record {
  inited = false;
  level_threshold = 3;
  console_on = false;
  ring = λ _. blank;
  head = 7;
  count = 9;
  total_written = 1;
  overwritten = 1;
  filtered = 1;
  console = [];
}

-- `%d`, with the argument 42.
abbrev hello : Message
hello = record {
  level = 1;
  tag = none;
  fmt = some (37 ∷ 100 ∷ []);
  args = λ _. 42;
  strings = λ _. [];
  time = 5;
}

abbrev started : Klog
unfolding klog_init
started = record (klog_init unset) { head = 255; count = 256; level_threshold = 1 }

started-IsKlog : IsKlog started
unfolding klog_init
started-IsKlog = record { inited = refl; head = omega arith; count = omega arith }

-- The text of the entry is `42` and a 0.
hello_text : map (fill_entry hello blank).msg (0 ∷ 1 ∷ 2 ∷ []) ≡ 52 ∷ 50 ∷ 0 ∷ []
unfolding fill_entry kvsnprintf_local
hello_text = refl

klogf_lem_example :
    (slt 1 1 ≡ true
      × (klogf hello started ≡ record started { filtered = (started.filtered + 1) % 2 ^ 64 }))
    ⊎ (slt 1 1 ≡ false × IsLogged hello started (klogf hello started))
unfolding klog_init
klogf_lem_example = klogf_lem hello started started-IsKlog

klog_dump-latest_example :
    (n : ℕ) × IsPrinted 3 started.count n
    × ((klog_dump 3 started).console ≡ latest n started ++ started.console)
klog_dump-latest_example = klog_dump-latest 3 started started-IsKlog

fill_entry-IsString_example :
    IsString blank.tag klog_maxtag (fill_entry hello blank).tag
    × IsString blank.msg klog_maxmsg (fill_entry hello blank).msg
fill_entry-IsString_example = fill_entry-IsString hello blank

digits_of-number_example : value 16 0 (digits_of 32 48879 16 []) ≡ 48879
digits_of-number_example = digits_of-number 48879 16 (inr refl) (omega arith)

abbrev bare : Kmem
bare = record { freelist = 0; next = λ _. 0 }

pmm_init-IsFree_example :
    (t : Kmem) × (start : ℕ) × (n : ℕ) × (pmm_init 2281691376 bare ≡ ok tt t)
    × (start % pgsize ≡ 0)
    × (2281691376 ≤ start)
    × (start < 2281691376 + pgsize)
    × (start + n * pgsize ≡ phystop)
    × IsFree t (pages_from start n)
pmm_init-IsFree_example = pmm_init-IsFree 2281691376 bare (omega arith) (omega arith) refl

free_page-alloc_page_example :
    (¬ (Good kernbase) × (free_page kernbase bare ≡ panic "free_page: bad address"))
    ⊎ (Good kernbase
        × (t : Kmem) × (u : Kmem) × (free_page kernbase bare ≡ ok tt t)
        × IsFree t (kernbase ∷ [])
        × (alloc_page t ≡ ok kernbase u)
        × IsFree u [])
free_page-alloc_page_example =
    free_page-alloc_page kernbase bare [] (record { chain = refl; once = tt; good = tt }) tt
