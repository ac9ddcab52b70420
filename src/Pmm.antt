-- ===== src/Pmm.antt =====
-- The allocator of physical pages (riscv-os/kernel/pmm.c, riscv-os/include/memlayout.h). The `next`
-- field of a free page is memory, by the page's address; the null pointer is 0.
pub mod Pages
use os.Common.{
  ℕ, zero, suc, ◌+◌, ◌-◌, ◌*◌, ◌/◌, ◌%◌, ◌^◌, Bool, not, ◌||◌, if◌then◌else◌, ltb, leb, ◌==◌,
  update, M, pure, get, modify, fail, spin, ◌>>=◌, ◌>>◌,
}

abbrev pub pgsize : ℕ
pgsize = 4096

abbrev pub kernbase : ℕ
kernbase = 2147483648

abbrev pub phystop : ℕ
phystop = 2281701376

-- `kmem.freelist`, and `r->next` of the page at each address.
pub record Kmem : Type 0 where
  pub freelist : ℕ
  pub next : ℕ → ℕ

abbrev pub bad_address : ℕ → Bool
bad_address addr = not (addr % pgsize == 0) || ltb addr kernbase || leb phystop addr

unfoldable pub free_page : ℕ → M Kmem (Unit {0})
free_page pa =
    if bad_address pa
    then fail "free_page: bad address"
    else modify (λ k. record { freelist = pa; next = update k.next pa k.freelist })

-- 0 is the null pointer: there is no free page.
unfoldable pub alloc_page : M Kmem ℕ
alloc_page = do
  k ← get
  (if k.freelist == 0 then pure tt else modify (λ l. record l { freelist = l.next l.freelist }))
  pure k.freelist

-- `PGROUNDUP`
unfoldable pub pg_round_up : ℕ → ℕ
pg_round_up sz = ((sz + pgsize - 1) % 2 ^ 64) / pgsize * pgsize

-- `for (uint64 p = pa_start; p + PGSIZE <= pa_end; p += PGSIZE)`, by the rounds left.
unfoldable pub free_range : ℕ → ℕ → M Kmem (Unit {0})
free_range zero p = spin
free_range (suc rounds) p =
    if leb ((p + pgsize) % 2 ^ 64) phystop
    then free_page p >> free_range rounds ((p + pgsize) % 2 ^ 64)
    else pure tt

-- `kernel_end` comes from the linker's script.
unfoldable pub pmm_init : ℕ → M Kmem (Unit {0})
unfolding free_range pg_round_up
pmm_init kernel_end = free_range (phystop / pgsize) (pg_round_up kernel_end)
