-- ===== src/Pmm/Pages.antt =====
-- The free list of riscv-os/kernel/pmm.c as a stack of pages.
use os.Common.{
  ℕ, zero, suc, ◌+◌, ◌-◌, ◌*◌, ◌/◌, ◌%◌, ◌^◌, ◌≤◌, ◌<◌, ◌≡◌, ◌⊎◌, inl, inr, refl, sym, ap, ◌∙◌,
  subst, arith, true, false, ◌==◌, leb, Bool-cases, update, update_self, update_ne, List, [], ◌∷◌,
  All, Out, Distinct, ok, panic, and_then,
}
use os.Pmm.{
  Kmem, pgsize, kernbase, phystop, bad_address, free_page, alloc_page, free_range, pg_round_up,
  pmm_init,
}

-- The list that starts at address `p` has these pages.
abbrev pub Chain : (ℕ → ℕ) → ℕ → List ℕ → Type 0
Chain next p [] = p ≡ 0
Chain next p (x ∷ xs) = (p ≡ x) × Chain next (next x) xs

-- An aligned address between the start of the memory and its end.
abbrev pub Good : ℕ → Type 0
Good x = (x % pgsize ≡ 0) × (kernbase ≤ x) × (x < phystop)

Good-passes : (x : ℕ) → Good x → bad_address x ≡ false
Good-passes x h = ground arith

passes-Good : (x : ℕ) → bad_address x ≡ false → Good x
passes-Good x h = (ground arith, ground arith, ground arith)

-- The free pages are these, the one that is next to go first: pages of the memory, and none twice.
pub record IsFree (k : Kmem) (pages : List ℕ) : Type 0 where
  pub chain : Chain k.next k.freelist pages
  pub once : Distinct pages
  pub good : All Good pages

Chain-update :
    (next : ℕ → ℕ) (a v p : ℕ) (xs : List ℕ)
    → Out a xs
    → Chain next p xs
    → Chain (update next a v) p xs
Chain-update next a v p [] o c = c
Chain-update next a v p (x ∷ xs) o c = (
  c.0,
  subst (λ q. Chain (update next a v) q xs) (sym (update_ne next a x v (λ e. o.0 (sym e))))
      (Chain-update next a v (next x) xs o.1 c.1),
)

-- What the free list becomes when a page is freed.
abbrev pub freed : ℕ → Kmem → Kmem
freed pa k = record { freelist = pa; next = update k.next pa k.freelist }

pub freed-IsFree :
    (pa : ℕ) (k : Kmem) (pages : List ℕ)
    → IsFree k pages
    → Good pa
    → Out pa pages
    → IsFree (freed pa k) (pa ∷ pages)
freed-IsFree pa k pages g fit o = record {
  chain = (
    refl,
    subst (λ q. Chain (update k.next pa k.freelist) q pages)
        (sym (update_self k.next pa k.freelist))
        (Chain-update k.next pa k.freelist k.freelist pages o g.chain),
  );
  once = (o, g.once);
  good = (fit, g.good);
}

free_page-Good : (pa : ℕ) (k : Kmem) → Good pa → free_page pa k ≡ ok tt (freed pa k)
unfolding free_page
free_page-Good pa k h = rw (Good-passes pa h) refl

-- free_page puts a page of the memory that is not free on top of the free pages, and alloc_page then
-- takes it from there and leaves the others. An address that is not aligned, or not between the
-- start of the memory and its end, makes free_page panic.
pub free_page-alloc_page :
    (pa : ℕ) (k : Kmem) (pages : List ℕ)
    → IsFree k pages
    → Out pa pages
    → (¬ (Good pa) × (free_page pa k ≡ panic "free_page: bad address"))
      ⊎ (Good pa
          × (t : Kmem) × (u : Kmem) × (free_page pa k ≡ ok tt t)
          × IsFree t (pa ∷ pages)
          × (alloc_page t ≡ ok pa u)
          × IsFree u pages)
unfolding free_page alloc_page
free_page-alloc_page pa k pages g o = elim (Bool-cases (bad_address pa)) [
  | inl bad ↦ inl (λ good. cc (bad, Good-passes pa good), rw bad refl)
  | inr good ↦
      let page = passes-Good pa good in
      let nonzero : (pa == 0) ≡ false = ground (arith, page.1) in
      inr (
        page,
        freed pa k,
        record { freelist = k.freelist; next = update k.next pa k.freelist },
        rw good refl,
        freed-IsFree pa k pages g page o,
        rw nonzero (
            ap (λ q. ok pa (record { freelist = q; next = update k.next pa k.freelist }))
              (update_self k.next pa k.freelist)),
        record {
          chain = Chain-update k.next pa k.freelist k.freelist pages o g.chain;
          once = g.once;
          good = g.good;
        },
      )
]

-- alloc_page takes the page on top of the free pages, whose address is not 0, and leaves the others;
-- it returns 0 and changes nothing when no page is free.
pub alloc_page_lem :
    (k : Kmem) (pages : List ℕ)
    → IsFree k pages
    → (pages ≡ [] × (alloc_page k ≡ ok 0 k))
      ⊎ ((p : ℕ) × (rest : List ℕ) × (t : Kmem) × (pages ≡ p ∷ rest)
          × (0 < p)
          × (alloc_page k ≡ ok p t)
          × IsFree t rest)
unfolding alloc_page
alloc_page_lem k [] g =
    let none : (k.freelist == 0) ≡ true = ground (arith, g.chain) in
    inl (refl, rw none (ap (λ p. ok p k) g.chain))
alloc_page_lem k (p ∷ rest) g =
    let positive : 0 < p = omega (arith, g.good.0.1) in
    let some : (k.freelist == 0) ≡ false = ground (arith, g.chain.0) in
    inr (
      p,
      rest,
      record k { freelist = k.next p },
      refl,
      positive,
      rw some (ap (λ q. ok q (record k { freelist = k.next q })) g.chain.0),
      record { chain = g.chain.1; once = g.once.1; good = g.good.1 },
    )

-- The pages from `start` on, by their number, the last one first.
abbrev pub pages_from : ℕ → ℕ → List ℕ
pages_from start zero = []
pages_from start (suc n) = (start + n * pgsize) ∷ pages_from start n

pub pages_from-Out : (start n m : ℕ) → n ≤ m → Out (start + m * pgsize) (pages_from start n)
pages_from-Out start zero m h = tt
pages_from-Out start (suc n) m h = (omega arith, pages_from-Out start n m (omega arith))

-- The loop of pmm_init, with `n` pages done.
free_range-IsFree :
    (rounds start n total : ℕ) (k : Kmem)
    → n ≤ total
    → total < n + rounds
    → start % pgsize ≡ 0
    → kernbase ≤ start
    → start + total * pgsize ≤ phystop
    → phystop < start + (total + 1) * pgsize
    → IsFree k (pages_from start n)
    → (t : Kmem) × (free_range rounds (start + n * pgsize) k ≡ ok tt t)
      × IsFree t (pages_from start total)
unfolding free_range
free_range-IsFree zero start n total k h fuel even low high last g = absurd (omega arith)
free_range-IsFree (suc rounds) start n total k h fuel even low high last g =
    let p = start + n * pgsize in
    elim (Bool-cases (leb ((p + pgsize) % 2 ^ 64) phystop)) [
      | inl more ↦
          let next : (p + pgsize) % 2 ^ 64 ≡ start + suc n * pgsize = omega arith in
          let below : start + suc n * pgsize ≤ phystop = ground arith in
          let within : n < total = omega arith in
          let good : Good p = (omega (arith, even), omega (arith, low), omega (arith, below)) in
          let (t, run, r) =
            free_range-IsFree rounds start (suc n) total (freed p k) within (omega arith) even low
              high last
              (freed-IsFree p k (pages_from start n) g good
                (pages_from-Out start n n (omega arith))) in
          (
            t,
            rw more (
                ap (λ r. and_then r (λ _. free_range rounds ((p + pgsize) % 2 ^ 64)))
                  (free_page-Good p k good)
                ∙ ap (λ q. free_range rounds q (freed p k)) next
                ∙ run),
            r,
          )
      | inr done ↦
          let above : phystop < start + suc n * pgsize = ground arith in
          let all : n ≡ total = omega arith in
          (k, rw done refl, subst (λ m. IsFree k (pages_from start m)) all g)
    ]

-- With the end of the kernel in the memory and an empty free list, pmm_init returns, and the free
-- pages are all whole pages from there up to PHYSTOP, the highest first: the first of them is the
-- lowest aligned address that is not below the end of the kernel.
pub pmm_init-IsFree :
    (kernel_end : ℕ) (k : Kmem)
    → kernbase ≤ kernel_end
    → kernel_end ≤ phystop
    → k.freelist ≡ 0
    → (t : Kmem) × (start : ℕ) × (n : ℕ) × (pmm_init kernel_end k ≡ ok tt t)
      × (start % pgsize ≡ 0)
      × (kernel_end ≤ start)
      × (start < kernel_end + pgsize)
      × (start + n * pgsize ≡ phystop)
      × IsFree t (pages_from start n)
unfolding pmm_init pg_round_up
pmm_init-IsFree kernel_end k low high empty =
    let start = pg_round_up kernel_end in
    let even : start % pgsize ≡ 0 = omega arith in
    let above : kernbase ≤ start = omega arith in
    let below : start ≤ phystop = omega arith in
    let total = (phystop - start) / pgsize in
    let (t, run, r) =
      free_range-IsFree (phystop / pgsize) start 0 total k (omega arith) (omega arith) even above
        (omega arith) (omega arith) (record { chain = empty; once = tt; good = tt }) in
    let first : start ≡ start + 0 * pgsize = omega arith in
    (
      t,
      start,
      total,
      ap (λ q. free_range (phystop / pgsize) q k) first ∙ run,
      even,
      omega arith,
      omega arith,
      omega (arith, even),
      r,
    )
