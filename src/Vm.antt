-- ===== src/Vm.antt =====
-- The page tables of riscv-os/kernel/vm.c: Sv39, with 512 entries of 64 bits in a page. The words of
-- memory are kept by address, apart from the links of the free pages, which Pmm has: a page is
-- cleared before it becomes a table. Lines on the console are left out.
pub mod Bits
pub mod Trees
pub mod Missing
pub mod Growth
pub mod Walks
pub mod Mapping
pub mod Rounds
pub mod Ranges
pub mod Blank
pub mod Kernel
use Prim.Native.Nat.{bit_and, bit_or}
use os.Common.{
  ℕ, zero, suc, ◌+◌, ◌-◌, ◌*◌, ◌/◌, ◌%◌, ◌^◌, Bool, true, false, not, ◌&&◌, ◌||◌, if◌then◌else◌,
  ltb, leb, ◌==◌, update, Run, ok, panic, hang, M, pure, get, modify, fail, spin, ◌>>=◌, ◌>>◌,
}
use os.Pmm.{Kmem, alloc_page, pgsize, kernbase, phystop}

abbrev pub maxva : ℕ
maxva = 2 ^ 38

abbrev pub uart0 : ℕ
uart0 = 268435456

-- `PX(level, va)`
abbrev pub px : ℕ → ℕ → ℕ
px level va = va / 2 ^ (12 + 9 * level) % 512

abbrev pub pte_v : ℕ
pte_v = 1

abbrev pub pte_r : ℕ
pte_r = 2

abbrev pub pte_w : ℕ
pte_w = 4

abbrev pub pte_x : ℕ
pte_x = 8

-- `PTE_PA(pte)`
abbrev pub pte_pa : ℕ → ℕ
pte_pa pte = pte / 2 ^ 10 * 2 ^ 12 % 2 ^ 64

-- `PA2PTE(pa)`
abbrev pub pa2pte : ℕ → ℕ
pa2pte pa = pa / 2 ^ 12 * 2 ^ 10

-- `*pte & PTE_V`
abbrev pub is_valid : ℕ → Bool
is_valid pte = not (bit_and pte pte_v == 0)

-- The free pages, the words of memory, `kernel_pagetable` and the register `satp`.
pub record Vm : Type 0 where
  pub kmem : Kmem
  pub word : ℕ → ℕ
  pub kernel_pagetable : ℕ
  pub satp : ℕ

abbrev pub put_kmem : {A : Type 0} → Vm → Run Kmem A → Run Vm A
put_kmem s (ok a k) = ok a (record s { kmem = k })
put_kmem s (panic m) = panic m
put_kmem s hang = hang

abbrev pub take_page : M Vm ℕ
take_page s = put_kmem s (alloc_page s.kmem)

abbrev pub set_word : ℕ → ℕ → Vm → Vm
set_word a v s = record s { word = update s.word a v }

-- `memset_local(page, 0, PGSIZE)`
abbrev pub clear_page : ℕ → Vm → Vm
clear_page p s = record s { word = λ a. if leb p a && ltb a (p + pgsize) then 0 else s.word a }

-- `&pagetable[PX(level, va)]`
abbrev pub slot : ℕ → ℕ → ℕ → ℕ
slot level va pagetable = pagetable + 8 * px level va

-- `for (int level = 2; level > 0; level--)` of walk, and its end. The result is an address, or 0.
unfoldable pub walk_loop : ℕ → ℕ → Bool → ℕ → M Vm ℕ
walk_loop zero va alloc pagetable = pure (slot zero va pagetable)
walk_loop (suc level) va alloc pagetable = do
  s ← get
  if is_valid (s.word (slot (suc level) va pagetable))
      then walk_loop level va alloc (pte_pa (s.word (slot (suc level) va pagetable)))
      else if not alloc
      then pure 0
      else do
        newpage ← take_page
        if newpage == 0 then pure 0 else do
          modify (clear_page newpage)
          modify (set_word (slot (suc level) va pagetable) (bit_or (pa2pte newpage) pte_v))
          walk_loop level va alloc newpage

unfoldable pub walk : ℕ → ℕ → Bool → M Vm ℕ
unfolding walk_loop
walk pagetable va alloc =
    if leb maxva va then fail "walk: va >= MAXVA" else walk_loop 2 va alloc pagetable

-- `(int)-1`
abbrev pub minus_one : ℕ
minus_one = 2 ^ 32 - 1

-- mappage with the entry that walk has found.
unfoldable pub map_entry : ℕ → ℕ → ℕ → M Vm ℕ
map_entry pte pa perm = do
  s ← get
  if pte == 0
      then pure minus_one
      else if is_valid (s.word pte)
      then fail "mappage: remap"
      else do modify (set_word pte (bit_or (bit_or (pa2pte pa) perm) pte_v)); pure 0

unfoldable pub mappage : ℕ → ℕ → ℕ → ℕ → M Vm ℕ
unfolding walk map_entry
mappage pagetable va pa perm =
    if not (va % pgsize == 0) || not (pa % pgsize == 0)
    then fail "mappage: not aligned"
    else do pte ← walk pagetable va true; map_entry pte pa perm

-- `for (;;)` of kvmmap, by the rounds left.
unfoldable pub kvmmap_loop : ℕ → ℕ → ℕ → ℕ → ℕ → ℕ → M Vm (Unit {0})
unfolding mappage
kvmmap_loop zero pagetable a last pa perm = spin
kvmmap_loop (suc rounds) pagetable a last pa perm = do
  r ← mappage pagetable a pa perm
  if not (r == 0)
      then fail "kvmmap: mappage failed"
      else if a == last
      then pure tt
      else kvmmap_loop rounds pagetable ((a + pgsize) % 2 ^ 64) last ((pa + pgsize) % 2 ^ 64) perm

-- `PGROUNDDOWN`
abbrev pub pg_round_down : ℕ → ℕ
pg_round_down a = a / pgsize * pgsize

-- A round for each page from the first address to the last.
unfoldable pub kvmmap : ℕ → ℕ → ℕ → ℕ → ℕ → M Vm (Unit {0})
unfolding kvmmap_loop
kvmmap pagetable va pa sz perm =
    let a = pg_round_down va in
    let last = pg_round_down ((va + sz + 2 ^ 64 - 1) % 2 ^ 64) in
    kvmmap_loop (suc ((last - a) / pgsize)) pagetable a last pa perm

unfoldable pub create_pagetable : M Vm ℕ
create_pagetable = do pt ← take_page; if pt == 0 then pure 0 else do modify (clear_page pt); pure pt

unfoldable pub map_page : ℕ → ℕ → ℕ → ℕ → M Vm ℕ
unfolding mappage
map_page pt va pa perm = mappage pt va pa perm

unfoldable pub kvminit : M Vm (Unit {0})
kvminit = do
  pt ← create_pagetable
  modify (λ s. record s { kernel_pagetable = pt })
  if pt == 0 then fail "kvminit: no memory for kernel_pagetable" else do
    kvmmap pt kernbase kernbase (phystop - kernbase) (pte_r + pte_w + pte_x)
    kvmmap pt uart0 uart0 pgsize (pte_r + pte_w)

-- `MAKE_SATP`
abbrev pub make_satp : ℕ → ℕ
make_satp pagetable = bit_or (2 ^ 63) (pagetable / 2 ^ 12 % 2 ^ 44)

unfoldable pub kvminithart : M Vm (Unit {0})
kvminithart = modify (λ s. record s { satp = make_satp s.kernel_pagetable })
