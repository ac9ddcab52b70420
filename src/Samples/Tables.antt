-- ===== src/Samples/Tables.antt =====
-- The theorems of the page tables at a sample state.
use os.Common.{
  ℕ, zero, suc, ◌*◌, ◌≤◌, ◌+◌, ◌≡◌, ◌⊎◌, refl, true, false, ◌==◌, arith, if◌then◌else◌, List, [],
  ◌∷◌, panic,
}
use os.Pmm.{Kmem, kernbase, pgsize}
use os.Pmm.Pages.{IsFree, pages_from, pages_from-Out, freed, freed-IsFree}
use os.Vm.{Vm, is_valid, mappage, kvmmap, kvminit}
use os.Vm.Mapping.{IsPaged, lookup, Mapped, mappage-Mapped}
use os.Vm.Ranges.{kvmmap-Ranged}
use os.Vm.Rounds.{Ranged}
use os.Vm.Blank.{blank-IsPaged, blank-lookup}
use os.Vm.Kernel.{KernelMapped, kvminit-KernelMapped}

-- Three free pages behind the one of an empty table.
abbrev root : ℕ
root = 2147487744

abbrev three : List ℕ
three = 2147491840 ∷ 2147495936 ∷ 2147500032 ∷ []

abbrev empty_tables : Vm
empty_tables = record {
  kmem = record { freelist = 2147491840; next = λ a. if a == 2147500032 then 0 else a + 4096 };
  word = λ _. 0;
  kernel_pagetable = 0;
  satp = 0;
}

three-IsFree : IsFree empty_tables.kmem three
three-IsFree = record {
  chain = (refl, (refl, (refl, refl)));
  once = ((omega arith, (omega arith, tt)), ((omega arith, tt), (tt, tt)));
  good = (
    (refl, omega arith, omega arith),
    ((refl, omega arith, omega arith), ((refl, omega arith, omega arith), tt)),
  );
}

abbrev empty-IsPaged : IsPaged empty_tables root
empty-IsPaged =
    blank-IsPaged empty_tables root three three-IsFree (refl, omega arith, omega arith)
      (omega arith, (omega arith, (omega arith, tt))) (λ i h. refl)

empty_lookup : (vb : ℕ) → lookup empty_tables root vb ≡ 0
empty_lookup =
    blank-lookup empty_tables root three three-IsFree (refl, omega arith, omega arith)
      (omega arith, (omega arith, (omega arith, tt))) (λ i h. refl)

mappage-Mapped_example :
    ((is_valid (lookup empty_tables root 8192) ≡ true)
      × (mappage root 8192 4096 6 empty_tables ≡ panic "mappage: remap"))
    ⊎ ((is_valid (lookup empty_tables root 8192) ≡ false)
        × Mapped empty_tables root 8192 4096 6 3 (mappage root 8192 4096 6 empty_tables))
mappage-Mapped_example =
    mappage-Mapped empty_tables root 8192 4096 6 empty-IsPaged (omega arith) refl refl

kvmmap-Ranged_example :
    Ranged empty_tables root 8192 4096 8192 6 12288 3 (kvmmap root 8192 4096 8192 6 empty_tables)
kvmmap-Ranged_example =
    kvmmap-Ranged empty_tables root 8192 4096 8192 6 empty-IsPaged refl refl refl (omega arith)
      (omega arith) (omega arith) (λ vb low high. cc (empty_lookup vb))

-- The first `n` pages of the memory, freed one after the other.
abbrev free_pages : ℕ → Kmem
free_pages zero = record { freelist = 0; next = λ _. 0 }
free_pages (suc n) = freed (kernbase + n * pgsize) (free_pages n)

free_pages-IsFree : (n : ℕ) → n ≤ 1000 → IsFree (free_pages n) (pages_from kernbase n)
free_pages-IsFree zero h = record { chain = refl; once = tt; good = tt }
free_pages-IsFree (suc n) h =
    freed-IsFree (kernbase + n * pgsize) (free_pages n) (pages_from kernbase n)
      (free_pages-IsFree n (omega arith)) (omega arith, omega arith, omega arith)
      (pages_from-Out kernbase n n (omega arith))

-- A hundred free pages, enough for the tables of the kernel.
abbrev hundred : Vm
hundred = record { kmem = free_pages 100; word = λ _. 0; kernel_pagetable = 0; satp = 0 }

kvminit-KernelMapped_example : KernelMapped 100 (kvminit hundred)
kvminit-KernelMapped_example =
    kvminit-KernelMapped hundred (pages_from kernbase 100) (free_pages-IsFree 100 (omega arith))
