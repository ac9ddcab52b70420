-- ===== src/Vm/Trees.antt =====
-- What the page tables of riscv-os/kernel/vm.c stand for: the entry of each virtual address.
use Prim.Native.Nat.{bit_and}
use os.Common.{
  ℕ, Bool, not, ◌==◌, zero, suc, ◌+◌, ◌*◌, ◌/◌, ◌%◌, ◌^◌, ◌<◌, ◌≡◌, ◌≢◌, inl, inr, sym, ap, ◌∙◌,
  arith, true, if◌then◌else◌, Bool-cases, update, update_self, update_ne, List, Out,
}
use os.Pmm.{pgsize}
use os.Vm.{px, slot, is_valid, pte_pa}

-- What the architecture (Sv39) does with an address: the place of its entry in a table of a level,
-- from 9 bits of it, the flag V of an entry, and the address of the page in it.
abbrev place_of : ℕ → ℕ → ℕ → ℕ
place_of level va p = p + 8 * (va / 2 ^ (12 + 9 * level) % 512)

abbrev has_v : ℕ → Bool
has_v pte = not (bit_and pte 1 == 0)

abbrev page_of : ℕ → ℕ
page_of pte = pte / 2 ^ 10 * 2 ^ 12 % 2 ^ 64

-- The last entry on the way of `va` through the tables below the one at `p`, or 0 if the way ends
-- before.
abbrev pub entry : (ℕ → ℕ) → ℕ → ℕ → ℕ → ℕ
entry word zero va p = word (place_of zero va p)
entry word (suc level) va p =
    let rest = entry word level va (page_of (word (place_of (suc level) va p))) in
    if has_v (word (place_of (suc level) va p)) then rest else 0

-- An entry of a table.
abbrev pub at : ℕ → ℕ → ℕ
at p i = p + 8 * i

-- The pages that are tables: `rank p` is 0 for another page, and one more than its level for a
-- table. Tables are pages of the memory that are not free; a valid entry of a table above the
-- lowest level is for a table one level below, and no two are for the same one.
pub record IsTree (word : ℕ → ℕ) (pages : List ℕ) (rank : ℕ → ℕ) : Type 0 where
  pub page : (p : ℕ) → 0 < rank p → (p % pgsize ≡ 0) × (0 < p) × (p < 2 ^ 56)
  pub used : (p : ℕ) → 0 < rank p → Out p pages
  pub child :
      (p i l : ℕ)
      → i < 512
      → rank p ≡ suc (suc l)
      → is_valid (word (at p i)) ≡ true
      → rank (pte_pa (word (at p i))) ≡ suc l
  pub sole :
      (p q i j : ℕ)
      → i < 512
      → j < 512
      → 1 < rank p
      → 1 < rank q
      → is_valid (word (at p i)) ≡ true
      → is_valid (word (at q j)) ≡ true
      → pte_pa (word (at p i)) ≡ pte_pa (word (at q j))
      → (p ≡ q) × (i ≡ j)

-- Entries of two pages are apart.
pub apart_pages :
    (p q i j : ℕ)
    → p % pgsize ≡ 0
    → q % pgsize ≡ 0
    → i < 512
    → j < 512
    → at p i ≡ at q j
    → (p ≡ q) × (i ≡ j)
apart_pages p q i j hp hq hi hj e = (omega arith, omega arith)

-- Two virtual addresses have the same page where all their indexes agree.
pub same_page :
    (va vb : ℕ)
    → va < 2 ^ 39
    → vb < 2 ^ 39
    → px 2 va ≡ px 2 vb
    → px 1 va ≡ px 1 vb
    → px 0 va ≡ px 0 vb
    → va / pgsize ≡ vb / pgsize
same_page va vb ha hb e2 e1 e0 = omega arith

-- The way of `va` from the table at `p` leads to the table `q` of the lowest level.
abbrev pub Reach : (ℕ → ℕ) → ℕ → ℕ → ℕ → ℕ → Type 0
Reach word zero va p q = p ≡ q
Reach word (suc level) va p q =
    (is_valid (word (slot (suc level) va p)) ≡ true)
    × Reach word level va (pte_pa (word (slot (suc level) va p))) q

-- The indexes from level 1 to `level` agree.
abbrev pub Agree : ℕ → ℕ → ℕ → Type 0
Agree zero va vb = Unit
Agree (suc level) va vb = (px (suc level) va ≡ px (suc level) vb) × Agree level va vb

pub px_bound : (level va : ℕ) → px level va < 512
px_bound level va = omega arith

module _ (word : ℕ → ℕ) (pages : List ℕ) (rank : ℕ → ℕ) (g : IsTree word pages rank) where
  pub child_rank :
      (l va p : ℕ)
      → rank p ≡ suc (suc l)
      → is_valid (word (slot (suc l) va p)) ≡ true
      → rank (pte_pa (word (slot (suc l) va p))) ≡ suc l
  child_rank l va p r v = g.child p (px (suc l) va) l (px_bound (suc l) va) r v

  pub Reach-rank : (l va p q : ℕ) → rank p ≡ suc l → Reach word l va p q → rank q ≡ 1
  Reach-rank zero va p q r h = ap rank (sym h) ∙ r
  Reach-rank (suc l) va p q r (v, h) =
      Reach-rank l va (pte_pa (word (slot (suc l) va p))) q (child_rank l va p r v) h

  -- At its end there is the entry.
  pub entry-Reach : (l va p q : ℕ) → Reach word l va p q → entry word l va p ≡ word (slot zero va q)
  entry-Reach zero va p q h = ap (λ n. word (slot zero va n)) h
  entry-Reach (suc l) va p q (v, h) =
      rw v (entry-Reach l va (pte_pa (word (slot (suc l) va p))) q h)

  -- One way leads to a table.
  pub Reach-sole :
      (l va vb p p' q : ℕ)
      → rank p ≡ suc l
      → rank p' ≡ suc l
      → Reach word l va p q
      → Reach word l vb p' q
      → (p ≡ p') × Agree l va vb
  Reach-sole zero va vb p p' q r r' h h' = (h ∙ sym h', tt)
  Reach-sole (suc l) va vb p p' q r r' (v, h) (v', h') =
      let (same, agree) =
        Reach-sole l va vb (pte_pa (word (slot (suc l) va p))) (pte_pa (word (slot (suc l) vb p')))
          q (child_rank l va p r v) (child_rank l vb p' r' v') h h' in
      let (p_eq, i_eq) =
        g.sole p p' (px (suc l) va) (px (suc l) vb) (px_bound (suc l) va) (px_bound (suc l) vb)
          (omega (arith, r)) (omega (arith, r')) v v' same in
      (p_eq, (i_eq, agree))

  -- An entry of the lowest level is written.
  module _ (q i v : ℕ) (low : rank q ≡ 1) (i_in : i < 512) where
    pub above_same :
        (p j : ℕ) → 1 < rank p → j < 512 → update word (at q i) v (at p j) ≡ word (at p j)
    above_same p j high j_in = update_ne word (at q i) (at p j) v λ e.
        let (same, _) =
          apart_pages p q j i (g.page p (omega (arith, high))).0 (g.page q (omega (arith, low))).0
            j_in i_in e in
        omega (arith, high, low, ap rank same)

    pub update-IsTree : IsTree (update word (at q i) v) pages rank
    update-IsTree = record {
      page = g.page;
      used = g.used;
      child = λ p j l j_in r valid.
          let same = above_same p j (omega (arith, r)) j_in in
          ap (λ w. rank (pte_pa w)) same ∙ g.child p j l j_in r (ap is_valid (sym same) ∙ valid);
      sole = λ p p' j k j_in k_in r r' valid valid' e.
          let same = above_same p j r j_in in
          let same' = above_same p' k r' k_in in
          g.sole p p' j k j_in k_in r r' (ap is_valid (sym same) ∙ valid)
            (ap is_valid (sym same') ∙ valid') (ap pte_pa (sym same) ∙ e ∙ ap pte_pa same');
    }

    -- It is the entry of the addresses whose way leads there, and of no others.
    pub entry-update_self :
        (l va p : ℕ)
        → rank p ≡ suc l
        → Reach word l va p q
        → px zero va ≡ i
        → entry (update word (at q i) v) l va p ≡ v
    entry-update_self zero va p r h e =
        ap (update word (at q i) v) (ap (λ n. at n (px zero va)) h ∙ ap (at q) e)
        ∙ update_self word (at q i) v
    entry-update_self (suc l) va p r (valid, h) e =
        let same = above_same p (px (suc l) va) (omega (arith, r)) (px_bound (suc l) va) in
        rw (same, valid)
          (entry-update_self l va (pte_pa (word (slot (suc l) va p))) (child_rank l va p r valid) h
            e)

    pub entry-update_other :
        (l va p : ℕ)
        → rank p ≡ suc l
        → (Reach word l va p q → px zero va ≢ i)
        → entry (update word (at q i) v) l va p ≡ entry word l va p
    entry-update_other zero va p r other = update_ne word (at q i) (slot zero va p) v λ e.
        let (same, same_i) =
          apart_pages p q (px zero va) i (g.page p (omega (arith, r))).0
            (g.page q (omega (arith, low))).0 (px_bound zero va) i_in e in
        other same same_i
    entry-update_other (suc l) va p r other =
        let same = above_same p (px (suc l) va) (omega (arith, r)) (px_bound (suc l) va) in
        elim (Bool-cases (is_valid (word (slot (suc l) va p)))) [
          | inl valid ↦
              rw (same, valid)
                (entry-update_other l va (pte_pa (word (slot (suc l) va p)))
                  (child_rank l va p r valid) (λ h. other (valid, h)))
          | inr invalid ↦ rw (same, invalid)
        ]
