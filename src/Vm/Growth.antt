-- ===== src/Vm/Growth.antt =====
-- A new table in walk (riscv-os/kernel/vm.c): a free page is cleared and entered in a table.
use Prim.Native.Nat.{bit_or}
use os.Common.{
  ℕ, zero, suc, ◌+◌, ◌-◌, ◌%◌, ◌^◌, ◌<◌, ◌≡◌, ◌≢◌, inl, inr, refl, sym, ap, ◌∙◌, subst, arith, true,
  false, if◌then◌else◌, ◌==◌, ==→eq, ==→ne, ltb, leb, ◌&&◌, Bool-cases, update, update_self,
  update_ne, List, ◌∷◌, Out,
}
use os.Pmm.{pgsize}
use os.Pmm.Pages.{Good}
use os.Vm.{px, is_valid, pte_pa, pa2pte, pte_v}
use os.Vm.Bits.{is_valid-flag, is_valid_zero, pte_pa-pa2pte}
use os.Vm.Trees.{entry, at, IsTree, apart_pages, px_bound}

-- The words when page `n` has been cleared, and then entered at `i` in the table `p`.
abbrev pub cleared : (ℕ → ℕ) → ℕ → ℕ → ℕ
cleared word n a = if leb n a && ltb a (n + pgsize) then 0 else word a

abbrev pub grown : (ℕ → ℕ) → ℕ → ℕ → ℕ → ℕ → ℕ
grown word n p i = update (cleared word n) (at p i) (bit_or (pa2pte n) pte_v)

module _ (word : ℕ → ℕ) (n : ℕ) (rest : List ℕ) (rank : ℕ → ℕ) (g : IsTree word (n ∷ rest) rank)
    (good : Good n) (once : Out n rest) (p i l : ℕ) (i_in : i < 512) (high : rank p ≡ suc (suc l))
    (empty : is_valid (word (at p i)) ≡ false) where
  no_rank : rank n ≡ 0
  no_rank = elim (Bool-cases (rank n == 0)) [
    | inl none ↦ ground arith
    | inr some ↦ absurd ((g.used n (ground arith)).0 refl)
  ]

  page_n : (n % pgsize ≡ 0) × (0 < n) × (n < 2 ^ 56)
  page_n = (ground arith, ground arith, ground arith)

  pub ne_n : (q : ℕ) → 0 < rank q → q ≢ n
  ne_n q h e = omega (arith, h, ap rank e, no_rank)

  pub old_rank : (q : ℕ) → q ≢ n → update rank n (suc l) q ≡ rank q
  old_rank q ne = update_ne rank n q (suc l) ne

  p_ne : p ≢ n
  p_ne = ne_n p (omega (arith, high))

  -- A word of the new table.
  pub new_word : (j : ℕ) → j < 512 → grown word n p i (at n j) ≡ 0
  new_word j j_in =
      update_ne (cleared word n) (at p i) (at n j) (bit_or (pa2pte n) pte_v) (λ e.
        p_ne (sym (apart_pages n p j i page_n.0 (g.page p (omega (arith, high))).0 j_in i_in e).0))
      ∙ (ground arith)

  -- A word of another table, but for the new entry.
  pub old_word :
      (q j : ℕ)
      → 0 < rank q
      → j < 512
      → ((q ≡ p) → j ≢ i)
      → grown word n p i (at q j) ≡ word (at q j)
  old_word q j h j_in other =
      let aligned = (g.page q h).0 in
      let ne = ne_n q h in
      let aligned_n = page_n.0 in
      let outside : (leb n (at q j) && ltb (at q j) (n + pgsize)) ≡ false = ground arith in
      update_ne (cleared word n) (at p i) (at q j) (bit_or (pa2pte n) pte_v) (λ e.
        let (same, same_i) =
          apart_pages q p j i aligned (g.page p (omega (arith, high))).0 j_in i_in e in
        other same same_i)
      ∙ (rw outside)

  pub new_entry : grown word n p i (at p i) ≡ bit_or (pa2pte n) pte_v
  new_entry = update_self (cleared word n) (at p i) (bit_or (pa2pte n) pte_v)

  pub new_pa : pte_pa (grown word n p i (at p i)) ≡ n
  new_pa = ap pte_pa new_entry ∙ pte_pa-pa2pte n pte_v page_n.0 page_n.2 (omega arith)

  -- An entry of a table above the lowest level, in the new tables.
  pub data Entry (q j : ℕ) : Type 0 where
    fresh : q ≡ p → j ≡ i → Entry q j
    old :
        0 < rank q → q ≢ n → (q ≡ p → j ≢ i) → grown word n p i (at q j) ≡ word (at q j) → Entry q j
    blank : q ≡ n → grown word n p i (at q j) ≡ 0 → Entry q j

  entries : (q j : ℕ) → 0 < update rank n (suc l) q → j < 512 → Entry q j
  entries q j h j_in = elim (Bool-cases (q == n)) [
    | inl is_n ↦
        let e = ==→eq q n is_n in blank e (ap (λ m. grown word n p i (at m j)) e ∙ new_word j j_in)
    | inr not_n ↦
        let ne = ==→ne q n not_n in
        let h' : 0 < rank q = subst (λ r. 0 < r) (old_rank q ne) h in
        elim (Bool-cases (q == p && j == i)) [
          | inl both ↦ fresh (ground arith) (ground arith)
          | inr other ↦
              let apart : q ≡ p → j ≢ i = λ e e'. ground arith in
              old h' ne apart (old_word q j h' j_in apart)
        ]
  ]

  high_old : (q : ℕ) → q ≢ n → 1 < update rank n (suc l) q → 1 < rank q
  high_old q ne h = subst (λ r. 1 < r) (old_rank q ne) h

  -- The page that an old entry is for has a rank, so it is not the new one.
  old_child :
      (q j : ℕ)
      → 1 < rank q
      → j < 512
      → is_valid (word (at q j)) ≡ true
      → 0 < rank (pte_pa (word (at q j)))
  old_child q j h j_in valid =
      let r : rank q ≡ suc (suc (rank q - 2)) = omega arith in
      omega (arith, g.child q j (rank q - 2) j_in r valid)

  invalid_blank : (v : ℕ) → v ≡ 0 → is_valid v ≡ true → ⊥
  invalid_blank v e valid = cc (is_valid_zero, ap is_valid e, valid)

  sole_new :
      (q q' j k : ℕ)
      → j < 512
      → k < 512
      → 1 < update rank n (suc l) q
      → 1 < update rank n (suc l) q'
      → Entry q j
      → Entry q' k
      → is_valid (grown word n p i (at q j)) ≡ true
      → is_valid (grown word n p i (at q' k)) ≡ true
      → pte_pa (grown word n p i (at q j)) ≡ pte_pa (grown word n p i (at q' k))
      → (q ≡ q') × (j ≡ k)
  sole_new q q' j k j_in k_in h h' (blank _ z) _ v v' e = absurd (invalid_blank _ z v)
  sole_new q q' j k j_in k_in h h' _ (blank _ z) v v' e = absurd (invalid_blank _ z v')
  sole_new q q' j k j_in k_in h h' (fresh a b) (fresh a' b') v v' e = (a ∙ sym a', b ∙ sym b')
  sole_new q q' j k j_in k_in h h' (fresh a b) (old _ ne _ same) v v' e = absurd (
      let used = old_child q' k (high_old q' ne h') k_in (ap is_valid (sym same) ∙ v') in
      let child : pte_pa (word (at q' k)) ≡ n =
        ap pte_pa (sym same)
        ∙ sym e
        ∙ ap pte_pa (ap (grown word n p i) (ap (λ m. at m j) a ∙ ap (at p) b))
        ∙ new_pa in
      omega (arith, used, ap rank child, no_rank))
  sole_new q q' j k j_in k_in h h' (old _ ne _ same) (fresh a b) v v' e = absurd (
      let used = old_child q j (high_old q ne h) j_in (ap is_valid (sym same) ∙ v) in
      let child : pte_pa (word (at q j)) ≡ n =
        ap pte_pa (sym same)
        ∙ e
        ∙ ap pte_pa (ap (grown word n p i) (ap (λ m. at m k) a ∙ ap (at p) b))
        ∙ new_pa in
      omega (arith, used, ap rank child, no_rank))
  sole_new q q' j k j_in k_in h h' (old _ ne _ same) (old _ ne' _ same') v v' e =
      g.sole q q' j k j_in k_in (high_old q ne h) (high_old q' ne' h') (ap is_valid (sym same) ∙ v)
        (ap is_valid (sym same') ∙ v') (ap pte_pa (sym same) ∙ e ∙ ap pte_pa same')

  child_new :
      (q j k : ℕ)
      → j < 512
      → update rank n (suc l) q ≡ suc (suc k)
      → Entry q j
      → is_valid (grown word n p i (at q j)) ≡ true
      → update rank n (suc l) (pte_pa (grown word n p i (at q j))) ≡ suc k
  child_new q j k j_in r (blank _ z) v = absurd (invalid_blank _ z v)
  child_new q j k j_in r (fresh a b) v =
      let child : pte_pa (grown word n p i (at q j)) ≡ n =
        ap pte_pa (ap (grown word n p i) (ap (λ m. at m j) a ∙ ap (at p) b)) ∙ new_pa in
      let level : rank p ≡ suc (suc k) =
        sym (old_rank p p_ne) ∙ ap (update rank n (suc l)) (sym a) ∙ r in
      ap (update rank n (suc l)) child ∙ update_self rank n (suc l) ∙ (omega (arith, level, high))
  child_new q j k j_in r (old _ ne _ same) v =
      let r' : rank q ≡ suc (suc k) = sym (old_rank q ne) ∙ r in
      let c = g.child q j k j_in r' (ap is_valid (sym same) ∙ v) in
      ap (λ w. update rank n (suc l) (pte_pa w)) same
      ∙ old_rank (pte_pa (word (at q j))) (ne_n (pte_pa (word (at q j))) (omega (arith, c)))
      ∙ c

  -- The new page is a table one level below the one that it is entered in.
  pub grown-IsTree : IsTree (grown word n p i) rest (update rank n (suc l))
  grown-IsTree = record {
    page = λ q h. elim (Bool-cases (q == n)) [
      | inl same ↦
          subst (λ m. (m % pgsize ≡ 0) × (0 < m) × (m < 2 ^ 56)) (sym (==→eq q n same)) page_n
      | inr other ↦ g.page q (subst (λ r. 0 < r) (old_rank q (==→ne q n other)) h)
    ];
    used = λ q h. elim (Bool-cases (q == n)) [
      | inl same ↦ subst (λ m. Out m rest) (sym (==→eq q n same)) once
      | inr other ↦ (g.used q (subst (λ r. 0 < r) (old_rank q (==→ne q n other)) h)).1
    ];
    child = λ q j k j_in r v. child_new q j k j_in r (entries q j (omega (arith, r)) j_in) v;
    sole = λ q q' j k j_in k_in h h' v v' e.
        sole_new q q' j k j_in k_in h h' (entries q j (omega (arith, h)) j_in)
          (entries q' k (omega (arith, h')) k_in) v v' e;
  }

  -- There is nothing in the new table yet.
  entry_new : (k va : ℕ) → entry (grown word n p i) k va n ≡ 0
  entry_new zero va = new_word (px zero va) (px_bound zero va)
  entry_new (suc k) va =
      rw (ap is_valid (new_word (px (suc k) va) (px_bound (suc k) va)) ∙ is_valid_zero)

  -- So the entries of all addresses are as they were.
  pub entry-grown :
      (k va q : ℕ) → rank q ≡ suc k → entry (grown word n p i) k va q ≡ entry word k va q
  entry-grown zero va q r =
      old_word q (px zero va) (omega (arith, r)) (px_bound zero va)
        (λ e. absurd (omega (arith, r, high, ap rank e)))
  entry-grown (suc k) va q r = elim (Bool-cases (q == p && px (suc k) va == i)) [
    | inl both ↦
        (let a : q ≡ p = ground arith in
          let b : px (suc k) va ≡ i = ground arith in
          let place : at q (px (suc k) va) ≡ at p i =
            ap (λ m. at m (px (suc k) va)) a ∙ ap (at p) b in
          let before : is_valid (word (at q (px (suc k) va))) ≡ false =
            ap (λ m. is_valid (word m)) place ∙ empty in
          let after : is_valid (grown word n p i (at q (px (suc k) va))) ≡ true =
            ap (λ m. is_valid (grown word n p i m)) place
            ∙ ap is_valid new_entry
            ∙ is_valid-flag (pa2pte n) in
          let child : pte_pa (grown word n p i (at q (px (suc k) va))) ≡ n =
            ap (λ m. pte_pa (grown word n p i m)) place ∙ new_pa in
          rw (before, after) (ap (entry (grown word n p i) k va) child ∙ entry_new k va))
    | inr other ↦
        (let apart : q ≡ p → px (suc k) va ≢ i = λ e e'. ground arith in
          let same = old_word q (px (suc k) va) (omega (arith, r)) (px_bound (suc k) va) apart in
          elim (Bool-cases (is_valid (word (at q (px (suc k) va))))) [
            | inl valid ↦
                rw (same, valid)
                  (entry-grown k va (pte_pa (word (at q (px (suc k) va))))
                    (g.child q (px (suc k) va) k (px_bound (suc k) va) r valid))
            | inr invalid ↦ rw (same, invalid)
          ])
  ]
