-- ===== src/FsDebug/References.antt =====
-- The block references of two disks (riscv-os/kernel/fs_debug.c: what fsck_lite walks over).
use os.Common.{
  ℕ, zero, suc, ◌+◌, ◌*◌, ◌<◌, ◌≤◌, ◌≡◌, ◌≢◌, inl, inr, refl, ap, ◌∙◌, subst, arith, false,
  if◌then◌else◌, ◌==◌, ==→ne, Bool-cases, List, [], ◌∷◌, ◌++◌, All,
}
use os.Bytes.{get16, get32}
use os.Machine.{Superblock, Block}
use os.Fs.Inodes.{iblock, nindirect, ndirect, dinode_at, t_unused}
use os.FsDebug.Notes.{words, refs, indirect_refs, indirect_of, is_unused}
use os.FsDebug.Verdict.{nonzero}
use os.FsDebug.Check.{all_refs}

-- Two disks have the same dinode and, if there is one, the same indirect block.
pub record IsSame (d e : ℕ → Block) (sb : Superblock) (inum : ℕ) : Type 0 where
  pub home : e (iblock inum sb) ≡ d (iblock inum sb)
  pub indirect :
      is_unused d sb inum ≡ false
      → indirect_of d sb inum ≢ 0
      → e (indirect_of d sb inum) ≡ d (indirect_of d sb inum)

indirect_refs-same :
    (d e : ℕ → Block) (a : ℕ) → (a ≢ 0 → e a ≡ d a) → indirect_refs e a ≡ indirect_refs d a
indirect_refs-same d e a same = elim (Bool-cases (a == 0)) [
  | inl none ↦ rw none refl
  | inr some ↦ rw some (ap (λ (b : Block). a ∷ words nindirect 0 b) (same (==→ne a 0 some)))
]

-- The references of the dinode in `b`, on the disk `e`.
abbrev refs_of : Block → (ℕ → Block) → ℕ → List ℕ
refs_of b e inum =
    if get16 b (dinode_at inum) == t_unused
    then []
    else words ndirect (dinode_at inum + 12) b
      ++ indirect_refs e (get32 b (dinode_at inum + 12 + 4 * ndirect))

refs-same :
    (d e : ℕ → Block) (sb : Superblock) (inum : ℕ)
    → IsSame d e sb inum
    → refs e sb inum ≡ refs d sb inum
refs-same d e sb inum h =
    ap (λ b. refs_of b e inum) h.home ∙ elim (Bool-cases (is_unused d sb inum)) [
      | inl unused ↦ rw unused refl
      | inr used ↦
          let same = indirect_refs-same d e (indirect_of d sb inum) (h.indirect used) in
          rw used (ap (λ l. words ndirect (dinode_at inum + 12) (d (iblock inum sb)) ++ l) same)
    ]

pub all_refs-same :
    (d e : ℕ → Block) (sb : Superblock) (n inum : ℕ)
    → ((i : ℕ) → inum ≤ i → i < inum + n → IsSame d e sb i)
    → all_refs e sb n inum ≡ all_refs d sb n inum
unfolding all_refs
all_refs-same d e sb zero inum h = refl
all_refs-same d e sb (suc n) inum h =
    let here = refs-same d e sb inum (h inum (omega arith) (omega arith)) in
    let rest = all_refs-same d e sb n (inum + 1) (λ i a b. h i (omega arith) (omega arith)) in
    ap (λ l. l ++ all_refs e sb n (inum + 1)) here ∙ ap (λ l. refs d sb inum ++ l) rest

module _ (P : ℕ → Type 0) where
  nonzero-split :
      (xs ys : List ℕ) → All P (nonzero (xs ++ ys)) → All P (nonzero xs) × All P (nonzero ys)
  nonzero-split [] ys h = (tt, h)
  nonzero-split (x ∷ xs) ys h = elim (Bool-cases (x == 0)) [
    | inl none ↦
        let h' : All P (nonzero (xs ++ ys)) =
          subst (λ b. All P (if b then nonzero (xs ++ ys) else x ∷ nonzero (xs ++ ys))) none h in
        rw none (nonzero-split xs ys h')
    | inr some ↦
        let h' : All P (x ∷ nonzero (xs ++ ys)) =
          subst (λ b. All P (if b then nonzero (xs ++ ys) else x ∷ nonzero (xs ++ ys))) some h in
        let (a, b) = nonzero-split xs ys h'.1 in rw some ((h'.0, a), b)
  ]

  pub all_refs-at :
      (d : ℕ → Block) (sb : Superblock) (n inum i : ℕ)
      → inum ≤ i
      → i < inum + n
      → All P (nonzero (all_refs d sb n inum))
      → All P (nonzero (refs d sb i))
  unfolding all_refs
  all_refs-at d sb zero inum i low below h = absurd (omega arith)
  all_refs-at d sb (suc n) inum i low below h =
      let (a, b) = nonzero-split (refs d sb inum) (all_refs d sb n (inum + 1)) h in
      elim (Bool-cases (i == inum)) [
        | inl same ↦
            (let e : inum ≡ i = ground arith in subst (λ k. All P (nonzero (refs d sb k))) e a)
        | inr other ↦ all_refs-at d sb n (inum + 1) i (ground arith) (ground arith) b
      ]

  pub indirect-at :
      (d : ℕ → Block) (sb : Superblock) (i : ℕ)
      → is_unused d sb i ≡ false
      → indirect_of d sb i ≢ 0
      → All P (nonzero (refs d sb i))
      → P (indirect_of d sb i)
  indirect-at d sb i used some h =
      let a = indirect_of d sb i in
      let direct = words ndirect (dinode_at i + 12) (d (iblock i sb)) in
      let some' : (a == 0) ≡ false = ground arith in
      let h1 : All P (nonzero (direct ++ indirect_refs d a)) =
        subst (λ b. All P (nonzero (if b then [] else direct ++ indirect_refs d a))) used h in
      let h2 = (nonzero-split direct (indirect_refs d a) h1).1 in
      let h3 : All P (nonzero (a ∷ words nindirect 0 (d a))) =
        subst (λ b. All P (nonzero (if b then [] else a ∷ words nindirect 0 (d a)))) some' h2 in
      let h4 : All P (a ∷ nonzero (words nindirect 0 (d a))) =
        subst
          (λ b. All P (
            if b then nonzero (words nindirect 0 (d a)) else a ∷ nonzero (words nindirect 0 (d a))))
          some' h3 in
      h4.0
