-- ===== src/FsDebug/Verdict.antt =====
-- What the errors say that fsck_lite (riscv-os/kernel/fs_debug.c) counts.
use os.Common.{
  ℕ, ◌+◌, ◌%◌, ◌^◌, ◌<◌, ◌≤◌, ◌≡◌, ◌≢◌, ◌⊎◌, inl, inr, refl, sym, ap, ◌∙◌, subst, arith, false,
  if◌then◌else◌, ltb, leb, ◌==◌, ==→ne, Bool-cases, update, List, [], ◌∷◌, All, Out, Distinct,
  length,
}
use os.Machine.{Block}
use os.Fs.Bitmap.{clear}
use os.FsDebug.{Found}
use os.FsDebug.Notes.{seen, note, note_all}

-- A block of the data area that is in use.
abbrev pub Fits : Block → ℕ → ℕ → ℕ → Type 0
Fits bits limit datastart a = (datastart ≤ a) × (a < limit) × (clear bits a ≡ false)

abbrev pub nonzero : List ℕ → List ℕ
nonzero [] = []
nonzero (x ∷ xs) = if x == 0 then nonzero xs else x ∷ nonzero xs

abbrev Nonzeros : List ℕ → Type 0
Nonzeros = All (λ a. a ≢ 0)

kept_first : (x : ℕ) (xs : List ℕ) → (x == 0) ≡ false → nonzero (x ∷ xs) ≡ x ∷ nonzero xs
kept_first x xs some = rw some

pub nonzero-All : (xs : List ℕ) → Nonzeros (nonzero xs)
nonzero-All [] = tt
nonzero-All (x ∷ xs) = elim (Bool-cases (x == 0)) [
  | inl none ↦ rw none (nonzero-All xs)
  | inr some ↦ rw some (==→ne x 0 some, nonzero-All xs)
]

module _ (bits : Block) (limit datastart : ℕ) where
  abbrev noted : List ℕ → Found → Found
  noted = note_all bits limit datastart

  pub note_all-nonzero : (xs : List ℕ) (c : Found) → noted xs c ≡ noted (nonzero xs) c
  unfolding note_all
  note_all-nonzero [] c = refl
  note_all-nonzero (x ∷ xs) c =
      note_all-nonzero xs (note bits limit datastart x c) ∙ elim (Bool-cases (x == 0)) [
        | inl none ↦ rw none refl
        | inr some ↦ ap (λ l. noted l c) (sym (kept_first x xs some))
      ]

  -- A new block that fits, with what has been used.
  abbrev pub IsNew : Block → ℕ → Type 0
  IsNew used a = Fits bits limit datastart a × (used a ≡ 0)

  abbrev IsNewAll : Block → List ℕ → Type 0
  IsNewAll used xs = All (IsNew used) xs × Distinct xs

  note_cases :
      (x : ℕ) (c : Found)
      → x ≢ 0
      → ((note bits limit datastart x c ≡ seen x c) × IsNew c.used x)
        ⊎ (((note bits limit datastart x c).errors ≡ (c.errors + 1) % 2 ^ 32) × ¬ (IsNew c.used x))
  note_cases x c some =
      let some' : (x == 0) ≡ false = ground arith in
      elim (Bool-cases (leb limit x)) [
        | inl above ↦ inr (rw (some', above) refl, λ k. absurd (ground arith))
        | inr below ↦ elim (Bool-cases (ltb x datastart)) [
          | inl metadata ↦ inr (rw (some', below, metadata) refl, λ k. absurd (ground arith))
          | inr behind ↦ elim (Bool-cases (c.used x == 0)) [
            | inr again ↦ inr (rw (some', below, behind, again) refl, λ k. absurd (ground arith))
            | inl first ↦ elim (Bool-cases (clear bits x)) [
              | inl free ↦
                  inr (rw (some', below, behind, first, free) refl, λ k. absurd (cc (free, k.0.2)))
              | inr taken ↦ inl (
                rw (some', below, behind, first, taken) refl,
                ((ground arith, ground arith, taken), ground arith),
              )
            ]
          ]
        ]
      ]

  -- New ones when `x` has been seen are new and not `x`.
  IsNew-seen :
      (x : ℕ) (used : Block) (xs : List ℕ)
      → All (IsNew (update used x 1)) xs
      → All (IsNew used) xs × Out x xs
  IsNew-seen x used [] h = (tt, tt)
  IsNew-seen x used (y ∷ ys) h =
      let (rest, out) = IsNew-seen x used ys h.1 in
      let ne : x ≢ y = ground (arith, h.0.1) in
      let new : used y ≡ 0 = ground (arith, h.0.1) in (((h.0.0, new), rest), (ne, out))

  IsNew-unseen :
      (x : ℕ) (used : Block) (xs : List ℕ)
      → All (IsNew used) xs
      → Out x xs
      → All (IsNew (update used x 1)) xs
  IsNew-unseen x used [] h out = tt
  IsNew-unseen x used (y ∷ ys) h out =
      let ne : (y == x) ≡ false = ground (arith, out.0) in
      ((h.0.0, rw ne h.0.1), IsNew-unseen x used ys h.1 out.1)

  noted-grows :
      (xs : List ℕ) (c : Found)
      → Nonzeros xs
      → c.errors + length xs < 2 ^ 32
      → c.errors ≤ (noted xs c).errors
  unfolding note_all
  noted-grows [] c some small = omega arith
  noted-grows (x ∷ xs) c some small =
      let next = note bits limit datastart x c in
      let step : (next.errors ≡ c.errors) ⊎ (next.errors ≡ c.errors + 1) =
        elim (note_cases x c some.0) [
          | inl (same, _) ↦ inl (ap (λ (e : Found). e.errors) same)
          | inr (more, _) ↦ inr (omega (arith, more))
        ] in
      let rest : c.errors + 1 + length xs < 2 ^ 32 = omega arith in
      elim step [
        | inl same ↦ omega (arith, same, noted-grows xs next some.1 (omega (arith, same)))
        | inr more ↦ omega (arith, more, noted-grows xs next some.1 (omega (arith, more)))
      ]

  -- The errors stay as they are if all the numbers are new, and different from each other, and grow
  -- if not.
  pub verdict :
      (xs : List ℕ) (c : Found)
      → Nonzeros xs
      → c.errors + length xs < 2 ^ 32
      → (((noted xs c).errors ≡ c.errors) × IsNewAll c.used xs)
        ⊎ ((c.errors < (noted xs c).errors) × ¬ (IsNewAll c.used xs))
  unfolding note_all
  verdict [] c some small = inl (refl, (tt, tt))
  verdict (x ∷ xs) c some small =
      let next = note bits limit datastart x c in
      elim (note_cases x c some.0) [
        | inr (more, not_new) ↦
            let grown = noted-grows xs next some.1 (omega (arith, more)) in
            inr (omega (arith, more, grown), λ k. not_new k.0.0)
        | inl (same, new) ↦
            let errors : next.errors ≡ c.errors = ap (λ (e : Found). e.errors) same in
            let used : next.used ≡ update c.used x 1 = ap (λ (e : Found). e.used) same in
            elim (verdict xs next some.1 (omega (arith, errors))) [
              | inl (kept, all_new) ↦
                  let (rest, out) =
                    IsNew-seen x c.used xs (subst (λ u. All (IsNew u) xs) used all_new.0) in
                  inl (kept ∙ errors, ((new, rest), (out, all_new.1)))
              | inr (grown, not_new) ↦ inr (
                omega (arith, errors, grown),
                λ k. not_new (
                  subst (λ u. All (IsNew u) xs) (sym used) (IsNew-unseen x c.used xs k.0.1 k.1.0),
                  k.1.1,
                ),
              )
            ]
      ]
