-- ===== src/Fs/Elements.antt =====
-- The components of a path (riscv-os/kernel/fs.c: skipelem).
use os.Common.{
  ℕ, suc, ◌+◌, ◌-◌, ◌≤◌, ◌≡◌, inl, inr, refl, ap, ◌∙◌, fun_ext, arith, true, false, ◌==◌, ltb,
  if◌then◌else◌, Bool-cases, update, Option, some, List, [], ◌∷◌, ◌++◌, All, length,
}
use os.Machine.{Block}
use os.Fs.Directories.{dirsiz, slash}
use os.Fs.Paths.{Rest, skip_slashes, copy_elem, skipelem_at, skipelem}

abbrev pub IsOrdinary : ℕ → Type 0
IsOrdinary c = (c == slash) ≡ false

-- What comes after a component: nothing, or a slash.
abbrev pub IsBreak : List ℕ → Type 0
IsBreak [] = Unit
IsBreak (c ∷ path) = (c == slash) ≡ true

-- The characters from `len` on are written, at most DIRSIZ in all, and a 0 behind them.
abbrev pub written : List ℕ → ℕ → Block → Block
written [] len name = update name len 0
written (c ∷ elem_chars) len name =
    if ltb len dirsiz
    then written elem_chars (len + 1) (update name len c)
    else written elem_chars len name

copy_elem-written :
    (chars rest : List ℕ) (len : ℕ) (name : Block)
    → All IsOrdinary chars
    → IsBreak rest
    → copy_elem (chars ++ rest) len name ≡ record { path = rest; name = written chars len name }
unfolding copy_elem
copy_elem-written [] [] len name ordinary b = refl
copy_elem-written [] (c ∷ rest) len name ordinary b = rw b refl
copy_elem-written (c ∷ chars) rest len name ordinary b =
    rw ordinary.0 (elim (Bool-cases (ltb len dirsiz)) [
      | inl room ↦ rw room (copy_elem-written chars rest (len + 1) (update name len c) ordinary.1 b)
      | inr full ↦ rw full (copy_elem-written chars rest len name ordinary.1 b)
    ])

-- Character `k`.
abbrev pub nth : List ℕ → ℕ → ℕ
nth [] k = 0
nth (c ∷ chars) k = if k == 0 then c else nth chars (k - 1)

-- Where the copy of a component ends.
abbrev pub cut : ℕ → ℕ
cut n = if ltb dirsiz n then dirsiz else n

-- The first characters of the component, a 0 behind them, and the rest as it was.
abbrev pub named : List ℕ → Block → Block
named chars name i =
    if ltb i (cut (length chars))
    then nth chars i
    else if i == cut (length chars)
    then 0
    else name i

written-at :
    (chars : List ℕ) (len : ℕ) (name : Block) (i : ℕ)
    → len ≤ dirsiz
    → written chars len name i ≡ (
        if ltb i len
        then name i
        else if ltb i (cut (len + length chars))
        then nth chars (i - len)
        else if i == cut (len + length chars)
        then 0
        else name i)
written-at [] len name i h = ground arith
written-at (c ∷ chars) len name i h = elim (Bool-cases (ltb len dirsiz)) [
  | inl room ↦
      let step : i - len - 1 ≡ i - (len + 1) = omega arith in
      let count : len + 1 + length chars ≡ len + suc (length chars) = omega arith in
      rw room (
        ground
          (arith, written-at chars (len + 1) (update name len c) i (ground arith), step, count))
  | inr full ↦ rw full (ground (arith, written-at chars len name i h))
]

skip_slashes-pre :
    (pre path : List ℕ)
    → All (λ c. (c == slash) ≡ true) pre
    → skip_slashes (pre ++ path) ≡ skip_slashes path
unfolding skip_slashes
skip_slashes-pre [] path h = refl
skip_slashes-pre (c ∷ pre) path h = rw h.0 (skip_slashes-pre pre path h.1)

skip_slashes-ordinary : (c : ℕ) (path : List ℕ) → IsOrdinary c → skip_slashes (c ∷ path) ≡ c ∷ path
unfolding skip_slashes
skip_slashes-ordinary c path h = rw h refl

-- What is written from place 0, as far as place `i` is concerned.
abbrev by_cut : List ℕ → Block → ℕ → ℕ → ℕ → ℕ
by_cut chars name i n k = if ltb i (cut n) then nth chars k else if i == cut n then 0 else name i

named_at : (chars : List ℕ) (name : Block) (i : ℕ) → written chars 0 name i ≡ named chars name i
named_at chars name i =
    let n = length chars in
    let start : ltb i 0 ≡ false = ground arith in
    let count : 0 + n ≡ n = omega arith in
    let place : i - 0 ≡ i = omega arith in
    written-at chars 0 name i (omega arith)
    ∙ ap (λ b. if b then name i else by_cut chars name i (0 + n) (i - 0)) start
    ∙ ap (λ m. by_cut chars name i m (i - 0)) count
    ∙ ap (by_cut chars name i n) place

named_lem : (chars : List ℕ) (name : Block) → written chars 0 name ≡ named chars name
named_lem chars name = fun_ext (named_at chars name)

-- What skipelem makes of what copy_elem leaves.
abbrev finish : Rest → Option Rest
finish r = some (record r { path = skip_slashes r.path })

skipelem_at_lem :
    (c : ℕ) (chars rest : List ℕ) (name : Block)
    → All IsOrdinary (c ∷ chars)
    → IsBreak rest
    → skipelem_at (c ∷ (chars ++ rest)) name
      ≡ finish (record { path = rest; name = named (c ∷ chars) name })
unfolding skipelem_at
skipelem_at_lem c chars rest name ordinary b =
    ap finish (copy_elem-written (c ∷ chars) rest 0 name ordinary b)
    ∙ ap (λ (n : Block). finish (record { path = rest; name = n })) (named_lem (c ∷ chars) name)

-- skipelem passes over the slashes in front, copies the first component, at most DIRSIZ characters
-- of it, puts a 0 behind the copy, and gives the path from the next component on.
pub skipelem_lem :
    (pre : List ℕ) (c : ℕ) (chars rest : List ℕ) (name : Block)
    → All (λ d. (d == slash) ≡ true) pre
    → All IsOrdinary (c ∷ chars)
    → IsBreak rest
    → skipelem (pre ++ ((c ∷ chars) ++ rest)) name
      ≡ some (record { path = skip_slashes rest; name = named (c ∷ chars) name })
unfolding skipelem
skipelem_lem pre c chars rest name slashes ordinary b =
    ap (λ p. skipelem_at p name)
      (skip_slashes-pre pre (c ∷ (chars ++ rest)) slashes
        ∙ skip_slashes-ordinary c (chars ++ rest) ordinary.0)
    ∙ skipelem_at_lem c chars rest name ordinary b
