-- ===== src/Common/Lists.antt =====
-- Lists measured by native numbers, and lists without repetition.
use Prim.Native.Nat.{ℕ, suc, ◌+◌}
use mathlib.Core.Path.{◌≡◌, ap}
use mathlib.Core.Logic.{◌≢◌, inl, inr}
use mathlib.Core.Bool.{Bool, true, false, ◌||◌}
use mathlib.Core.List.{List, [], ◌∷◌, ◌++◌}
use native.Mathlib.Omega.{arith}
use os.Common.Tests.{◌==◌, if◌then◌else◌, Bool-cases}

module _ {ℓ} {A : Type ℓ} where
  abbrev pub length : List A → ℕ
  length [] = 0
  length (x ∷ xs) = suc (length xs)

  abbrev pub All {κ} : (A → Type κ) → List A → Type κ
  All P [] = Unit
  All P (x ∷ xs) = P x × All P xs

  pub length-append : (xs ys : List A) → length (xs ++ ys) ≡ length xs + length ys
  length-append [] ys = omega arith
  length-append (x ∷ xs) ys = omega (arith, length-append xs ys)

-- `a` does not occur in the list.
abbrev pub Out : ℕ → List ℕ → Type 0
Out a [] = Unit
Out a (x ∷ xs) = (a ≢ x) × Out a xs

abbrev pub Distinct : List ℕ → Type 0
Distinct [] = Unit
Distinct (x ∷ xs) = Out x xs × Distinct xs

abbrev pub has : ℕ → List ℕ → Bool
has a [] = false
has a (x ∷ xs) = (a == x) || has a xs

infix 40 ◌∈◌
abbrev pub ◌∈◌ : ℕ → List ℕ → Type 0
a ∈ xs = has a xs ≡ true

pub ne_of_Out : (a b : ℕ) (xs : List ℕ) → Out a xs → b ∈ xs → a ≢ b
ne_of_Out a b [] out h = cc
ne_of_Out a b (x ∷ xs) out h = ground (arith, ne_of_Out a b xs out.1)

abbrev pub remove : ℕ → List ℕ → List ℕ
remove a [] = []
remove a (x ∷ xs) = if a == x then xs else x ∷ remove a xs

-- A list at one of its elements, where that first occurs.
pub split_at :
    (a : ℕ) (xs : List ℕ)
    → a ∈ xs
    → (ys zs : List ℕ) × (xs ≡ ys ++ a ∷ zs) × (remove a xs ≡ ys ++ zs)
split_at a [] h = cc
split_at a (x ∷ xs) h = elim (Bool-cases (a == x)) [
  | inl same ↦ ([], xs, ground (arith), rw same)
  | inr other ↦
      let (ys, zs, e, r) = split_at a xs (ground arith) in
      (x ∷ ys, zs, ap (λ l. x ∷ l) e, rw other (ap (λ l. x ∷ l) r))
]

pub has-remove : (a j : ℕ) (xs : List ℕ) → a ∈ xs → has j (a ∷ remove a xs) ≡ has j xs
has-remove a j [] h = cc
has-remove a j (x ∷ xs) h = ground (arith, has-remove a j xs)

pub length-remove : (a : ℕ) (xs : List ℕ) → a ∈ xs → suc (length (remove a xs)) ≡ length xs
length-remove a [] h = cc
length-remove a (x ∷ xs) h = ground (arith, length-remove a xs)
