-- ===== src/Common/Arrays.antt =====
-- C arrays as functions of the index, and the assignment of one element.
use Prim.Native.Nat.{ℕ}
use mathlib.Core.Path.{◌≡◌, fun_ext, ap, refl}
use mathlib.Core.Logic.{◌≢◌, inl, inr}
use native.Mathlib.Omega.{arith}
use os.Common.Tests.{◌==◌, if◌then◌else◌, Bool-cases}

-- `f[i] = v`
abbrev pub update {ℓ} : {A : Type ℓ} → (ℕ → A) → ℕ → A → ℕ → A
update f i v j = if j == i then v else f j

pub update_self {ℓ} : {A : Type ℓ} (f : ℕ → A) (i : ℕ) (v : A) → update f i v i ≡ v
update_self f i v = ground arith

pub update_ne {ℓ} : {A : Type ℓ} (f : ℕ → A) (i j : ℕ) (v : A) → j ≢ i → update f i v j ≡ f j
update_ne f i j v h = ground arith

-- Of two assignments to one element the second stays.
pub update-update {ℓ} :
    {A : Type ℓ} (f : ℕ → A) (i : ℕ) (v w : A) → update (update f i v) i w ≡ update f i w
update-update f i v w =
    fun_ext λ j. elim (Bool-cases (j == i)) [ inl same ↦ rw same | inr other ↦ rw other ]

-- An element assigned to itself.
pub update-same {ℓ} : {A : Type ℓ} (f : ℕ → A) (i : ℕ) → update f i (f i) ≡ f
update-same f i = fun_ext λ j. elim (Bool-cases (j == i)) [
  | inl same ↦ (let e : i ≡ j = ground arith in rw same (ap f e))
  | inr other ↦ rw other refl
]
