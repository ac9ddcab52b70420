-- ===== src/Common/Searches.antt =====
-- Searches for the lowest number that passes a test.
use Prim.Native.Nat.{ℕ, ◌+◌, ◌≤◌, ◌<◌}
use mathlib.Core.Path.{◌≡◌, ap, ◌∙◌}
use mathlib.Core.Logic.{inl, inr}
use mathlib.Core.Bool.{Bool, true, false}
use mathlib.Core.Option.{Option, none, some}
use native.Mathlib.Omega.{arith}
use os.Common.Tests.{◌==◌, Bool-cases}

-- What a search from `from` up to `end` gives.
pub data Lowest (test : ℕ → Bool) (from end : ℕ) : Option ℕ → Type 0 where
  hit :
      (i : ℕ)
      → from ≤ i
      → i < end
      → test i ≡ true
      → ((j : ℕ) → from ≤ j → j < i → test j ≡ false)
      → Lowest test from end (some i)
  miss : ((j : ℕ) → from ≤ j → j < end → test j ≡ false) → Lowest test from end none

-- A number that fails, before the search.
pub Lowest-before :
    (test : ℕ → Bool) (from end : ℕ) (r : Option ℕ)
    → test from ≡ false
    → Lowest test (from + 1) end r
    → Lowest test from end r
Lowest-before test from end r fails (hit i a b c d) = hit i (omega arith) b c (λ j h k.
    elim (Bool-cases (j == from)) [
      | inl same ↦ (let e : j ≡ from = ground arith in ap test e ∙ fails)
      | inr other ↦ d j (ground arith) k
    ])
Lowest-before test from end r fails (miss d) = miss (λ j h k. elim (Bool-cases (j == from)) [
  | inl same ↦ (let e : j ≡ from = ground arith in ap test e ∙ fails)
  | inr other ↦ d j (ground arith) k
])
