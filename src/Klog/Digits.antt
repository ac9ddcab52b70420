-- ===== src/Klog/Digits.antt =====
-- The digits that riscv-os/kernel/klog.c writes for a number (ob_put_uint).
use native.Mathlib.Nat.{mod-add-div', add_comm}
use os.Common.{
  ℕ, zero, suc, ◌+◌, ◌-◌, ◌*◌, ◌/◌, ◌%◌, ◌^◌, ◌<◌, ◌≡◌, ◌⊎◌, inl, inr, refl, sym, ap, ◌∙◌, subst,
  arith, ◌==◌, ltb, if◌then◌else◌, Bool-cases, List, [], ◌∷◌, ==→eq,
}
use os.Klog.Format.{digit, digits_of}

abbrev pub undigit : ℕ → ℕ
undigit c = if ltb c 58 then c - 48 else c - 87

-- The number that digits stand for, behind the digits of `a`.
abbrev pub value : ℕ → ℕ → List ℕ → ℕ
value base a [] = a
value base a (c ∷ cs) = value base (a * base + undigit c) cs

-- The numbers that the given places have room for.
abbrev pub room : ℕ → ℕ → ℕ
room base zero = 1
room base (suc places) = base * room base places

abbrev pub IsBase : ℕ → Type 0
IsBase base = (base ≡ 10) ⊎ (base ≡ 16)

shorter : (base x r : ℕ) → IsBase base → x < base * r → x / base < r
shorter base x r (inl ten) h =
    subst (λ b. x / b < r) (sym ten)
      (let h' : x < 10 * r = subst (λ b. x < b * r) ten h in omega arith)
shorter base x r (inr sixteen) h =
    subst (λ b. x / b < r) (sym sixteen)
      (let h' : x < 16 * r = subst (λ b. x < b * r) sixteen h in omega arith)

undigit-digit : (base x : ℕ) → IsBase base → undigit (digit (x % base)) ≡ x % base
undigit-digit base x (inl ten) =
    subst (λ b. undigit (digit (x % b)) ≡ x % b) (sym ten) (ground arith)
undigit-digit base x (inr sixteen) =
    subst (λ b. undigit (digit (x % b)) ≡ x % b) (sym sixteen) (ground arith)

-- One digit behind those of `x / base`.
value-digit :
    (base x a : ℕ) (acc : List ℕ)
    → IsBase base
    → a ≡ x / base
    → value base a (digit (x % base) ∷ acc) ≡ value base x acc
value-digit base x a acc w e =
    ap (λ n. value base n acc)
      (ap (λ n. n * base + undigit (digit (x % base))) e
        ∙ ap (λ d. x / base * base + d) (undigit-digit base x w)
        ∙ add_comm (x / base * base) (x % base)
        ∙ mod-add-div' x base)

digits_of-value :
    (places x base : ℕ) (acc : List ℕ)
    → IsBase base
    → x < room base places
    → value base 0 (digits_of places x base acc) ≡ value base x acc
unfolding digits_of
digits_of-value zero x base acc w h = let e : 0 ≡ x = omega arith in ap (λ n. value base n acc) e
digits_of-value (suc places) x base acc w h = elim (Bool-cases (x / base == 0)) [
  | inl last ↦ rw (last, digits_of) (value-digit base x 0 acc w (sym (==→eq (x / base) 0 last)))
  | inr more ↦
      rw (more, digits_of)
        (digits_of-value places (x / base) base (digit (x % base) ∷ acc) w
            (shorter base x (room base places) w h)
          ∙ value-digit base x (x / base) acc w refl)
]

-- The 32 places of tmp are enough for a 64-bit number in base 10 or 16: the digits that ob_put_uint
-- writes stand for the number.
pub digits_of-number :
    (x base : ℕ) → IsBase base → x < 2 ^ 64 → value base 0 (digits_of 32 x base []) ≡ x
digits_of-number x base w h = digits_of-value 32 x base [] w (enough w)
  where
    enough : IsBase base → x < room base 32
    enough (inl ten) = subst (λ b. x < room b 32) (sym ten) (omega arith)
    enough (inr sixteen) = subst (λ b. x < room b 32) (sym sixteen) (omega arith)
