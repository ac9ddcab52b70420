-- ===== src/Printf/Text.antt =====
-- The text that printf (riscv-os/kernel/printf.c) sends to the console.
use os.Common.{
  ℕ, zero, suc, ◌+◌, ◌-◌, ◌*◌, ◌/◌, ◌%◌, ◌^◌, ◌<◌, ◌≡◌, refl, ap, ◌∙◌, inl, inr, arith, Bool, true,
  false, if◌then◌else◌, leb, ◌==◌, Bool-cases, List, [], ◌∷◌, ◌++◌, All,
}
use os.Klog.Format.{digit, digits_of, signed_arg, null_text, takes}
use os.Printf.{push_digits}

abbrev pub IsByte : ℕ → Type 0
IsByte c = c < 256

-- The digits of a pointer, by the number of them left, the one for the highest bits first.
abbrev pub nibbles : ℕ → ℕ → ℕ → List ℕ
nibbles zero i v = []
nibbles (suc rounds) i v = digit (v / 2 ^ ((15 - i) * 4) % 16) ∷ nibbles rounds (i + 1) v

abbrev pub number_text : ℕ → List ℕ
number_text v =
    if leb (2 ^ 63) v then 45 ∷ digits_of 32 ((2 ^ 64 - v) % 2 ^ 64) 10 [] else digits_of 32 v 10 []

-- The text of a conversion.
abbrev pub arg_text : ℕ → ℕ → (ℕ → List ℕ) → List ℕ
arg_text c w strings =
    if c == 100
    then number_text (signed_arg false w)
    else if c == 117
    then digits_of 32 (w % 2 ^ 32) 10 []
    else if c == 120
    then digits_of 32 (w % 2 ^ 32) 16 []
    else if c == 112
    then 48 ∷ 120 ∷ nibbles 16 0 w
    else if c == 115
    then (if w == 0 then null_text else strings w)
    else if c == 99
    then w % 256 ∷ []
    else if c == 37
    then 37 ∷ []
    else 37 ∷ c ∷ []

-- The text of a format, in the text or behind `%`.
unfoldable pub text : List ℕ → Bool → (ℕ → ℕ) → ℕ → (ℕ → List ℕ) → List ℕ
text [] percent args k strings = []
text (c ∷ p) false args k strings = elim (c == 37) [
  | true ↦ text p true args k strings
  | false ↦ c ∷ text p false args k strings
]
text (c ∷ p) true args k strings =
    arg_text c (args k) strings ++ text p false args (if takes c then k + 1 else k) strings

-- The characters are bytes, `%l` does not occur, and an argument of `%c` is a byte.
abbrev pub IsPlain : List ℕ → Bool → (ℕ → ℕ) → ℕ → Type 0
IsPlain [] percent args k = Unit
IsPlain (c ∷ p) false args k = IsByte c × IsPlain p (c == 37) args k
IsPlain (c ∷ p) true args k =
    IsByte c
    × ((c == 108) ≡ false)
    × ((c == 99) ≡ true → args k % 2 ^ 32 < 256)
    × IsPlain p false args (if takes c then k + 1 else k)

pub push_digits-digits_of :
    (places x base : ℕ) (buf : List ℕ) → push_digits places x base buf ≡ digits_of places x base buf
unfolding push_digits digits_of
push_digits-digits_of zero x base buf = refl
push_digits-digits_of (suc places) x base buf = elim (Bool-cases (x / base == 0)) [
  | inl last ↦ rw (last, push_digits, digits_of)
  | inr more ↦
      rw (more, push_digits, digits_of)
        (push_digits-digits_of places (x / base) base (digit (x % base) ∷ buf))
]

pub digit-IsByte : (n : ℕ) → n < 16 → IsByte (digit n)
digit-IsByte n h = ground arith

pub digits_of-IsByte :
    (places x base : ℕ) (buf : List ℕ)
    → ((y : ℕ) → y % base < 16)
    → All IsByte buf
    → All IsByte (digits_of places x base buf)
unfolding digits_of
digits_of-IsByte zero x base buf small h = h
digits_of-IsByte (suc places) x base buf small h = elim (Bool-cases (x / base == 0)) [
  | inl last ↦ rw (last, digits_of) (digit-IsByte (x % base) (small x), h)
  | inr more ↦
      rw (more, digits_of)
        (digits_of-IsByte places (x / base) base (digit (x % base) ∷ buf) small
          (digit-IsByte (x % base) (small x), h))
]

-- The shifts of printptr, before the wrap-around.
abbrev pub shifts : ℕ → ℕ → ℕ
shifts zero x = x
shifts (suc i) x = shifts i x * 16

abbrev pub tops : ℕ → ℕ → ℕ → List ℕ
tops zero i x = []
tops (suc rounds) i x = digit (shifts i x % 2 ^ 64 / 2 ^ 60) ∷ tops rounds (suc i) x

same_cons : {a b : ℕ} {xs ys : List ℕ} → a ≡ b → xs ≡ ys → (digit a ∷ xs) ≡ (digit b ∷ ys)
same_cons {a} {b} {xs} {ys} h k = ap (λ n. digit n ∷ xs) h ∙ ap (λ l. digit b ∷ l) k

pub tops-nibbles : (x : ℕ) → tops 16 0 x ≡ nibbles 16 0 x
tops-nibbles x = same_cons (omega arith) (
    same_cons (omega arith) (
      same_cons (omega arith) (
        same_cons (omega arith) (
          same_cons (omega arith) (
            same_cons (omega arith) (
              same_cons (omega arith) (
                same_cons (omega arith) (
                  same_cons (omega arith) (
                    same_cons (omega arith) (
                      same_cons (omega arith) (
                        same_cons (omega arith) (
                          same_cons (omega arith) (
                            same_cons (omega arith) (
                              same_cons (omega arith) (same_cons (omega arith) (refl))))))))))))))))
