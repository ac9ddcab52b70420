-- ===== src/Samples/Printing.antt =====
-- The theorem about printf and the formatter of the message log on a sample format.
use os.Common.{
  ℕ, if◌then◌else◌, ◌%◌, ◌⊎◌, ◌==◌, ◌^◌, inl, inr, ◌+◌, ◌<◌, ◌≡◌, refl, arith, sym, subst,
  Bool-cases, List, [], ◌∷◌, ◌++◌, All, length, ok, false,
}
use os.Klog.Format.{digits_of, kvsnprintf_local}
use os.Uart.{Device, Uart}
use os.Uart.Sending.{IsReady, sent}
use os.Printf.{printf}
use os.Printf.Text.{IsByte, IsPlain, text}
use os.Printf.Agreement.{IsText, printf-kvsnprintf_local}

-- A device that is idle at every second reading.
abbrev blinking : Device
blinking = record { status = λ n. if n % 2 == 0 then 0 else 32; patience = 2 }

parity : (n : ℕ) → (n % 2 ≡ 0) ⊎ (n % 2 ≡ 1)
parity n = omega arith

blinking-IsReady : IsReady blinking
blinking-IsReady n = elim (parity n) [
  | inl even ↦
      (1, omega arith, let odd : (n + 1) % 2 ≡ 1 = omega arith in rw odd λ e. absurd (omega arith))
  | inr odd ↦ (
    0,
    omega arith,
    let odd' : (n + 0) % 2 ≡ 1 = omega arith in rw odd' λ e. absurd (omega arith),
  )
]

-- `n=%d %s` and a line feed, with -2 and `ok`.
abbrev format : List ℕ
format = 110 ∷ 61 ∷ 37 ∷ 100 ∷ 32 ∷ 37 ∷ 115 ∷ 10 ∷ []

abbrev arguments : ℕ → ℕ
arguments i = if i == 0 then 4294967294 else 8192

abbrev strings : ℕ → List ℕ
strings w = if w == 8192 then 111 ∷ 107 ∷ [] else []

abbrev line : List ℕ
line = 110 ∷ 61 ∷ 45 ∷ 50 ∷ 32 ∷ 111 ∷ 107 ∷ 10 ∷ []

text-format : text format false arguments 0 strings ≡ line
unfolding text digits_of
text-format = refl

arguments-IsWord : (i : ℕ) → arguments i < 2 ^ 64
arguments-IsWord i = ground arith

strings-IsByte : (w : ℕ) → All IsByte (strings w)
strings-IsByte w = elim (Bool-cases (w == 8192)) [
  | inl there ↦ rw there (omega arith, (omega arith, tt))
  | inr other ↦ rw other tt
]

format-IsPlain : IsPlain format false arguments 0
format-IsPlain = (
  omega arith,
  (
    omega arith,
    (
      omega arith,
      (
        omega arith,
        refl,
        (λ e. absurd (cc e)),
        (omega arith, (omega arith, (omega arith, refl, (λ e. absurd (cc e)), (omega arith, tt)))),
      ),
    ),
  ),
)

line_fits : length (text format false arguments 0 strings) < 64
line_fits = subst (λ l. length l < 64) (sym text-format) (omega arith)

printf-kvsnprintf_local_example :
    (t : Uart) × (printf blinking format arguments strings (record { reads = 0; writes = [] })
      ≡ ok 0 t)
    × (t.writes ≡ [] ++ sent (text format false arguments 0 strings))
    × IsText
        (kvsnprintf_local (λ _. 1) 64 format arguments strings)
        (text format false arguments 0 strings)
printf-kvsnprintf_local_example =
    printf-kvsnprintf_local blinking format arguments strings (record { reads = 0; writes = [] })
      (λ _. 1) 64 blinking-IsReady format-IsPlain arguments-IsWord strings-IsByte line_fits
