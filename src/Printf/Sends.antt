-- ===== src/Printf/Sends.antt =====
-- printf (riscv-os/kernel/printf.c) sends its text to the console.
use os.Common.{
  ℕ, zero, suc, ◌+◌, ◌-◌, ◌*◌, ◌/◌, ◌%◌, ◌^◌, ◌<◌, ◌≡◌, sym, subst, inl, inr, arith, Bool, true,
  false, if◌then◌else◌, leb, ◌==◌, Bool-cases, List, [], ◌∷◌, ◌++◌, All, ok, ◌>>◌,
}
use os.Klog.Format.{digit, digits_of, signed_arg, null_text, takes}
use os.Uart.{Device, Uart, console_putc}
use os.Uart.Sending.{IsReady, sent, Sends, nothing-Sends, then-Sends, console_putc-Sends}
use os.Printf.{
  put_all, push_digits, printint, printptr_loop, printptr, print_arg, printf_loop, printf,
}
use os.Printf.Text.{
  IsByte, nibbles, number_text, arg_text, text, IsPlain, push_digits-digits_of, digit-IsByte,
  digits_of-IsByte, shifts, tops, tops-nibbles,
}

module _ (d : Device) (ready : IsReady d) where
  put_all-Sends : (s : List ℕ) → All IsByte s → Sends (put_all d s) s
  unfolding put_all
  put_all-Sends [] h = nothing-Sends
  put_all-Sends (c ∷ s) h =
      then-Sends (console_putc d c) (put_all d s) (c ∷ []) s (console_putc-Sends d c ready h.0)
        (put_all-Sends s h.1)

  printptr_loop-Sends :
      (rounds i x : ℕ) → Sends (printptr_loop rounds d (shifts i x % 2 ^ 64)) (tops rounds i x)
  unfolding printptr_loop
  printptr_loop-Sends zero i x = nothing-Sends
  printptr_loop-Sends (suc rounds) i x =
      let y = shifts i x % 2 ^ 64 in
      let wrap : y * 2 ^ 4 % 2 ^ 64 ≡ shifts i x * 16 % 2 ^ 64 = omega arith in
      then-Sends (console_putc d (digit (y / 2 ^ 60))) (printptr_loop rounds d (y * 2 ^ 4 % 2 ^ 64))
        (digit (y / 2 ^ 60) ∷ []) (tops rounds (suc i) x)
        (console_putc-Sends d (digit (y / 2 ^ 60)) ready (digit-IsByte (y / 2 ^ 60) (omega arith)))
        (subst (λ z. Sends (printptr_loop rounds d z) (tops rounds (suc i) x)) (sym wrap)
          (printptr_loop-Sends rounds (suc i) x))

  printptr-Sends : (x : ℕ) → x < 2 ^ 64 → Sends (printptr d x) (48 ∷ 120 ∷ nibbles 16 0 x)
  unfolding printptr
  printptr-Sends x h =
      let word : x % 2 ^ 64 ≡ x = omega arith in
      then-Sends (console_putc d 48) (console_putc d 120 >> printptr_loop 16 d x) (48 ∷ [])
        (120 ∷ nibbles 16 0 x) (console_putc-Sends d 48 ready (omega arith))
        (then-Sends (console_putc d 120) (printptr_loop 16 d x) (120 ∷ []) (nibbles 16 0 x)
          (console_putc-Sends d 120 ready (omega arith))
          (subst (λ z. Sends (printptr_loop 16 d z) (nibbles 16 0 x)) word
            (subst (Sends (printptr_loop 16 d (x % 2 ^ 64))) (tops-nibbles x)
              (printptr_loop-Sends 16 0 x))))

  digits-Sends :
      (x base : ℕ)
      → ((y : ℕ) → y % base < 16)
      → Sends (put_all d (push_digits 32 x base [])) (digits_of 32 x base [])
  digits-Sends x base small =
      subst (λ s. Sends (put_all d s) (digits_of 32 x base []))
        (sym (push_digits-digits_of 32 x base []))
        (put_all-Sends (digits_of 32 x base []) (digits_of-IsByte 32 x base [] small tt))

  minus-Sends :
      (x : ℕ) → Sends (put_all d (45 ∷ push_digits 32 x 10 [])) (45 ∷ digits_of 32 x 10 [])
  unfolding put_all
  minus-Sends x =
      then-Sends (console_putc d 45) (put_all d (push_digits 32 x 10 [])) (45 ∷ [])
        (digits_of 32 x 10 []) (console_putc-Sends d 45 ready (omega arith))
        (digits-Sends x 10 (λ y. omega arith))

  printint-Sends : (v : ℕ) → Sends (printint d v 10 true) (number_text v)
  unfolding printint
  printint-Sends v = elim (Bool-cases (leb (2 ^ 63) v)) [
    | inl negative ↦ rw negative (minus-Sends ((2 ^ 64 - v) % 2 ^ 64))
    | inr positive ↦ rw positive (digits-Sends v 10 (λ y. omega arith))
  ]

  unsigned-Sends :
      (x base : ℕ)
      → ((y : ℕ) → y % base < 16)
      → Sends (printint d x base false) (digits_of 32 x base [])
  unfolding printint
  unsigned-Sends x base small = digits-Sends x base small

  string-Sends :
      (w : ℕ) (strings : ℕ → List ℕ)
      → All IsByte (strings w)
      → Sends
          (put_all d (if w == 0 then null_text else strings w))
          (if w == 0 then null_text else strings w)
  string-Sends w strings h =
      put_all-Sends (if w == 0 then null_text else strings w)
        (elim (Bool-cases (w == 0)) [ inl null ↦ rw null null-IsByte | inr there ↦ rw there h ])
    where
      null-IsByte : All IsByte null_text
      null-IsByte = (
        omega arith,
        (omega arith, (omega arith, (omega arith, (omega arith, (omega arith, tt))))),
      )

  char-Sends : (w : ℕ) → w % 2 ^ 32 < 256 → Sends (console_putc d (w % 2 ^ 32)) (w % 256 ∷ [])
  char-Sends w h =
      let same : w % 2 ^ 32 ≡ w % 256 = omega arith in
      subst (λ x. Sends (console_putc d (w % 2 ^ 32)) (x ∷ [])) same
        (console_putc-Sends d (w % 2 ^ 32) ready h)

  last-Sends :
      (c : ℕ)
      → IsByte c
      → Sends
          (if c == 37 then console_putc d 37 else console_putc d 37 >> console_putc d c)
          (if c == 37 then 37 ∷ [] else 37 ∷ c ∷ [])
  last-Sends c h = elim (Bool-cases (c == 37)) [
    | inl same ↦ rw same (console_putc-Sends d 37 ready (omega arith))
    | inr other ↦ rw other (
        then-Sends (console_putc d 37) (console_putc d c) (37 ∷ []) (c ∷ [])
          (console_putc-Sends d 37 ready (omega arith)) (console_putc-Sends d c ready h))
  ]

  -- A conversion sends its text.
  print_arg-Sends :
      (c w : ℕ) (strings : ℕ → List ℕ)
      → IsByte c
      → w < 2 ^ 64
      → ((c == 99) ≡ true → w % 2 ^ 32 < 256)
      → All IsByte (strings w)
      → Sends (print_arg d c w strings) (arg_text c w strings)
  unfolding print_arg
  print_arg-Sends c w strings byte word char string = elim (Bool-cases (c == 100)) [
    | inl is_d ↦ rw is_d (printint-Sends (signed_arg false w))
    | inr not_d ↦ elim (Bool-cases (c == 117)) [
      | inl is_u ↦ rw (not_d, is_u) (unsigned-Sends (w % 2 ^ 32) 10 (λ y. omega arith))
      | inr not_u ↦ elim (Bool-cases (c == 120)) [
        | inl is_x ↦ rw (not_d, not_u, is_x) (unsigned-Sends (w % 2 ^ 32) 16 (λ y. omega arith))
        | inr not_x ↦ elim (Bool-cases (c == 112)) [
          | inl is_p ↦ rw (not_d, not_u, not_x, is_p) (printptr-Sends w word)
          | inr not_p ↦ elim (Bool-cases (c == 115)) [
            | inl is_s ↦ rw (not_d, not_u, not_x, not_p, is_s) (string-Sends w strings string)
            | inr not_s ↦ elim (Bool-cases (c == 99)) [
              | inl is_c ↦ rw (not_d, not_u, not_x, not_p, not_s, is_c) (char-Sends w (char is_c))
              | inr not_c ↦ rw (not_d, not_u, not_x, not_p, not_s, not_c) (last-Sends c byte)
            ]
          ]
        ]
      ]
    ]
  ]

  -- So does a format, if the arguments are 64-bit words.
  printf_loop-Sends :
      (fmt : List ℕ) (percent : Bool) (args : ℕ → ℕ) (k : ℕ) (strings : ℕ → List ℕ)
      → IsPlain fmt percent args k
      → ((i : ℕ) → args i < 2 ^ 64)
      → ((w : ℕ) → All IsByte (strings w))
      → Sends (printf_loop d fmt percent args k strings) (text fmt percent args k strings)
  unfolding printf_loop text
  printf_loop-Sends [] percent args k strings plain words bytes = nothing-Sends
  printf_loop-Sends (c ∷ p) true args k strings plain words bytes =
      then-Sends (print_arg d c (args k) strings)
        (printf_loop d p false args (if takes c then k + 1 else k) strings)
        (arg_text c (args k) strings) (text p false args (if takes c then k + 1 else k) strings)
        (print_arg-Sends c (args k) strings plain.0 (words k) plain.2 (bytes (args k)))
        (printf_loop-Sends p false args (if takes c then k + 1 else k) strings plain.3 words bytes)
  printf_loop-Sends (c ∷ p) false args k strings plain words bytes = elim (Bool-cases (c == 37)) [
    | inl is_percent ↦
        let rest : IsPlain p true args k = subst (λ b. IsPlain p b args k) is_percent plain.1 in
        rw (is_percent, printf_loop, text)
          (printf_loop-Sends p true args k strings rest words bytes)
    | inr other ↦
        let rest : IsPlain p false args k = subst (λ b. IsPlain p b args k) other plain.1 in
        rw (other, printf_loop, text)
          (then-Sends (console_putc d c) (printf_loop d p false args k strings) (c ∷ [])
            (text p false args k strings) (console_putc-Sends d c ready plain.0)
            (printf_loop-Sends p false args k strings rest words bytes))
  ]

  -- printf returns 0 when it has sent its text.
  pub printf-Sends :
      (fmt : List ℕ) (args : ℕ → ℕ) (strings : ℕ → List ℕ) (u : Uart)
      → IsPlain fmt false args 0
      → ((i : ℕ) → args i < 2 ^ 64)
      → ((w : ℕ) → All IsByte (strings w))
      → (t : Uart) × (printf d fmt args strings u ≡ ok 0 t)
        × (t.writes ≡ u.writes ++ sent (text fmt false args 0 strings))
  unfolding printf
  printf-Sends fmt args strings u plain words bytes =
      let (t, run, w) = printf_loop-Sends fmt false args 0 strings plain words bytes u in
      (t, rw run, w)
