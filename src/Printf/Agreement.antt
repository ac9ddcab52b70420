-- ===== src/Printf/Agreement.antt =====
-- printf of riscv-os/kernel/printf.c and kvsnprintf_local of riscv-os/kernel/klog.c agree.
use os.Common.{
  ℕ, zero, suc, ◌+◌, ◌-◌, ◌*◌, ◌/◌, ◌%◌, ◌^◌, ◌≤◌, ◌<◌, ◌≡◌, refl, sym, ap, ◌∙◌, subst, inl, inr,
  arith, Bool, true, false, if◌then◌else◌, leb, ◌==◌, ◌||◌, Bool-cases, update, List, [], ◌∷◌, ◌++◌,
  All, length, ok,
}
use os.Klog.Format.{
  Chars, Outbuf, ob_putc, ob_puts, ob_put_uint, ob_put_int, ob_put_nibbles, convert, Mode, plain,
  percent, format_loop, kvsnprintf_local, signed_arg, takes, digit,
}
use os.Fs.Elements.{nth}
use os.Uart.{Device, Uart}
use os.Uart.Sending.{IsReady, sent}
use os.Printf.{printf}
use os.Printf.Text.{IsByte, IsPlain, nibbles, number_text, arg_text, text}
use os.Printf.Sends.{printf-Sends}

ob_puts-append : (xs ys : List ℕ) (ob : Outbuf) → ob_puts ob (xs ++ ys) ≡ ob_puts (ob_puts ob xs) ys
unfolding ob_puts
ob_puts-append [] ys ob = refl
ob_puts-append (x ∷ xs) ys ob = ob_puts-append xs ys (ob_putc ob x)

ob_put_nibbles_lem :
    (rounds i v : ℕ) (ob : Outbuf) → ob_put_nibbles rounds i v ob ≡ ob_puts ob (nibbles rounds i v)
unfolding ob_put_nibbles ob_puts
ob_put_nibbles_lem zero i v ob = refl
ob_put_nibbles_lem (suc rounds) i v ob =
    ob_put_nibbles_lem rounds (i + 1) v (ob_putc ob (digit ((v / 2 ^ ((15 - i) * 4)) % 16)))

ob_put_int_lem : (v : ℕ) (ob : Outbuf) → ob_put_int ob v ≡ ob_puts ob (number_text v)
unfolding ob_put_int ob_put_uint ob_puts
ob_put_int_lem v ob = elim (Bool-cases (leb (2 ^ 63) v)) [
  | inl negative ↦ rw negative
  | inr positive ↦ rw positive
]

-- A conversion without `l` stores its text.
convert_lem :
    (c w : ℕ) (strings : ℕ → List ℕ) (ob : Outbuf)
    → convert false c w strings ob ≡ ob_puts ob (arg_text c w strings)
unfolding convert ob_put_uint ob_puts
convert_lem c w strings ob = elim (Bool-cases (c == 100)) [
  | inl is_d ↦ rw is_d (ob_put_int_lem (signed_arg false w) ob)
  | inr not_d ↦ elim (Bool-cases (c == 117)) [
    | inl is_u ↦ rw (not_d, is_u)
    | inr not_u ↦ elim (Bool-cases (c == 120)) [
      | inl is_x ↦ rw (not_d, not_u, is_x)
      | inr not_x ↦ elim (Bool-cases (c == 112)) [
        | inl is_p ↦
            rw (not_d, not_u, not_x, is_p) (ob_put_nibbles_lem 16 0 w (ob_putc (ob_putc ob 48) 120))
        | inr not_p ↦ elim (Bool-cases (c == 115)) [
          | inl is_s ↦ rw (not_d, not_u, not_x, not_p, is_s)
          | inr not_s ↦ elim (Bool-cases (c == 99)) [
            | inl is_c ↦ rw (not_d, not_u, not_x, not_p, not_s, is_c)
            | inr not_c ↦ elim (Bool-cases (c == 37)) [
              | inl same ↦ rw (not_d, not_u, not_x, not_p, not_s, not_c, same)
              | inr other ↦ rw (not_d, not_u, not_x, not_p, not_s, not_c, other)
            ]
          ]
        ]
      ]
    ]
  ]
]

-- Where the loop of kvsnprintf_local stands.
abbrev mode_of : Bool → Mode
mode_of true = percent
mode_of false = plain

format_loop_lem :
    (fmt : List ℕ) (p : Bool) (args : ℕ → ℕ) (k : ℕ) (strings : ℕ → List ℕ) (ob : Outbuf)
    → IsPlain fmt p args k
    → format_loop fmt (mode_of p) args k strings ob ≡ ob_puts ob (text fmt p args k strings)
unfolding format_loop text
format_loop_lem [] true args k strings ob h = refl
format_loop_lem [] false args k strings ob h = refl
format_loop_lem (c ∷ fmt) true args k strings ob h =
    rw (h.1, format_loop)
      (ap (format_loop fmt plain args (if takes c then k + 1 else k) strings)
          (convert_lem c (args k) strings ob)
        ∙ format_loop_lem fmt false args (if takes c then k + 1 else k) strings
            (ob_puts ob (arg_text c (args k) strings)) h.3
        ∙ sym (
            ob_puts-append (arg_text c (args k) strings)
              (text fmt false args (if takes c then k + 1 else k) strings) ob))
format_loop_lem (c ∷ fmt) false args k strings ob h = elim (Bool-cases (c == 37)) [
  | inl is_percent ↦
      let rest : IsPlain fmt true args k = subst (λ b. IsPlain fmt b args k) is_percent h.1 in
      rw (is_percent, format_loop, text) (format_loop_lem fmt true args k strings ob rest)
  | inr other ↦
      let rest : IsPlain fmt false args k = subst (λ b. IsPlain fmt b args k) other h.1 in
      rw (other, format_loop, text)
        (format_loop_lem fmt false args k strings (ob_putc ob c) rest
          ∙ sym (ob_puts-append (c ∷ []) (text fmt false args k strings) ob))
]

-- The characters of the text and a 0 are in the array.
abbrev pub IsText : Chars → List ℕ → Type 0
IsText r s = (i : ℕ) → i ≤ length s → r i ≡ nth s i

ob_putc-room :
    (ob : Outbuf) (c : ℕ)
    → ob.len + 1 < ob.cap
    → ob_putc ob c ≡ record {
      buf = update (update ob.buf ob.len c) (ob.len + 1) 0;
      cap = ob.cap;
      len = ob.len + 1;
    }
unfolding ob_putc
ob_putc-room ob c h =
    let some : ((ob.cap == 0) || leb ob.cap (ob.len + 1)) ≡ false = ground arith in rw some

-- What is stored behind the characters that are there, if it has room.
ob_puts_lem :
    (xs : List ℕ) (ob : Outbuf)
    → ob.len + length xs < ob.cap
    → ob.buf ob.len ≡ 0
    → ((j : ℕ) → j ≤ length xs → (ob_puts ob xs).buf (ob.len + j) ≡ nth xs j)
      × ((j : ℕ) → j < ob.len → (ob_puts ob xs).buf j ≡ ob.buf j)
unfolding ob_puts
ob_puts_lem [] ob h z =
    (λ j j_in. (let e : ob.len + j ≡ ob.len = omega arith in ap ob.buf e ∙ z), λ j j_in. refl)
ob_puts_lem (x ∷ xs) ob h z =
    let ob' : Outbuf = record {
      buf = update (update ob.buf ob.len x) (ob.len + 1) 0;
      cap = ob.cap;
      len = ob.len + 1;
    } in
    let step : ob_puts ob (x ∷ xs) ≡ ob_puts ob' xs =
      ap (λ (o : Outbuf). ob_puts o xs) (ob_putc-room ob x (omega arith)) in
    let (behind, before) = ob_puts_lem xs ob' (omega arith) (ground arith) in
    (
      λ j j_in. elim (Bool-cases (j == 0)) [
        | inl first ↦
            (let place : ob.len + j ≡ ob.len = ground arith in
              rw first (
                ap (λ (o : Outbuf). o.buf (ob.len + j)) step
                ∙ ap (ob_puts ob' xs).buf place
                ∙ before ob.len (omega arith)
                ∙ (ground arith)))
        | inr later ↦
            (let place : ob.len + j ≡ ob.len + 1 + (j - 1) = ground arith in
              rw later (
                ap (λ (o : Outbuf). o.buf (ob.len + j)) step
                ∙ ap (ob_puts ob' xs).buf place
                ∙ behind (j - 1) (ground arith)))
      ],
      λ j j_in. ap (λ (o : Outbuf). o.buf j) step ∙ before j (omega arith) ∙ (ground arith),
    )

kvsnprintf_local_lem :
    (buf : Chars) (size : ℕ) (fmt : List ℕ) (args : ℕ → ℕ) (strings : ℕ → List ℕ)
    → 0 < size
    → kvsnprintf_local buf size fmt args strings
      ≡ (format_loop fmt plain args 0 strings
          (record { buf = update buf 0 0; cap = size; len = 0 })).buf
unfolding kvsnprintf_local
kvsnprintf_local_lem buf size fmt args strings h =
    let some : (size == 0) ≡ false = ground arith in rw (some, kvsnprintf_local) refl

-- On a format of bytes without `%l`, with 64-bit arguments, those of `%c` and the strings being
-- bytes, and on a device that gets ready again and again, printf and the formatter of the message
-- log agree: printf returns 0 and sends a text to the UART, and nothing else, and kvsnprintf_local
-- stores the same text with a 0 behind it, if the buffer has room for it.
pub printf-kvsnprintf_local :
    (d : Device) (fmt : List ℕ) (args : ℕ → ℕ) (strings : ℕ → List ℕ) (u : Uart) (buf : Chars)
    (size : ℕ)
    → IsReady d
    → IsPlain fmt false args 0
    → ((i : ℕ) → args i < 2 ^ 64)
    → ((w : ℕ) → All IsByte (strings w))
    → length (text fmt false args 0 strings) < size
    → (t : Uart) × (printf d fmt args strings u ≡ ok 0 t)
      × (t.writes ≡ u.writes ++ sent (text fmt false args 0 strings))
      × IsText (kvsnprintf_local buf size fmt args strings) (text fmt false args 0 strings)
printf-kvsnprintf_local d fmt args strings u buf size ready short words bytes room =
    let (t, run, w) = printf-Sends d ready fmt args strings u short words bytes in
    let s = text fmt false args 0 strings in
    let start : Outbuf = record { buf = update buf 0 0; cap = size; len = 0 } in
    let (stored, _) = ob_puts_lem s start (omega arith) refl in
    (
      t,
      run,
      w,
      λ i i_in.
          let place : 0 + i ≡ i = omega arith in
          ap (λ (r : Chars). r i) (kvsnprintf_local_lem buf size fmt args strings (omega arith))
          ∙ ap (λ (o : Outbuf). o.buf i) (format_loop_lem fmt false args 0 strings start short)
          ∙ ap (ob_puts start s).buf (sym place)
          ∙ stored i i_in,
    )
