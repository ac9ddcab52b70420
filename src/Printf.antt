-- ===== src/Printf.antt =====
-- The printing of riscv-os/kernel/printf.c, on the console. Strings, arguments and digits are as in
-- the formatter of klog.c.
pub mod Text
pub mod Sends
pub mod Agreement
use os.Common.{
  ℕ, zero, suc, ◌+◌, ◌-◌, ◌*◌, ◌/◌, ◌%◌, ◌^◌, Bool, true, false, ◌&&◌, if◌then◌else◌, leb, ◌==◌,
  List, [], ◌∷◌, M, pure, spin, ◌>>=◌, ◌>>◌,
}
use os.Klog.Format.{digit, signed_arg, null_text, takes}
use os.Uart.{Device, Uart, console_putc}

-- `while (*s) console_putc(*s++);`, and the loop over the digits in `buf`.
unfoldable pub put_all : Device → List ℕ → M Uart (Unit {0})
put_all d [] = pure tt
put_all d (c ∷ s) = console_putc d c >> put_all d s

-- The digits that `buf` gets, the last one first, before the ones that are there; it has 32 places.
unfoldable pub push_digits : ℕ → ℕ → ℕ → List ℕ → List ℕ
push_digits zero x base buf = buf
push_digits (suc places) x base buf = elim (x / base == 0) [
  | true ↦ digit (x % base) ∷ buf
  | false ↦ push_digits places (x / base) base (digit (x % base) ∷ buf)
]

-- `xx` is a `long long`, as its 64-bit word.
unfoldable pub printint : Device → ℕ → ℕ → Bool → M Uart (Unit {0})
unfolding put_all push_digits
printint d xx base sign =
    if sign && leb (2 ^ 63) xx
    then put_all d (45 ∷ push_digits 32 ((2 ^ 64 - xx) % 2 ^ 64) base [])
    else put_all d (push_digits 32 xx base [])

-- The loop of printptr, for the rounds left.
unfoldable pub printptr_loop : ℕ → Device → ℕ → M Uart (Unit {0})
printptr_loop zero d x = pure tt
printptr_loop (suc rounds) d x =
    console_putc d (digit (x / 2 ^ 60)) >> printptr_loop rounds d (x * 2 ^ 4 % 2 ^ 64)

unfoldable pub printptr : Device → ℕ → M Uart (Unit {0})
unfolding printptr_loop
printptr d x = do console_putc d 48; console_putc d 120; printptr_loop 16 d x

-- The switch on the conversion `c`, whose argument is `w`.
unfoldable pub print_arg : Device → ℕ → ℕ → (ℕ → List ℕ) → M Uart (Unit {0})
unfolding printint printptr put_all
print_arg d c w strings =
    if c == 100
    then printint d (signed_arg false w) 10 true
    else if c == 117
    then printint d (w % 2 ^ 32) 10 false
    else if c == 120
    then printint d (w % 2 ^ 32) 16 false
    else if c == 112
    then printptr d w
    else if c == 115
    then put_all d (if w == 0 then null_text else strings w)
    else if c == 99
    then console_putc d (w % 2 ^ 32)
    else if c == 37
    then console_putc d 37
    else console_putc d 37 >> console_putc d c

-- The loop, in the text or behind `%`, with the arguments from number `k` on left.
unfoldable pub printf_loop : Device → List ℕ → Bool → (ℕ → ℕ) → ℕ → (ℕ → List ℕ) → M Uart (Unit {0})
unfolding print_arg
printf_loop d [] percent args k strings = pure tt
printf_loop d (c ∷ p) false args k strings = elim (c == 37) [
  | true ↦ printf_loop d p true args k strings
  | false ↦ console_putc d c >> printf_loop d p false args k strings
]
printf_loop d (c ∷ p) true args k strings =
    print_arg d c (args k) strings
    >> printf_loop d p false args (if takes c then k + 1 else k) strings

unfoldable pub printf : Device → List ℕ → (ℕ → ℕ) → (ℕ → List ℕ) → M Uart ℕ
unfolding printf_loop
printf d fmt args strings = printf_loop d fmt false args 0 strings >> pure 0

-- `panic: %s\n`
abbrev pub panic_format : List ℕ
panic_format = 112 ∷ 97 ∷ 110 ∷ 105 ∷ 99 ∷ 58 ∷ 32 ∷ 37 ∷ 115 ∷ 10 ∷ []

-- panic of printf.c, with the address of its message: it prints and never ends.
unfoldable pub print_panic : Device → ℕ → (ℕ → List ℕ) → M Uart (Unit {0})
unfolding printf
print_panic d s strings = printf d panic_format (λ _. s) strings >>= λ _. spin
