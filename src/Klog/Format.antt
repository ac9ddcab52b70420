-- ===== src/Klog/Format.antt =====
-- The formatter of riscv-os/kernel/klog.c (strncpy0, outbuf, kvsnprintf_local). A string is the list
-- of its characters up to the final 0; the arguments are 64-bit words, and `strings` gives the
-- string at an address.
use os.Common.{
  ℕ, zero, suc, ◌+◌, ◌-◌, ◌*◌, ◌/◌, ◌%◌, ◌^◌, Bool, true, false, ◌||◌, if◌then◌else◌, ltb, leb,
  ◌==◌, update, List, [], ◌∷◌,
}

abbrev pub Chars : Type 0
Chars = ℕ → ℕ

-- The copy of a string to place `i` on, of an array of `max` places.
unfoldable pub strncpy0_loop : List ℕ → ℕ → ℕ → Chars → Chars
strncpy0_loop [] i max dst = update dst i 0
strncpy0_loop (c ∷ src) i max dst = elim (ltb (i + 1) max) [
  | true ↦ strncpy0_loop src (i + 1) max (update dst i c)
  | false ↦ update dst i 0
]

unfoldable pub strncpy0 : Chars → List ℕ → ℕ → Chars
unfolding strncpy0_loop
strncpy0 dst src max = if max == 0 then dst else strncpy0_loop src 0 max dst

pub record Outbuf : Type 0 where
  pub buf : Chars
  pub cap : ℕ
  pub len : ℕ

unfoldable pub ob_putc : Outbuf → ℕ → Outbuf
ob_putc ob c = if (ob.cap == 0) || leb ob.cap (ob.len + 1) then ob else record {
  buf = update (update ob.buf ob.len c) (ob.len + 1) 0;
  cap = ob.cap;
  len = ob.len + 1;
}

unfoldable pub ob_puts : Outbuf → List ℕ → Outbuf
unfolding ob_putc
ob_puts ob [] = ob
ob_puts ob (c ∷ s) = ob_puts (ob_putc ob c) s

-- `digits[d]`
abbrev pub digit : ℕ → ℕ
digit d = if ltb d 10 then 48 + d else 87 + d

-- The digits that `tmp` gets, last one first, before the ones in `acc`; it has 32 places.
unfoldable pub digits_of : ℕ → ℕ → ℕ → List ℕ → List ℕ
digits_of zero x base acc = acc
digits_of (suc places) x base acc = elim (x / base == 0) [
  | true ↦ digit (x % base) ∷ acc
  | false ↦ digits_of places (x / base) base (digit (x % base) ∷ acc)
]

unfoldable pub ob_put_uint : Outbuf → ℕ → ℕ → Outbuf
unfolding digits_of ob_puts
ob_put_uint ob x base = ob_puts ob (digits_of 32 x (if ltb base 2 then 10 else base) [])

-- `-`; the number is a 64-bit word.
unfoldable pub ob_put_int : Outbuf → ℕ → Outbuf
unfolding ob_put_uint ob_putc
ob_put_int ob x =
    if leb (2 ^ 63) x
    then ob_put_uint (ob_putc ob 45) ((2 ^ 64 - x) % 2 ^ 64) 10
    else ob_put_uint ob x 10

-- The sixteen hexadecimal digits of %p, for the rounds left from `i`.
unfoldable pub ob_put_nibbles : ℕ → ℕ → ℕ → Outbuf → Outbuf
unfolding ob_putc
ob_put_nibbles zero i v ob = ob
ob_put_nibbles (suc rounds) i v ob =
    ob_put_nibbles rounds (i + 1) v (ob_putc ob (digit ((v / 2 ^ ((15 - i) * 4)) % 16)))

-- `(int64)va_arg(ap, int)`, and the argument itself with `l`.
abbrev pub signed_arg : Bool → ℕ → ℕ
signed_arg true w = w
signed_arg false w =
    if ltb (w % 2 ^ 32) (2 ^ 31) then w % 2 ^ 32 else w % 2 ^ 32 + (2 ^ 64 - 2 ^ 32)

abbrev pub unsigned_arg : Bool → ℕ → ℕ
unsigned_arg true w = w
unsigned_arg false w = w % 2 ^ 32

-- `(null)`
abbrev pub null_text : List ℕ
null_text = 40 ∷ 110 ∷ 117 ∷ 108 ∷ 108 ∷ 41 ∷ []

-- The switch on the conversion `c`, whose argument is `w`.
unfoldable pub convert : Bool → ℕ → ℕ → (ℕ → List ℕ) → Outbuf → Outbuf
unfolding ob_put_int ob_put_uint ob_put_nibbles ob_puts ob_putc
convert long c w strings ob =
    if c == 100
    then ob_put_int ob (signed_arg long w)
    else if c == 117
    then ob_put_uint ob (unsigned_arg long w) 10
    else if c == 120
    then ob_put_uint ob (unsigned_arg long w) 16
    else if c == 112
    then ob_put_nibbles 16 0 w (ob_puts ob (48 ∷ 120 ∷ []))
    else if c == 115
    then ob_puts ob (if w == 0 then null_text else strings w)
    else if c == 99
    then ob_putc ob (w % 256)
    else if c == 37
    then ob_putc ob 37
    else ob_putc (ob_putc ob 37) c

-- Does the conversion take an argument?
abbrev pub takes : ℕ → Bool
takes c = (c == 100) || (c == 117) || (c == 120) || (c == 112) || (c == 115) || (c == 99)

-- Where the loop stands: in the text, behind `%`, `%l` or `%ll`.
pub data Mode : Type 0 where
  plain : Mode
  percent : Mode
  long : Mode
  longlong : Mode

-- The loop, with the arguments from number `k` on left.
unfoldable pub format_loop : List ℕ → Mode → (ℕ → ℕ) → ℕ → (ℕ → List ℕ) → Outbuf → Outbuf
unfolding convert ob_putc
format_loop [] mode args k strings ob = ob
format_loop (c ∷ p) plain args k strings ob = elim (c == 37) [
  | true ↦ format_loop p percent args k strings ob
  | false ↦ format_loop p plain args k strings (ob_putc ob c)
]
format_loop (c ∷ p) percent args k strings ob = elim (c == 108) [
  | true ↦ format_loop p long args k strings ob
  | false ↦
      format_loop p plain args (if takes c then k + 1 else k) strings
        (convert false c (args k) strings ob)
]
format_loop (c ∷ p) long args k strings ob = elim (c == 108) [
  | true ↦ format_loop p longlong args k strings ob
  | false ↦
      format_loop p plain args (if takes c then k + 1 else k) strings
        (convert true c (args k) strings ob)
]
format_loop (c ∷ p) longlong args k strings ob =
    format_loop p plain args (if takes c then k + 1 else k) strings
      (convert true c (args k) strings ob)

unfoldable pub kvsnprintf_local : Chars → ℕ → List ℕ → (ℕ → ℕ) → (ℕ → List ℕ) → Chars
unfolding format_loop
kvsnprintf_local buf cap fmt args strings =
    let cleared = if cap == 0 then buf else update buf 0 0 in
    (format_loop fmt plain args 0 strings (record { buf = cleared; cap = cap; len = 0 })).buf
