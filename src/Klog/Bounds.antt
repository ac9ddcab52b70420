-- ===== src/Klog/Bounds.antt =====
-- The formatter of riscv-os/kernel/klog.c stays in its buffer and ends it with a 0.
use os.Common.{
  ℕ, zero, suc, ◌+◌, ◌-◌, ◌*◌, ◌/◌, ◌%◌, ◌^◌, ◌≤◌, ◌<◌, ◌≡◌, inl, inr, refl, ◌∙◌, arith, Bool, true,
  false, if◌then◌else◌, ◌==◌, ltb, leb, ◌||◌, Bool-cases, update, List, [], ◌∷◌,
}
use os.Klog.{KlogEntry, Message, fill_entry, tag_text, fmt_text, klog_maxtag, klog_maxmsg}
use os.Klog.Format.{
  Chars, Outbuf, Mode, plain, percent, long, longlong, strncpy0, strncpy0_loop, ob_putc, ob_puts,
  ob_put_uint, ob_put_int, ob_put_nibbles, digits_of, digit, convert, takes, signed_arg,
  unsigned_arg, null_text, format_loop, kvsnprintf_local,
}

-- The buffer holds a string that ends inside of it, and the memory behind it is as in `old`.
pub record IsOut (old : Chars) (cap : ℕ) (ob : Outbuf) : Type 0 where
  pub same : ob.cap ≡ cap
  pub room : ob.len < cap
  pub ended : ob.buf ob.len ≡ 0
  pub beyond : (j : ℕ) → cap ≤ j → ob.buf j ≡ old j

module _ (old : Chars) (cap : ℕ) where
  ob_putc-IsOut : (ob : Outbuf) (c : ℕ) → IsOut old cap ob → IsOut old cap (ob_putc ob c)
  unfolding ob_putc
  ob_putc-IsOut ob c g = elim (Bool-cases ((ob.cap == 0) || leb ob.cap (ob.len + 1))) [
    | inl full ↦ rw full g
    | inr free ↦ rw free (record {
      same = g.same;
      room = ground (arith, g.same);
      ended = ground arith;
      beyond = λ j h. ground (arith, g.beyond j h, g.same, g.room);
    })
  ]

  ob_puts-IsOut : (s : List ℕ) (ob : Outbuf) → IsOut old cap ob → IsOut old cap (ob_puts ob s)
  unfolding ob_puts
  ob_puts-IsOut [] ob g = g
  ob_puts-IsOut (c ∷ s) ob g = ob_puts-IsOut s (ob_putc ob c) (ob_putc-IsOut ob c g)

  ob_put_uint-IsOut :
      (ob : Outbuf) (x base : ℕ) → IsOut old cap ob → IsOut old cap (ob_put_uint ob x base)
  unfolding ob_put_uint
  ob_put_uint-IsOut ob x base g =
      ob_puts-IsOut (digits_of 32 x (if ltb base 2 then 10 else base) []) ob g

  ob_put_int-IsOut : (ob : Outbuf) (x : ℕ) → IsOut old cap ob → IsOut old cap (ob_put_int ob x)
  unfolding ob_put_int
  ob_put_int-IsOut ob x g = elim (Bool-cases (leb (2 ^ 63) x)) [
    | inl negative ↦
        rw negative
          (ob_put_uint-IsOut (ob_putc ob 45) ((2 ^ 64 - x) % 2 ^ 64) 10 (ob_putc-IsOut ob 45 g))
    | inr other ↦ rw other (ob_put_uint-IsOut ob x 10 g)
  ]

  ob_put_nibbles-IsOut :
      (rounds i v : ℕ) (ob : Outbuf)
      → IsOut old cap ob
      → IsOut old cap (ob_put_nibbles rounds i v ob)
  unfolding ob_put_nibbles
  ob_put_nibbles-IsOut zero i v ob g = g
  ob_put_nibbles-IsOut (suc rounds) i v ob g =
      let c = digit ((v / 2 ^ ((15 - i) * 4)) % 16) in
      ob_put_nibbles-IsOut rounds (i + 1) v (ob_putc ob c) (ob_putc-IsOut ob c g)

  -- A conditional is in bounds if both its branches are.
  if-IsOut :
      (b : Bool) (x y : Outbuf)
      → IsOut old cap x
      → IsOut old cap y
      → IsOut old cap (if b then x else y)
  if-IsOut true x y g h = g
  if-IsOut false x y g h = h

  convert-IsOut :
      (l : Bool) (c w : ℕ) (strings : ℕ → List ℕ) (ob : Outbuf)
      → IsOut old cap ob
      → IsOut old cap (convert l c w strings ob)
  unfolding convert
  convert-IsOut l c w strings ob g =
      if-IsOut (c == 100) _ _ (ob_put_int-IsOut ob (signed_arg l w) g) (
        if-IsOut (c == 117) _ _ (ob_put_uint-IsOut ob (unsigned_arg l w) 10 g) (
          if-IsOut (c == 120) _ _ (ob_put_uint-IsOut ob (unsigned_arg l w) 16 g) (
            if-IsOut (c == 112) _ _
              (ob_put_nibbles-IsOut 16 0 w (ob_puts ob (48 ∷ 120 ∷ []))
                (ob_puts-IsOut (48 ∷ 120 ∷ []) ob g))
              (if-IsOut (c == 115) _ _
                (ob_puts-IsOut (if w == 0 then null_text else strings w) ob g)
                (if-IsOut (c == 99) _ _ (ob_putc-IsOut ob (w % 256) g) (
                  if-IsOut (c == 37) _ _ (ob_putc-IsOut ob 37 g)
                    (ob_putc-IsOut (ob_putc ob 37) c (ob_putc-IsOut ob 37 g))))))))

  format_loop-IsOut :
      (p : List ℕ) (mode : Mode) (args : ℕ → ℕ) (k : ℕ) (strings : ℕ → List ℕ) (ob : Outbuf)
      → IsOut old cap ob
      → IsOut old cap (format_loop p mode args k strings ob)
  unfolding format_loop
  format_loop-IsOut [] mode args k strings ob g = g
  format_loop-IsOut (c ∷ p) plain args k strings ob g = elim (Bool-cases (c == 37)) [
    | inl same ↦ rw (same, format_loop) (format_loop-IsOut p percent args k strings ob g)
    | inr other ↦
        rw (other, format_loop)
          (format_loop-IsOut p plain args k strings (ob_putc ob c) (ob_putc-IsOut ob c g))
  ]
  format_loop-IsOut (c ∷ p) percent args k strings ob g = elim (Bool-cases (c == 108)) [
    | inl same ↦ rw (same, format_loop) (format_loop-IsOut p long args k strings ob g)
    | inr other ↦
        rw (other, format_loop)
          (format_loop-IsOut p plain args (if takes c then k + 1 else k) strings
            (convert false c (args k) strings ob) (convert-IsOut false c (args k) strings ob g))
  ]
  format_loop-IsOut (c ∷ p) long args k strings ob g = elim (Bool-cases (c == 108)) [
    | inl same ↦ rw (same, format_loop) (format_loop-IsOut p longlong args k strings ob g)
    | inr other ↦
        rw (other, format_loop)
          (format_loop-IsOut p plain args (if takes c then k + 1 else k) strings
            (convert true c (args k) strings ob) (convert-IsOut true c (args k) strings ob g))
  ]
  format_loop-IsOut (c ∷ p) longlong args k strings ob g =
      format_loop-IsOut p plain args (if takes c then k + 1 else k) strings
        (convert true c (args k) strings ob) (convert-IsOut true c (args k) strings ob g)

-- The array holds a string that ends below place `max`, and is as `old` from there on.
pub record IsString (old : Chars) (max : ℕ) (r : Chars) : Type 0 where
  pub ended : (n : ℕ) × (n < max) × (r n ≡ 0)
  pub beyond : (j : ℕ) → max ≤ j → r j ≡ old j

strncpy0_loop-IsString :
    (src : List ℕ) (i max : ℕ) (dst : Chars)
    → i < max
    → IsString dst max (strncpy0_loop src i max dst)
unfolding strncpy0_loop
strncpy0_loop-IsString [] i max dst h = record {
  ended = (i, h, ground arith);
  beyond = λ j k. ground arith;
}
strncpy0_loop-IsString (c ∷ src) i max dst h = elim (Bool-cases (ltb (i + 1) max)) [
  | inl more ↦
      let g = strncpy0_loop-IsString src (i + 1) max (update dst i c) (ground arith) in
      rw (more, strncpy0_loop)
        (record { ended = g.ended; beyond = λ j k. g.beyond j k ∙ (ground arith) })
  | inr full ↦
      rw (full, strncpy0_loop)
        (record { ended = (i, h, ground arith); beyond = λ j k. ground arith })
]

kvsnprintf_local-IsString :
    (buf : Chars) (cap : ℕ) (fmt : List ℕ) (args : ℕ → ℕ) (strings : ℕ → List ℕ)
    → 0 < cap
    → IsString buf cap (kvsnprintf_local buf cap fmt args strings)
unfolding kvsnprintf_local
kvsnprintf_local-IsString buf cap fmt args strings h =
    let some : (cap == 0) ≡ false = ground arith in
    rw (some, kvsnprintf_local)
      (let start : Outbuf = record { buf = update buf 0 0; cap = cap; len = 0 } in
        let g =
          format_loop-IsOut buf cap fmt plain args 0 strings start
            (record { same = refl; room = h; ended = refl; beyond = λ j k. ground arith }) in
        record {
          ended = ((format_loop fmt plain args 0 strings start).len, g.room, g.ended);
          beyond = g.beyond;
        })

-- Whatever a message says, the entry that it makes holds a tag of less than KLOG_MAXTAG characters
-- and a text of less than KLOG_MAXMSG, each ended by a 0, and nothing is written behind the two
-- arrays.
pub fill_entry-IsString :
    (m : Message) (old : KlogEntry)
    → IsString old.tag klog_maxtag (fill_entry m old).tag
      × IsString old.msg klog_maxmsg (fill_entry m old).msg
unfolding fill_entry strncpy0
fill_entry-IsString m old = (
  strncpy0_loop-IsString (tag_text m.tag) 0 klog_maxtag old.tag (omega arith),
  kvsnprintf_local-IsString old.msg klog_maxmsg (fmt_text m.fmt) m.args m.strings (omega arith),
)
