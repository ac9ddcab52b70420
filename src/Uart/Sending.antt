-- ===== src/Uart/Sending.antt =====
-- What the console sends, where the device gets ready again and again.
use Prim.Native.Nat.{bit_and}
use os.Common.{
  ℕ, zero, suc, ◌+◌, ◌%◌, ◌<◌, ◌≡◌, ◌≢◌, refl, sym, ap, ◌∙◌, subst, inl, inr, arith, true, false,
  ◌==◌, ◌>>◌, Bool-cases, ne→==, List, [], ◌∷◌, ◌++◌, map, M, Run, ok, and_then,
}
use os.Uart.{
  Device, Uart, Write, thr, lsr_tx_idle, uart_wait, uart_write_reg, uart_putc, console_putc,
  backspace,
}

-- Of as many readings on end as a loop may take, one finds the transmitter idle.
abbrev pub IsReady : Device → Type 0
IsReady d = (n : ℕ) → (k : ℕ) × (k < d.patience) × (bit_and (d.status (n + k)) lsr_tx_idle ≢ 0)

-- The characters have been sent, and nothing else was written to the device.
abbrev pub sent : List ℕ → List Write
sent = map (λ c. record { reg = thr; value = c })

abbrev pub Sends : M Uart (Unit {0}) → List ℕ → Type 0
Sends m text = (u : Uart) → (t : Uart) × (m u ≡ ok tt t) × (t.writes ≡ u.writes ++ sent text)

uart_wait_lem :
    (rounds k : ℕ) (d : Device) (u : Uart)
    → k < rounds
    → bit_and (d.status (u.reads + k)) lsr_tx_idle ≢ 0
    → (n : ℕ) × (uart_wait rounds d u ≡ ok tt (record u { reads = n }))
unfolding uart_wait
uart_wait_lem zero k d u h idle = absurd (omega arith)
uart_wait_lem (suc rounds) k d u h idle =
    elim (Bool-cases (bit_and (d.status u.reads) lsr_tx_idle == 0)) [
      | inr now ↦ (u.reads + 1, rw now refl)
      | inl busy ↦
          let next : (j : ℕ) × (u.reads + k ≡ u.reads + 1 + j) × (j < rounds) =
            later k h idle busy in
          let (j, e, j_in) = next in
          let (n, run) =
            uart_wait_lem rounds j d (record u { reads = u.reads + 1 }) j_in
              (subst (λ m. bit_and (d.status m) lsr_tx_idle ≢ 0) e idle) in
          (n, rw busy run)
    ]
  where
    later :
        (k : ℕ)
        → k < suc rounds
        → bit_and (d.status (u.reads + k)) lsr_tx_idle ≢ 0
        → (bit_and (d.status u.reads) lsr_tx_idle == 0) ≡ true
        → (j : ℕ) × (u.reads + k ≡ u.reads + 1 + j) × (j < rounds)
    later zero h idle busy =
        let e : u.reads + 0 ≡ u.reads = omega arith in
        absurd (
          cc (
            ne→== (bit_and (d.status (u.reads + 0)) lsr_tx_idle) 0 idle,
            busy,
            ap (λ m. bit_and (d.status m) lsr_tx_idle == 0) e,
          ))
    later (suc k) h idle busy = (k, omega arith, omega arith)

-- A character that is sent.
pub uart_putc-Sends : (d : Device) (c : ℕ) → IsReady d → Sends (uart_putc d c) (c % 256 ∷ [])
unfolding uart_putc uart_write_reg
uart_putc-Sends d c ready u =
    let (k, k_in, idle) = ready u.reads in
    let (n, run) = uart_wait_lem d.patience k d u k_in idle in
    (record { reads = n; writes = u.writes ++ sent (c % 256 ∷ []) }, rw run refl, refl)

sent-append : (xs ys : List ℕ) → sent (xs ++ ys) ≡ sent xs ++ sent ys
sent-append [] ys = refl
sent-append (x ∷ xs) ys = ap (λ l. record { reg = thr; value = x } ∷ l) (sent-append xs ys)

append_assoc : (xs ys zs : List Write) → (xs ++ ys) ++ zs ≡ xs ++ (ys ++ zs)
append_assoc [] ys zs = refl
append_assoc (x ∷ xs) ys zs = ap (λ l. x ∷ l) (append_assoc xs ys zs)

append_nil : (xs : List Write) → xs ++ [] ≡ xs
append_nil [] = refl
append_nil (x ∷ xs) = ap (λ l. x ∷ l) (append_nil xs)

pub nothing-Sends : Sends (λ u. ok tt u) []
nothing-Sends u = (u, refl, sym (append_nil u.writes))

-- One sends after the other.
pub then-Sends :
    (m n : M Uart (Unit {0})) (xs ys : List ℕ) → Sends m xs → Sends n ys → Sends (m >> n) (xs ++ ys)
then-Sends m n xs ys a b u =
    let (t, run, w) = a u in
    let (v, run', w') = b t in
    (
      v,
      ap (λ (r : Run Uart (Unit {0})). and_then r (λ _. n)) run ∙ run',
      w'
          ∙ ap (λ l. l ++ sent ys) w
          ∙ append_assoc u.writes (sent xs) (sent ys)
          ∙ ap (λ l. u.writes ++ l) (sym (sent-append xs ys)),
    )

pub console_putc-Sends :
    (d : Device) (c : ℕ) → IsReady d → c < 256 → Sends (console_putc d c) (c ∷ [])
unfolding console_putc
console_putc-Sends d c ready small u =
    let other : (c == backspace) ≡ false = ground arith in
    let byte : c % 256 % 256 ≡ c = omega arith in
    let (t, run, w) = uart_putc-Sends d (c % 256) ready u in
    (t, rw other run, w ∙ ap (λ x. u.writes ++ sent (x ∷ [])) byte)
