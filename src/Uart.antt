-- ===== src/Uart.antt =====
-- The UART (riscv-os/kernel/uart.c) and the console on it (riscv-os/kernel/console.c). The device is
-- what the readings of its line status register give, one after the other.
pub mod Sending
use Prim.Native.Nat.{bit_and, bit_or}
use os.Common.{
  ℕ, zero, suc, ◌+◌, ◌*◌, ◌%◌, ◌^◌, true, false, if◌then◌else◌, ◌==◌, List, [], ◌∷◌, ◌++◌, M, pure,
  get, modify, spin, ◌>>=◌, ◌>>◌,
}

abbrev pub thr : ℕ
thr = 0

abbrev pub ier : ℕ
ier = 1

abbrev pub fcr : ℕ
fcr = 2

abbrev pub lcr : ℕ
lcr = 3

abbrev pub lsr : ℕ
lsr = 5

abbrev pub fcr_fifo_enable : ℕ
fcr_fifo_enable = 1

abbrev pub fcr_fifo_clear : ℕ
fcr_fifo_clear = 3 * 2

abbrev pub lcr_eight_bits : ℕ
lcr_eight_bits = 3

abbrev pub lcr_baud_latch : ℕ
lcr_baud_latch = 2 ^ 7

abbrev pub lsr_tx_idle : ℕ
lsr_tx_idle = 2 ^ 5

pub record Write : Type 0 where
  pub reg : ℕ
  pub value : ℕ

-- The number of readings of the line status register, and the writes to the registers in order.
pub record Uart : Type 0 where
  pub reads : ℕ
  pub writes : List Write

-- What the line status register gives at each reading, and how often a loop may read it.
pub record Device : Type 0 where
  pub status : ℕ → ℕ
  pub patience : ℕ

-- `value` is an `unsigned char`.
unfoldable pub uart_write_reg : ℕ → ℕ → M Uart (Unit {0})
uart_write_reg reg value =
    modify (λ u. record u { writes = u.writes ++ record { reg = reg; value = value % 256 } ∷ [] })

unfoldable pub uart_init : M Uart (Unit {0})
unfolding uart_write_reg
uart_init = do
  uart_write_reg ier 0
  uart_write_reg lcr lcr_baud_latch
  uart_write_reg 0 3
  uart_write_reg 1 0
  uart_write_reg lcr lcr_eight_bits
  uart_write_reg fcr (bit_or fcr_fifo_enable fcr_fifo_clear)

-- `while ((uart_read_reg(LSR) & LSR_TX_IDLE) == 0)`, for the rounds left.
unfoldable pub uart_wait : ℕ → Device → M Uart (Unit {0})
uart_wait zero d = spin
uart_wait (suc rounds) d = do
  u ← get
  modify (λ v. record v { reads = v.reads + 1 })
  if bit_and (d.status u.reads) lsr_tx_idle == 0 then uart_wait rounds d else pure tt

unfoldable pub uart_putc : Device → ℕ → M Uart (Unit {0})
unfolding uart_wait uart_write_reg
uart_putc d c = uart_wait d.patience d >> uart_write_reg thr c

-- A string is the list of its characters up to the final 0; `\n` is sent as `\r\n`.
unfoldable pub uart_puts : Device → List ℕ → M Uart (Unit {0})
unfolding uart_putc
uart_puts d [] = pure tt
uart_puts d (c ∷ s) = do (if c == 10 then uart_putc d 13 else pure tt); uart_putc d c; uart_puts d s

abbrev pub backspace : ℕ
backspace = 256

-- `c` is an `int`.
unfoldable pub console_putc : Device → ℕ → M Uart (Unit {0})
unfolding uart_putc
console_putc d c =
    if c == backspace
    then (do uart_putc d 8; uart_putc d 32; uart_putc d 8)
    else uart_putc d (c % 256)

unfoldable pub console_puts : Device → List ℕ → M Uart (Unit {0})
unfolding console_putc
console_puts d [] = pure tt
console_puts d (c ∷ s) = console_putc d (c % 256) >> console_puts d s

-- `\x1b[2J\x1b[H`
unfoldable pub clear_screen : Device → M Uart (Unit {0})
unfolding console_puts
clear_screen d = console_puts d (27 ∷ 91 ∷ 50 ∷ 74 ∷ 27 ∷ 91 ∷ 72 ∷ [])

unfoldable pub console_init : M Uart (Unit {0})
unfolding uart_init
console_init = uart_init
