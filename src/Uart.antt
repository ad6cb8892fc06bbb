-- ===== src/Uart.antt =====
-- src/driver/uart/uart.c over its registers: each read of the flag register gives the next element of
-- an arbitrary sequence, and so does each read of the data register; what is written to the data
-- register is kept. The waits of the source have no bound, so that the fuel counts the reads of the
-- flag register in one wait. A string is the list of its characters and its 0.
pub mod Wait
pub mod Laws
mod Tests
use open_gpos.Base.{
  ℕ, zero, suc, ◌+◌, ◌-◌, ◌*◌, ◌/◌, ◌^◌, Option, none, some, List, [], ◌∷◌, ◌++◌, u8, u32, bit_and,
  bit_or, ◌<<<◌, ◌>>>◌, ◌==◌, ◌!=◌, if◌then◌else◌,
}
use open_gpos.Poll.{poll}
use open_gpos.Str.Memory.{◌>>=◌}
use open_gpos.HexUtils.{byte_to_str, byte_to_dec, hex_to_str, int_to_dec}

pub record Uart : Type 0 where
  pub flags : ℕ → ℕ
  pub flags_read : ℕ
  pub received : ℕ → ℕ
  pub taken : ℕ
  pub sent : List ℕ

-- `while ((uart_hw->FR & mask) != 0);`
unfoldable pub wait_flag : ℕ → ℕ → Uart → Option Uart
wait_flag fuel mask s = do
  p ← poll fuel (λ fr. bit_and fr mask != 0) s.flags s.flags_read
  some (record s { flags_read = p })

module _ (fuel : ℕ) where
  -- `uartTx`
  unfoldable pub uart_tx : ℕ → Uart → Option Uart
  uart_tx x s = do s' ← wait_flag fuel (2 ^ 5) s; some (record s' { sent = s'.sent ++ (x ∷ []) })

  -- `uart_puts`
  unfoldable pub uart_puts : (ℕ → ℕ) → ℕ → ℕ → Uart → Option Uart
  uart_puts mem str zero s = some s
  uart_puts mem str (suc len) s = do s' ← uart_tx (mem str) s; uart_puts mem (str + 1) len s'

  -- `uartTxStr`
  unfoldable pub uart_tx_str : List ℕ → Uart → Option Uart
  uart_tx_str [] s = some s
  uart_tx_str (c ∷ cs) s =
      let rest = (do s' ← uart_tx c s; uart_tx_str cs s') in if c != 0 then rest else some s

  -- `uartRx`
  unfoldable pub uart_rx : Uart → Option (ℕ × Uart)
  uart_rx s = do
    s' ← wait_flag fuel (2 ^ 4) s
    some (u8 (s'.received s'.taken), record s' { taken = s'.taken + 1 })

  -- `uartRxStr`: what it puts into its buffer, which has no size; the second fuel bounds the characters
  unfoldable pub uart_rx_str : ℕ → Uart → Option (List ℕ × Uart)
  uart_rx_str zero s = none
  uart_rx_str (suc count) s = do
    r ← uart_rx s
    let (dat, s') = r
    if dat == 0x0d
        then some (0 ∷ [], s')
        else do rest ← uart_rx_str count s'; some (dat ∷ rest.0, rest.1)

  -- `uartTxHexByte`, `uartTxDecByte`, `uartTxHex` and `uartTxDec`
  unfoldable pub uart_tx_hex_byte : ℕ → Uart → Option Uart
  uart_tx_hex_byte byte = uart_tx_str (byte_to_str byte)

  unfoldable pub uart_tx_dec_byte : ℕ → Uart → Option Uart
  uart_tx_dec_byte byte = uart_tx_str (byte_to_dec byte)

  unfoldable pub uart_tx_hex : ℕ → Uart → Option Uart
  uart_tx_hex n = uart_tx_str (hex_to_str n)

  unfoldable pub uart_tx_dec : ℕ → Uart → Option Uart
  uart_tx_dec n = uart_tx_str (int_to_dec n)

abbrev pub clk_sys_hz : ℕ
clk_sys_hz = 200_000_000

-- The divisors that `uart_init` computes: of the clock, and its 64ths.
pub record Divisors : Type 0 where
  pub ibrd : ℕ
  pub fbrd : ℕ

unfoldable pub divisors : ℕ → Divisors
divisors baud_rate =
    let baud_rate_div = 8 * clk_sys_hz / baud_rate in
    let ibrd = baud_rate_div >>> 7 in
    if ibrd == 0
    then record { ibrd = 1; fbrd = 0 }
    else record { ibrd = ibrd; fbrd = (bit_and baud_rate_div 0x7f + 1) >>> 1 }

-- the registers that `uart_init` writes
pub data Register : Type 0 where
  ibrd_register fbrd_register lcr_h lcr : Register
  gpio_ctrl : ℕ → Register

-- `uart_init`: its writes
unfoldable pub uart_init : ℕ → List (Register × ℕ)
unfolding divisors
uart_init baud_rate =
    let d = divisors baud_rate in
    (ibrd_register, d.ibrd)
    ∷ (fbrd_register, d.fbrd)
    ∷ (lcr_h, bit_or (0x3 <<< 5) (1 <<< 4))
    ∷ (lcr, bit_or (bit_or (1 <<< 9) (1 <<< 8)) (1 <<< 0))
    ∷ (gpio_ctrl 0, 2)
    ∷ (gpio_ctrl 1, 2)
    ∷ []
