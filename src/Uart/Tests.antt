-- ===== src/Uart/Tests.antt =====
-- A receiver that is always ready and gives `ab` and a carriage return, and a baud rate.
use open_gpos.Base.{
  ℕ, u8, ◌<◌, ◌≢◌, ◌+◌, ◌^◌, ◌≡◌, refl, arith, some, [], ◌∷◌, ◌++◌, if◌then◌else◌, ◌==◌,
}
use open_gpos.Uart.{Uart, uart_rx_str}
use open_gpos.Uart.Wait.{Drains}
use open_gpos.Uart.Laws.{line, uart_rx_str-line}

abbrev typed : ℕ → ℕ
typed i = if i == 0 then 97 else if i == 1 then 98 else 13

abbrev ready : Uart
ready = record { flags = λ p. 0; flags_read = 0; received = typed; taken = 0; sent = [] }

drains : Drains 1 (2 ^ 4) ready.flags
drains p = (0, omega arith, refl)

no_return : (i : ℕ) → i < 2 → u8 (typed (0 + i)) ≢ 0x0d
no_return i low = ground arith

uart_rx_str-line_example :
    (p : ℕ) × (uart_rx_str 1 9 ready
      ≡ some (line typed 0 2 ++ (0 ∷ []), record ready { flags_read = p; taken = 3 }))
uart_rx_str-line_example = uart_rx_str-line 1 9 2 ready drains (omega arith) refl no_return
