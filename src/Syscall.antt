-- ===== src/Syscall.antt =====
-- src/kernel/syscall.c: `sys_write` and the dispatcher `do_syscall`, over the UART. `regs` are the
-- registers that the caller's stack frame has; the handler in front of it is assembly.
pub mod Laws
mod Tests
use open_gpos.Base.{ℕ, ◌-◌, ◌^◌, Option, some, List, [], ◌∷◌, get_or, ◌==◌, if◌then◌else◌}
use open_gpos.Str.Memory.{◌>>=◌}
use open_gpos.Uart.{Uart, uart_puts, uart_tx_str, uart_tx_dec}

-- `SYS_WRITE`
abbrev pub sys_write_number : ℕ
sys_write_number = 1

-- `Unknown syscall number: `
abbrev pub unknown_syscall : List ℕ
unknown_syscall =
    85 ∷ 110 ∷ 107 ∷ 110 ∷ 111 ∷ 119 ∷ 110 ∷ 32 ∷ 115 ∷ 121 ∷ 115 ∷ 99 ∷ 97 ∷ 108 ∷ 108 ∷ 32 ∷ 110
    ∷ 117 ∷ 109 ∷ 98 ∷ 101 ∷ 114 ∷ 58 ∷ 32 ∷ 0 ∷ []

abbrev pub line_end : List ℕ
line_end = 13 ∷ 10 ∷ 0 ∷ []

module _ (fuel : ℕ) (mem : ℕ → ℕ) where
  -- `sys_write`
  unfoldable pub sys_write : ℕ → ℕ → ℕ → Uart → Option (ℕ × Uart)
  sys_write fd buf count s = do s' ← uart_puts fuel mem buf count s; some (count, s')

  -- the branch of `do_syscall` for other numbers
  unfoldable pub report : ℕ → Uart → Option (ℕ × Uart)
  report syscall_num s = do
    s1 ← uart_tx_str fuel unknown_syscall s
    s2 ← uart_tx_dec fuel syscall_num s1
    s3 ← uart_tx_str fuel line_end s2
    some (2 ^ 32 - 2, s3)

  -- `do_syscall`: its result, an `int` of 32 bits
  unfoldable pub do_syscall : List ℕ → ℕ → Uart → Option (ℕ × Uart)
  do_syscall regs syscall_num s =
      if syscall_num == sys_write_number
      then sys_write (get_or regs 0 0) (get_or regs 1 0) (get_or regs 2 0) s
      else report syscall_num s
