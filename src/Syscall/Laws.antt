-- ===== src/Syscall/Laws.antt =====
-- What `do_syscall` of src/kernel/syscall.c sends and returns.
use open_gpos.Base.{
  ℕ, ◌-◌, ◌^◌, ◌<◌, ◌≡◌, ◌≢◌, refl, ap, ◌∙◌, arith, some, List, ◌∷◌, ◌++◌, ◌==◌, false,
  append_assoc,
}
use open_gpos.Fat32.Device.{span}
use open_gpos.HexUtils.Laws.{shown, IsDecimal, IsCanonical}
use open_gpos.Uart.{Uart}
use open_gpos.Uart.Wait.{Drains}
use open_gpos.Uart.Laws.{uart_puts-Sends, uart_tx_str-Sends, uart_tx_dec-Sends, until_zero}
use open_gpos.Syscall.{sys_write, report, do_syscall, sys_write_number, unknown_syscall, line_end}

-- The system call `SYS_WRITE`, where the transmitter is ready in one of any `bound` reads of its
-- flags, ends: it sends the bytes of the caller's buffer, in order and nothing else, and returns how
-- many they are, whatever the file descriptor.
pub do_syscall-sys_write :
    (bound : ℕ) (mem : ℕ → ℕ) (fd buf count : ℕ) (regs : List ℕ) (s : Uart)
    → Drains bound (2 ^ 5) s.flags
    → (p : ℕ) × (do_syscall bound mem (fd ∷ buf ∷ count ∷ regs) sys_write_number s
        ≡ some (count, record s { flags_read = p; sent = s.sent ++ span mem buf count }))
unfolding do_syscall sys_write
do_syscall-sys_write bound mem fd buf count regs s drains =
    let (p, run) = uart_puts-Sends bound mem buf count s drains in (p, rw run refl)

-- Another system call, of a number of 32 bits and on such a transmitter, ends: it sends a message with
-- the characters of the decimal digits of its number, with no 0 in front of them, and returns -2.
pub do_syscall-unknown :
    (bound : ℕ) (mem : ℕ → ℕ) (regs : List ℕ) (syscall_num : ℕ) (s : Uart)
    → Drains bound (2 ^ 5) s.flags
    → syscall_num < 2 ^ 32
    → syscall_num ≢ sys_write_number
    → (p : ℕ) × (ds : List ℕ) × IsDecimal syscall_num ds
      × IsCanonical ds
      × (do_syscall bound mem regs syscall_num s
          ≡ some (
            2 ^ 32 - 2,
            record s {
              flags_read = p;
              sent = s.sent ++ (until_zero unknown_syscall ++ (shown ds ++ until_zero line_end));
            },
          ))
unfolding do_syscall report
do_syscall-unknown bound mem regs syscall_num s drains small other =
    let off : (syscall_num == sys_write_number) ≡ false = ground arith in
    let (p1, run1) = uart_tx_str-Sends bound unknown_syscall s drains in
    let s1 : Uart = record s { flags_read = p1; sent = s.sent ++ until_zero unknown_syscall } in
    let (ds, decimal, canonical, (p2, run2)) =
      uart_tx_dec-Sends bound syscall_num s1 drains small in
    let digits = shown ds in
    let s2 : Uart = record s1 { flags_read = p2; sent = s1.sent ++ digits } in
    let (p3, run3) = uart_tx_str-Sends bound line_end s2 drains in
    let text : s.sent ++ until_zero unknown_syscall ++ digits ++ until_zero line_end
        ≡ s.sent ++ (until_zero unknown_syscall ++ (digits ++ until_zero line_end)) =
      append_assoc (s.sent ++ until_zero unknown_syscall) digits (until_zero line_end)
      ∙ append_assoc s.sent (until_zero unknown_syscall) (digits ++ until_zero line_end) in
    (
      p3,
      ds,
      decimal,
      canonical,
      rw off (
          rw run1 (
            rw run2 (
              rw run3 (ap (λ t. some (2 ^ 32 - 2, record s { flags_read = p3; sent = t })) text)))),
    )
