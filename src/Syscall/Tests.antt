-- ===== src/Syscall/Tests.antt =====
-- A write to a transmitter that is always ready.
use open_gpos.Base.{ℕ, ◌-◌, ◌^◌, ◌≡◌, refl, arith, some, List, [], ◌∷◌, ◌++◌}
use open_gpos.Fat32.Device.{span}
use open_gpos.HexUtils.Laws.{shown, IsDecimal, IsCanonical}
use open_gpos.Uart.{Uart}
use open_gpos.Uart.Wait.{Drains}
use open_gpos.Uart.Laws.{until_zero}
use open_gpos.Syscall.{do_syscall, unknown_syscall, line_end}
use open_gpos.Syscall.Laws.{do_syscall-sys_write, do_syscall-unknown}

abbrev idle : Uart
idle = record { flags = λ p. 0; flags_read = 0; received = λ p. 97; taken = 0; sent = 79 ∷ [] }

drains : Drains 1 (2 ^ 5) idle.flags
drains p = (0, omega arith, refl)

abbrev memory : ℕ → ℕ
memory p = p

do_syscall-sys_write_example :
    (p : ℕ) × (do_syscall 1 memory (1 ∷ 65 ∷ 3 ∷ []) 1 idle
      ≡ some (3, record idle { flags_read = p; sent = 79 ∷ span memory 65 3 }))
do_syscall-sys_write_example = do_syscall-sys_write 1 memory 1 65 3 [] idle drains

do_syscall-unknown_example :
    (p : ℕ) × (ds : List ℕ) × IsDecimal 7 ds
    × IsCanonical ds
    × (do_syscall 1 memory [] 7 idle
        ≡ some (
          2 ^ 32 - 2,
          record idle {
            flags_read = p;
            sent = idle.sent ++ (until_zero unknown_syscall ++ (shown ds ++ until_zero line_end));
          },
        ))
do_syscall-unknown_example =
    do_syscall-unknown 1 memory [] 7 idle drains (omega arith) (omega arith)
