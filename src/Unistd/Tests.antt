-- ===== src/Unistd/Tests.antt =====
-- A clock that goes on by 300 milliseconds between two reads.
use open_gpos.Base.{ℕ, suc, ◌+◌, ◌*◌, ◌/◌, ◌%◌, ◌^◌, ◌≤◌, ◌<◌, ◌≡◌, refl, arith, some, min}
use open_gpos.Poll.{poll}
use open_gpos.Unistd.{Timer, time_read, read_time, usleep, sleep}
use open_gpos.Unistd.Laws.{Shows, sleep-waits}

-- It stops at 5000 seconds.
abbrev clock : ℕ → ℕ
clock n = min (4000000000 + 300000 * n) 5000000000

abbrev timer : Timer
timer = record { lr = λ n. clock n % 2 ^ 32; hr = λ n. clock n / 2 ^ 32; reads = 7 }

shown : Shows clock timer
shown = record {
  low = λ n. refl;
  high = λ n. refl;
  small = λ n. omega arith;
  forward = λ n k. omega arith;
}

four_reads : sleep 10 1 timer ≡ some (0, record timer { reads = 12 })
unfolding sleep usleep read_time time_read poll
four_reads = refl

sleep-waits_example :
    (k : ℕ) × (sleep 10 1 timer ≡ some (0, record timer { reads = 7 + suc k + 1 }))
    × (clock 7 + 1 * 1000000 ≤ clock (7 + suc k))
    × ((i : ℕ) → i < k → clock (7 + suc i) < clock 7 + 1 * 1000000)
sleep-waits_example = sleep-waits 10 1 clock timer 5 (omega arith) shown (omega arith) (omega arith)
