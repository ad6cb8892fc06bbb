-- ===== src/Unistd.antt =====
-- libc/src/unistd: `usleep` and `sleep` on the timer of the chip. Each pair of reads of the registers
-- LR and HR gives the next element of an arbitrary sequence; the wait of the source has no bound, so
-- the fuel counts its reads of the time.
pub mod Laws
mod Tests
use open_gpos.Base.{
  ℕ, zero, suc, ◌+◌, ◌-◌, ◌*◌, ◌%◌, ◌^◌, Option, none, some, bit_or, u32, ◌<<<◌, ltb, if◌then◌else◌,
}
use open_gpos.Poll.{poll}
use open_gpos.Str.Memory.{◌>>=◌}

-- what the reads of the registers give, and how many were made
pub record Timer : Type 0 where
  pub lr : ℕ → ℕ
  pub hr : ℕ → ℕ
  pub reads : ℕ

-- the result of `readTime`, of 64 bits, by its read
unfoldable pub time_read : Timer → ℕ → ℕ
time_read t n = bit_or (t.hr n <<< 32) (t.lr n)

-- `readTime`
unfoldable pub read_time : Timer → ℕ × Timer
unfolding time_read
read_time t = (time_read t t.reads, record t { reads = t.reads + 1 })

-- the difference of two numbers of 64 bits
abbrev pub elapsed : ℕ → ℕ → ℕ
elapsed now old = (now + 2 ^ 64 - old) % 2 ^ 64

module _ (fuel : ℕ) where
  -- `usleep`
  unfoldable pub usleep : ℕ → Timer → Option (ℕ × Timer)
  unfolding read_time time_read
  usleep usec t = do
    let (time_old, t') = read_time t
    p ← poll fuel (λ now. ltb (elapsed now time_old) usec) (time_read t') t'.reads
    some (0, record t' { reads = p })

  -- `sleep`, whose product has 32 bits
  unfoldable pub sleep : ℕ → Timer → Option (ℕ × Timer)
  sleep seconds = usleep (u32 (seconds * 1000000))
