-- ===== src/Unistd/Laws.antt =====
-- How long `usleep` and `sleep` of libc/src/unistd wait.
use open_gpos.Base.{
  ℕ, suc, ◌+◌, ◌-◌, ◌*◌, ◌/◌, ◌%◌, ◌^◌, ◌≤◌, ◌<◌, ◌≡◌, sym, ap, ap₂, ◌∙◌, true, false, some, u32,
  ltb, ◌<<<◌, bit_or, arith,
}
use open_gpos.Base.Bits.{bit_or_disjoint}
use open_gpos.Poll.{poll-end, poll-first}
use open_gpos.Unistd.{Timer, time_read, read_time, elapsed, usleep, sleep}

-- The registers show a clock that does not run backwards or over its 64 bits: a read of LR keeps the
-- upper half for the read of HR behind it.
pub record Shows (clock : ℕ → ℕ) (t : Timer) : Type 0 where
  pub low : (n : ℕ) → t.lr n ≡ clock n % 2 ^ 32
  pub high : (n : ℕ) → t.hr n ≡ clock n / 2 ^ 32
  pub small : (n : ℕ) → clock n < 2 ^ 64
  pub forward : (n k : ℕ) → clock n ≤ clock (n + k)

time_read-clock : (clock : ℕ → ℕ) (t : Timer) (n : ℕ) → Shows clock t → time_read t n ≡ clock n
unfolding time_read
time_read-clock clock t n s =
    ap₂ (λ a b. bit_or (a <<< 32) b) (s.high n) (s.low n)
    ∙ bit_or_disjoint 32 (clock n / 2 ^ 32) (clock n % 2 ^ 32) (omega arith)
    ∙ omega arith

elapsed_lem : (now old : ℕ) → old ≤ now → now < 2 ^ 64 → elapsed now old ≡ now - old
elapsed_lem now old h k = omega arith

-- the test of the wait, on the clock
early :
    (clock : ℕ → ℕ) (t : Timer) (usec k : ℕ)
    → Shows clock t
    → ltb (elapsed (time_read t (t.reads + k)) (time_read t t.reads)) usec
      ≡ ltb (clock (t.reads + k) - clock t.reads) usec
early clock t usec k s =
    ap₂ (λ a b. ltb (elapsed a b) usec) (time_read-clock clock t (t.reads + k) s)
      (time_read-clock clock t t.reads s)
    ∙ ap (λ d. ltb d usec)
        (elapsed_lem (clock (t.reads + k)) (clock t.reads) (s.forward t.reads k)
          (s.small (t.reads + k)))

over : (now old usec : ℕ) → old + usec ≤ now → ltb (now - old) usec ≡ false
over now old usec h = ground arith

over_back : (now old usec : ℕ) → old ≤ now → ltb (now - old) usec ≡ false → old + usec ≤ now
over_back now old usec h e = ground arith

not_over : (now old usec : ℕ) → old ≤ now → ltb (now - old) usec ≡ true → now < old + usec
not_over now old usec h e = ground arith

-- `usleep`, where the clock has gone on for `usec` microseconds at one of `bound` reads: it returns 0
-- at the first read at which they are over.
pub usleep_lem :
    (bound usec : ℕ) (clock : ℕ → ℕ) (t : Timer) (j : ℕ)
    → Shows clock t
    → j < bound
    → clock t.reads + usec ≤ clock (t.reads + suc j)
    → (k : ℕ) × (usleep bound usec t ≡ some (0, record t { reads = t.reads + suc k + 1 }))
      × (clock t.reads + usec ≤ clock (t.reads + suc k))
      × ((i : ℕ) → i < k → clock (t.reads + suc i) < clock t.reads + usec)
unfolding usleep read_time time_read
usleep_lem bound usec clock t j s low passed =
    let condition = λ (now : ℕ). ltb (elapsed now (time_read t t.reads)) usec in
    let reads = time_read t in
    let p = t.reads + 1 in
    let shift = λ (i : ℕ). at i in
    let old = λ (i : ℕ). s.forward t.reads (suc i) in
    let end : condition (reads (p + j)) ≡ false =
      ap (λ n. condition (reads n)) (shift j)
      ∙ early clock t usec (suc j) s
      ∙ over (clock (t.reads + suc j)) (clock t.reads) usec passed in
    let (q, run) = poll-end bound condition reads j p low end in
    let (k, last, off, before) = poll-first bound condition reads p q run in
    let stop : ltb (clock (t.reads + suc k) - clock t.reads) usec ≡ false =
      sym (early clock t usec (suc k) s) ∙ ap (λ n. condition (reads n)) (sym (shift k)) ∙ off in
    (
      k,
      rw run (ap (λ n. some (0, record t { reads = n })) (last ∙ ap (λ n. n + 1) (shift k))),
      over_back (clock (t.reads + suc k)) (clock t.reads) usec (old k) stop,
      λ i h. not_over (clock (t.reads + suc i)) (clock t.reads) usec (old i) (
          sym (early clock t usec (suc i) s)
          ∙ ap (λ n. condition (reads n)) (sym (shift i))
          ∙ before i h),
    )
  where
    at : (i : ℕ) → t.reads + 1 + i ≡ t.reads + suc i
    at i = omega arith

-- `sleep` of at most 4294 seconds on a timer that shows a clock of microseconds, which runs on for
-- that long at one of `bound` reads: it returns 0 at the first read at which the seconds are over.
pub sleep-waits :
    (bound seconds : ℕ) (clock : ℕ → ℕ) (t : Timer) (j : ℕ)
    → seconds ≤ 4294
    → Shows clock t
    → j < bound
    → clock t.reads + seconds * 1000000 ≤ clock (t.reads + suc j)
    → (k : ℕ) × (sleep bound seconds t ≡ some (0, record t { reads = t.reads + suc k + 1 }))
      × (clock t.reads + seconds * 1000000 ≤ clock (t.reads + suc k))
      × ((i : ℕ) → i < k → clock (t.reads + suc i) < clock t.reads + seconds * 1000000)
unfolding sleep
sleep-waits bound seconds clock t j few s low passed =
    let whole : u32 (seconds * 1000000) ≡ seconds * 1000000 = omega arith in
    let (k, run, enough, before) = usleep_lem bound (seconds * 1000000) clock t j s low passed in
    (k, ap (λ usec. usleep bound usec t) whole ∙ run, enough, before)

-- Two numbers of seconds that are 2^26 apart, which is 776 days, are the same to `sleep`.
sleep_wraps :
    (bound seconds : ℕ) (t : Timer) → sleep bound (seconds + 2 ^ 26) t ≡ sleep bound seconds t
unfolding sleep
sleep_wraps bound seconds t =
    let same : u32 ((seconds + 2 ^ 26) * 1000000) ≡ u32 (seconds * 1000000) = omega arith in
    ap (λ usec. usleep bound usec t) same
