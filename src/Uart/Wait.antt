-- ===== src/Uart/Wait.antt =====
-- The waits of src/driver/uart/uart.c, for a transmitter that is ready again and again.
use open_gpos.Base.{
  ℕ, ◌+◌, ◌^◌, ◌<◌, ◌≡◌, refl, ap, ◌∙◌, Option, some, List, [], ◌∷◌, ◌++◌, append_assoc, bit_and,
  ◌!=◌,
}
use open_gpos.Poll.{Ends, poll-Ends}
use open_gpos.Str.Memory.{◌>>=◌}
use open_gpos.Uart.{Uart, wait_flag, uart_tx}

-- among any `bound` reads of the flag register there is one without the flag
abbrev pub Drains : ℕ → ℕ → (ℕ → ℕ) → Type 0
Drains bound mask flags = (p : ℕ) → (j : ℕ) × (j < bound) × (bit_and (flags (p + j)) mask ≡ 0)

-- in the terms of the wait
pub Drains-Ends :
    (bound mask : ℕ) (flags : ℕ → ℕ)
    → Drains bound mask flags
    → Ends bound (λ fr. bit_and fr mask != 0) flags
Drains-Ends bound mask flags drains p = let (j, low, clear) = drains p in (j, low, rw clear refl)

pub wait_flag-Drains :
    (bound mask : ℕ) (s : Uart)
    → Drains bound mask s.flags
    → (p : ℕ) × (wait_flag bound mask s ≡ some (record s { flags_read = p }))
unfolding wait_flag
wait_flag-Drains bound mask s drains =
    let (p, run) =
      poll-Ends bound (λ fr. bit_and fr mask != 0) s.flags s.flags_read
        (Drains-Ends bound mask s.flags drains) in
    (p, rw run refl)

-- a call sends the bytes and changes nothing else
abbrev pub Sends : Option Uart → Uart → List ℕ → Type 0
Sends m s bytes = (p : ℕ) × (m ≡ some (record s { flags_read = p; sent = s.sent ++ bytes }))

pub uart_tx-Sends :
    (bound x : ℕ) (s : Uart) → Drains bound (2 ^ 5) s.flags → Sends (uart_tx bound x s) s (x ∷ [])
unfolding uart_tx
uart_tx-Sends bound x s drains =
    let (p, run) = wait_flag-Drains bound (2 ^ 5) s drains in (p, rw run refl)

-- one call behind another
pub Sends-append :
    (m : Option Uart) (f : Uart → Option Uart) (s : Uart) (xs ys : List ℕ)
    → Sends m s xs
    → ((p : ℕ)
        → let s' : Uart = record s { flags_read = p; sent = s.sent ++ xs } in Sends (f s') s' ys)
    → Sends (m >>= f) s (xs ++ ys)
Sends-append m f s xs ys (p, run) next =
    let (q, run') = next p in
    let text = append_assoc s.sent xs ys in
    (q, rw run (run' ∙ ap (λ t. some (record s { flags_read = q; sent = t })) text))
