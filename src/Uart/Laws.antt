-- ===== src/Uart/Laws.antt =====
-- What the functions of src/driver/uart/uart.c send and receive, and the baud rate that they set.
use open_gpos.Base.{
  ℕ, zero, suc, ◌+◌, ◌^◌, ◌<◌, ◌≡◌, ◌≢◌, refl, sym, ap, ◌∙◌, arith, some, List, [], ◌∷◌, ◌++◌,
  append-nil, u8, ◌==◌, ◌!=◌, if◌then◌else◌, true, false, Bool-cases, inl, inr, subst,
}
use open_gpos.Fat32.Device.{span}
use open_gpos.HexUtils.{int_to_dec}
use open_gpos.HexUtils.Laws.{shown, IsDecimal, IsCanonical, printers-value}
use open_gpos.Uart.{Uart, uart_tx, uart_puts, uart_tx_str, uart_rx, uart_rx_str, uart_tx_dec}
use open_gpos.Uart.Wait.{Drains, wait_flag-Drains, Sends, Sends-append, uart_tx-Sends}

nothing_sent : (s : Uart) → Sends (some s) s []
nothing_sent s = (s.flags_read, ap (λ t. some (record s { sent = t })) (sym (append-nil s.sent)))

-- `uart_puts` sends the `len` bytes from the pointer on, in order, and nothing else, where the
-- transmitter is ready in one of any `bound` reads of its flags.
pub uart_puts-Sends :
    (bound : ℕ) (mem : ℕ → ℕ) (str len : ℕ) (s : Uart)
    → Drains bound (2 ^ 5) s.flags
    → Sends (uart_puts bound mem str len s) s (span mem str len)
unfolding uart_puts
uart_puts-Sends bound mem str zero s drains = nothing_sent s
uart_puts-Sends bound mem str (suc len) s drains =
    Sends-append (uart_tx bound (mem str) s) (uart_puts bound mem (str + 1) len) s (mem str ∷ [])
      (span mem (str + 1) len) (uart_tx-Sends bound (mem str) s drains)
      (λ p.
        uart_puts-Sends bound mem (str + 1) len
          (record s { flags_read = p; sent = s.sent ++ (mem str ∷ []) }) drains)

-- the characters of a string in front of its 0
unfoldable pub until_zero : List ℕ → List ℕ
until_zero [] = []
until_zero (c ∷ cs) = if c != 0 then c ∷ until_zero cs else []

pub uart_tx_str-Sends :
    (bound : ℕ) (cs : List ℕ) (s : Uart)
    → Drains bound (2 ^ 5) s.flags
    → Sends (uart_tx_str bound cs s) s (until_zero cs)
unfolding uart_tx_str until_zero
uart_tx_str-Sends bound [] s drains = nothing_sent s
uart_tx_str-Sends bound (c ∷ cs) s drains = elim (Bool-cases (c != 0)) [
  | inl more ↦ rw more (
      Sends-append (uart_tx bound c s) (uart_tx_str bound cs) s (c ∷ []) (until_zero cs)
        (uart_tx-Sends bound c s drains)
        (λ p.
          uart_tx_str-Sends bound cs (record s { flags_read = p; sent = s.sent ++ (c ∷ []) })
            drains))
  | inr over ↦ rw over (nothing_sent s)
]

until_zero-shown : (ds : List ℕ) → until_zero (shown ds ++ (0 ∷ [])) ≡ shown ds
unfolding until_zero
until_zero-shown [] = refl
until_zero-shown (d ∷ ds) =
    let on : (d + 48 != 0) ≡ true = ground arith in
    rw on (ap (λ t. (d + 48) ∷ t) (until_zero-shown ds))

-- `uartTxDec` sends the decimal digits of its number, with no 0 in front of them.
pub uart_tx_dec-Sends :
    (bound n : ℕ) (s : Uart)
    → Drains bound (2 ^ 5) s.flags
    → n < 2 ^ 32
    → (ds : List ℕ) × IsDecimal n ds × IsCanonical ds × Sends (uart_tx_dec bound n s) s (shown ds)
unfolding uart_tx_dec
uart_tx_dec-Sends bound n s drains small =
    let (ds, text, decimal, canonical) = (printers-value n 0 small (omega arith)).0 in
    (
      ds,
      decimal,
      canonical,
      subst (Sends (uart_tx_str bound (int_to_dec n) s) s)
          (ap until_zero text ∙ until_zero-shown ds)
          (uart_tx_str-Sends bound (int_to_dec n) s drains),
    )

-- the `n` characters that the receiver gives from `taken` on
abbrev pub line : (ℕ → ℕ) → ℕ → ℕ → List ℕ
line received taken zero = []
line received taken (suc n) = u8 (received taken) ∷ line received (taken + 1) n

uart_rx-Drains :
    (bound : ℕ) (s : Uart)
    → Drains bound (2 ^ 4) s.flags
    → (p : ℕ) × (uart_rx bound s
        ≡ some (u8 (s.received s.taken), record s { flags_read = p; taken = s.taken + 1 }))
unfolding uart_rx
uart_rx-Drains bound s drains =
    let (p, run) = wait_flag-Drains bound (2 ^ 4) s drains in (p, rw run refl)

-- `uartRxStr`, where the receiver is ready in one of any `bound` reads of its flags and the first
-- carriage return is behind `n` characters: it ends, for any fuel above `n`, with those characters
-- and a 0 in its buffer, and takes the carriage return, and no character behind it.
pub uart_rx_str-line :
    (bound count n : ℕ) (s : Uart)
    → Drains bound (2 ^ 4) s.flags
    → n < count
    → u8 (s.received (s.taken + n)) ≡ 0x0d
    → ((i : ℕ) → i < n → u8 (s.received (s.taken + i)) ≢ 0x0d)
    → (p : ℕ) × (uart_rx_str bound count s
        ≡ some (
          line s.received s.taken n ++ (0 ∷ []),
          record s { flags_read = p; taken = s.taken + n + 1 },
        ))
unfolding uart_rx_str
uart_rx_str-line bound zero n s drains enough cr other = absurd (omega arith)
uart_rx_str-line bound (suc count) zero s drains enough cr other =
    let (p, run) = uart_rx-Drains bound s drains in
    let here : s.taken + 0 ≡ s.taken = omega arith in
    let cr' : u8 (s.received s.taken) ≡ 0x0d = ap (λ t. u8 (s.received t)) (sym here) ∙ cr in
    (p, rw run (rw cr' (rw here refl)))
uart_rx_str-line bound (suc count) (suc n) s drains enough cr other =
    let (p, run) = uart_rx-Drains bound s drains in
    let here : s.taken + 0 ≡ s.taken = omega arith in
    let next : s.taken + 1 + n ≡ s.taken + suc n = omega arith in
    let text : u8 (s.received s.taken) ≢ 0x0d =
      λ e. other 0 (omega arith) (ap (λ t. u8 (s.received t)) here ∙ e) in
    let off : (u8 (s.received s.taken) == 0x0d) ≡ false = ground arith in
    let s' : Uart = record s { flags_read = p; taken = s.taken + 1 } in
    let (q, rest) =
      uart_rx_str-line bound count n s' drains (omega arith) (ap (λ t. u8 (s.received t)) next ∙ cr)
        (λ i low e. other (suc i) (omega arith) (
          ap (λ t. u8 (s.received t)) (let f : s.taken + suc i ≡ s.taken + 1 + i = omega arith in f)
          ∙ e)) in
    let end : s.taken + 1 + n + 1 ≡ s.taken + suc n + 1 = omega arith in
    (
      q,
      rw run (
          rw off (
            rw rest (
              ap
                (λ t. some (
                  (
                    u8 (s.received s.taken) ∷ (line s.received (s.taken + 1) n ++ (0 ∷ [])),
                    record s { flags_read = q; taken = t },
                  )))
                end))),
    )
