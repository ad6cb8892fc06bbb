-- ===== src/Sd/Select.antt =====
-- Which operations of the driver leave the card selected.
use open_gpos.Base.{
  ℕ, zero, suc, ◌≡◌, refl, ◌∙◌, Bool, true, false, ◌&&◌, Option, none, some, List, bit_and, get_or,
  if◌then◌else◌, ◌==◌, ◌!=◌, Bool-cases, inl, inr, not,
}
use open_gpos.Sd.Line.{
  Line, Spi, selected, spi_send_byte, pure, ◌>>=◌, ◌>>◌, event, deselect, slept, divisor,
}
use open_gpos.Sd.{
  deassert_cs, sd_send_command, r1_loop, read_r1_response, read_bytes, read_command, sd_read_block,
  sd_read_partial_block, read_data_block, read_data_block_partial, rounds,
}
use open_gpos.Sd.Control.{
  acmd41_loop, check_capacity, leave_idle, check_version, sd_init, sd_shutdown, sd_write_block,
  send_times, response_loop, send_bytes,
}

-- Reading an answer neither selects nor deselects.
r1_loop-selected : (n : ℕ) (l : Line) → selected (r1_loop n l).1.events ≡ selected l.events
unfolding r1_loop
r1_loop-selected zero l = refl
r1_loop-selected (suc n) l = elim (Bool-cases ((l.rx l.pos == 0xff) && (n != 0))) [
  | inl more ↦ rw more (r1_loop-selected n _)
  | inr stop ↦ rw stop
]

read_r1_response-selected :
    (n : ℕ) (l : Line) → selected (read_r1_response n l).1.events ≡ selected l.events
unfolding read_r1_response
read_r1_response-selected n l = r1_loop-selected (rounds n) l

read_bytes-selected : (n : ℕ) (l : Line) → selected (read_bytes n l).1.events ≡ selected l.events
unfolding read_bytes
read_bytes-selected zero l = refl
read_bytes-selected (suc n) l = read_bytes-selected n _

sd_send_command-selected :
    (command args crc : ℕ) (l : Line)
    → selected (sd_send_command command args crc l).1.events ≡ true
unfolding sd_send_command
sd_send_command-selected command args crc l = refl

-- A block read leaves the card deselected on every branch.
read_command-selected :
    (block_address : ℕ) (transfer : Spi (Option (List ℕ))) (l : Line)
    → selected (read_command block_address transfer l).1.events ≡ false
unfolding read_command deassert_cs
read_command-selected block_address transfer l =
    go ((read_r1_response 0xff (sd_send_command 0x51 block_address 0x01 l).1).0 != 0x00) _
  where
    go :
        (refused : Bool) (k : Line)
        → selected
            ((if refused
                then deassert_cs >> pure none
                else do bytes ← transfer; deassert_cs; pure bytes)
              k).1.events
          ≡ false
    go true k = refl
    go false k = refl

-- CMD58 deselects the card exactly where it fails.
capacity-selected :
    (accepted : Bool) (l : Line)
    → selected l.events ≡ true
    → let r =
        (if accepted
            then (do
              ocr_data ← read_bytes 4
              if bit_and (get_or ocr_data 0 0) 0x40 == 0
                  then deassert_cs >> pure false
                  else (event (divisor 8) >> pure true))
            else (deassert_cs >> pure false))
          l in
      selected r.1.events ≡ r.0
unfolding deassert_cs
capacity-selected false l h = refl
capacity-selected true l h = elim (Bool-cases (bit_and (get_or (read_bytes 4 l).0 0 0) 0x40 == 0)) [
  | inl low ↦ rw low
  | inr high ↦ rw high (read_bytes-selected 4 l ∙ h)
]

check_capacity-selected : (l : Line) → selected (check_capacity l).1.events ≡ (check_capacity l).0
unfolding check_capacity
check_capacity-selected l =
    let k = (sd_send_command 0x7a 0x0000_0000 0x01 l).1 in
    let r = read_r1_response 0xff k in
    capacity-selected (r.0 == 0x00) r.1
      (read_r1_response-selected 0xff k ∙ sd_send_command-selected 0x7a 0x0000_0000 0x01 l)

acmd41_loop-selected :
    (n : ℕ) (l : Line) → selected l.events ≡ false → selected (acmd41_loop n l).1.events ≡ false
unfolding acmd41_loop deassert_cs
acmd41_loop-selected zero l h = h
acmd41_loop-selected (suc n) l h =
    let r = read_r1_response 0xff (sd_send_command 0x77 0x0000_0000 0x65 l).1 in
    let r' = read_r1_response 0xff (sd_send_command 0x69 0x4000_0000 0x77 (deassert_cs r.1).1).1 in
    elim (Bool-cases (r.0 != 0x01)) [
      | inl failed ↦ rw failed
      | inr ok ↦ rw ok (elim (Bool-cases (r'.0 == 0x00)) [
        | inl ready ↦ rw ready
        | inr busy ↦ rw busy (acmd41_loop-selected n _ refl)
      ])
    ]

leave_idle-selected :
    (l : Line) → selected l.events ≡ false → selected (leave_idle l).1.events ≡ (leave_idle l).0
unfolding leave_idle
leave_idle-selected l h =
    go (acmd41_loop 5000 l).0 (acmd41_loop 5000 l).1 (acmd41_loop-selected 5000 l h)
  where
    go :
        (timeout : Option ℕ) (k : Line)
        → selected k.events ≡ false
        → let next : Spi Bool = elim timeout [
          | none ↦ pure false
          | some t ↦ if t == 0 then pure false else check_capacity
        ] in
          selected (next k).1.events ≡ (next k).0
    go none k h = h
    go (some t) k h = elim (Bool-cases (t == 0)) [
      | inl out ↦ rw out h
      | inr left ↦ rw left (check_capacity-selected k)
    ]

check_version-selected : (l : Line) → selected (check_version l).1.events ≡ false
unfolding check_version deassert_cs
check_version-selected l =
    let r = read_r1_response 0xff (sd_send_command 0x48 0x0000_01aa 0x87 l).1 in
    elim (Bool-cases (r.0 == 0x01)) [
      | inl idle ↦ rw idle
      | inr other ↦
          rw other (elim (Bool-cases (r.0 == 0x05)) [ inl old ↦ rw old | inr bad ↦ rw bad ])
    ]

-- `SDInit` returns with the card selected exactly where it succeeds: every failing branch
-- deselects it, and the one that succeeds does not.
pub sd_init-selected : (l : Line) → selected (sd_init l).1.events ≡ (sd_init l).0
unfolding sd_init deassert_cs
sd_init-selected l =
    let k =
      (sd_send_command 0x40 0x0000_0000 0x95
        (send_times 10 0xff (event deselect (event (slept 10000) l).1).1).1).1 in
    let r = read_r1_response 0xff k in
    elim (Bool-cases (r.0 != 0x01)) [
      | inl failed ↦ rw failed
      | inr idle ↦ rw idle (elim (Bool-cases (check_version r.1).0) [
        | inl version ↦
            rw version (leave_idle-selected (check_version r.1).1 (check_version-selected r.1))
        | inr old ↦ rw old (check_version-selected r.1)
      ])
    ]

-- `SDShutdown` deselects the card exactly where it succeeds.
sd_shutdown-selected : (l : Line) → selected (sd_shutdown l).1.events ≡ not (sd_shutdown l).0
unfolding sd_shutdown deassert_cs
sd_shutdown-selected l =
    let k = (sd_send_command 0x40 0x0000_0000 0x95 l).1 in
    let r = read_r1_response 0xff k in
    elim (Bool-cases (r.0 == 0x01)) [
      | inl idle ↦ rw idle
      | inr failed ↦
          rw failed
            (read_r1_response-selected 0xff k ∙ sd_send_command-selected 0x40 0x0000_0000 0x95 l)
    ]

sd_write_block-selected :
    (block_address : ℕ) (bytes : List ℕ) (l : Line)
    → selected (sd_write_block block_address bytes l).1.events ≡ false
unfolding sd_write_block deassert_cs
sd_write_block-selected block_address bytes l =
    let r = read_r1_response 0xff (sd_send_command 0x58 block_address 0x01 l).1 in
    let k = (send_bytes bytes (spi_send_byte 0xfe r.1).1).1 in
    let w = response_loop 1000 0 (spi_send_byte 0xff (spi_send_byte 0xff k).1).1 in
    elim (Bool-cases (r.0 != 0x00)) [
      | inl refused ↦ rw refused
      | inr taken ↦ rw taken (elim (Bool-cases (bit_and w.0 0x1f != 0x05)) [
        | inl rejected ↦ rw rejected
        | inr accepted ↦ rw accepted
      ])
    ]

-- Both block reads and the block write leave the card deselected on every branch; `SDShutdown`
-- deselects it exactly where it succeeds.
pub transfers-selected :
    (n offset count : ℕ) (bytes : List ℕ) (l : Line)
    → (selected (sd_read_block n l).1.events ≡ false)
      × (selected (sd_read_partial_block n offset count l).1.events ≡ false)
      × (selected (sd_write_block n bytes l).1.events ≡ false)
      × (selected (sd_shutdown l).1.events ≡ not (sd_shutdown l).0)
unfolding sd_read_block sd_read_partial_block
transfers-selected n offset count bytes l = (
  read_command-selected n (read_data_block 0xffff) l,
  read_command-selected n (read_data_block_partial offset count 0xffff) l,
  sd_write_block-selected n bytes l,
  sd_shutdown-selected l,
)
