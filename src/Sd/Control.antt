-- ===== src/Sd/Control.antt =====
-- The rest of src/lib/sd/SD.c: `SDInit`, `sdWriteBlock` and `SDShutdown`.
use open_gpos.Base.{
  ℕ, zero, suc, Bool, true, false, ◌&&◌, Option, none, some, List, [], ◌∷◌, bit_and, ◌==◌, ◌!=◌,
  if◌then◌else◌, get_or,
}
use open_gpos.Sd.Line.{
  deselect, slept, divisor, wrote_text, Spi, pure, ◌>>=◌, ◌>>◌, event, spi_read_byte, spi_send_byte,
}
use open_gpos.Sd.{deassert_cs, sd_send_command, read_r1_response, read_bytes}

-- a loop that sends the same byte
unfoldable pub send_times : ℕ → ℕ → Spi (Unit {0})
send_times zero b = pure tt
send_times (suc n) b = spi_send_byte b >> send_times n b

-- The ACMD41 loop of `SDInit`, with the value of `acmd41_timeout`: its value behind the loop, or
-- nothing where CMD55 fails and `SDInit` returns.
unfoldable pub acmd41_loop : ℕ → Spi (Option ℕ)
acmd41_loop zero = pure (some 0)
acmd41_loop (suc timeout) = do
  sd_send_command 0x77 0x0000_0000 0x65
  cmd55_r1 ← read_r1_response 0xff
  deassert_cs
  if cmd55_r1 != 0x01 then pure none else do
    sd_send_command 0x69 0x4000_0000 0x77
    acmd41_r1 ← read_r1_response 0xff
    deassert_cs
    if acmd41_r1 == 0x00
        then pure (some (suc timeout))
        else do event (slept 1000); acmd41_loop timeout

-- CMD58: the card has to be one of high capacity.
unfoldable pub check_capacity : Spi Bool
check_capacity = do
  sd_send_command 0x7a 0x0000_0000 0x01
  cmd58_r1 ← read_r1_response 0xff
  if cmd58_r1 == 0x00
      then (do
        ocr_data ← read_bytes 4
        if bit_and (get_or ocr_data 0 0) 0x40 == 0
            then deassert_cs >> pure false
            else (event (divisor 8) >> pure true))
      else (deassert_cs >> pure false)

-- `SDInit` behind CMD8
unfoldable pub leave_idle : Spi Bool
leave_idle = do
  timeout ← acmd41_loop 5000
  elim timeout [ none ↦ pure false | some t ↦ if t == 0 then pure false else check_capacity ]

-- CMD8: only cards of version 2 are supported.
unfoldable pub check_version : Spi Bool
check_version = do
  sd_send_command 0x48 0x0000_01aa 0x87
  cmd8_r1 ← read_r1_response 0xff
  if cmd8_r1 == 0x01
      then (do
        r7_data ← read_bytes 4
        deassert_cs
        pure ((get_or r7_data 2 0 == 0x01) && (get_or r7_data 3 0 == 0xaa)))
      else if cmd8_r1 == 0x05
      then (event wrote_text >> (deassert_cs >> pure false))
      else (deassert_cs >> pure false)

-- `SDInit`
unfoldable pub sd_init : Spi Bool
sd_init = do
  event (slept 10000)
  event deselect
  send_times 10 0xff
  sd_send_command 0x40 0x0000_0000 0x95
  cmd0_r1 ← read_r1_response 0xff
  if cmd0_r1 != 0x01
      then deassert_cs >> pure false
      else do version_two ← check_version; if version_two then leave_idle else pure false

-- `SDShutdown`
unfoldable pub sd_shutdown : Spi Bool
sd_shutdown = do
  sd_send_command 0x40 0x0000_0000 0x95
  cmd0_r1 ← read_r1_response 0xff
  if cmd0_r1 == 0x01 then deassert_cs >> pure true else pure false

unfoldable pub send_bytes : List ℕ → Spi (Unit {0})
send_bytes [] = pure tt
send_bytes (b ∷ bs) = spi_send_byte b >> send_bytes bs

-- The loop that waits for the data response, with the rounds left and the last byte read.
unfoldable pub response_loop : ℕ → ℕ → Spi ℕ
response_loop zero data_response = pure data_response
response_loop (suc n) data_response = do
  b ← spi_read_byte
  if b != 0xff then pure b else response_loop n b

-- The loop of `sdWaitForNotBusy`, with the busy answers that are still borne.
unfoldable pub busy_loop : ℕ → Spi Bool
busy_loop zero = do b ← spi_read_byte; pure (b != 0x00)
busy_loop (suc borne) = do b ← spi_read_byte; if b == 0x00 then busy_loop borne else pure true

-- `sdWriteBlock` of the bytes of the buffer
unfoldable pub sd_write_block : ℕ → List ℕ → Spi Bool
sd_write_block block_address bytes = do
  sd_send_command 0x58 block_address 0x01
  cmd24_r1 ← read_r1_response 0xff
  if cmd24_r1 != 0x00 then deassert_cs >> pure false else do
    spi_send_byte 0xfe
    send_bytes bytes
    spi_send_byte 0xff
    spi_send_byte 0xff
    data_response ← response_loop 1000 0
    if bit_and data_response 0x1f != 0x05
        then deassert_cs >> pure false
        else do ready ← busy_loop 1000000; deassert_cs; pure ready
