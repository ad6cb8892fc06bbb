-- ===== src/Sd.antt =====
-- The SD card driver of src/lib/sd/SD.c over the SPI line. A function that fills a buffer returns
-- its bytes; `none` is the `false` of the source, which leaves the buffer as it was.
pub mod Line
pub mod Control
pub mod Receive
pub mod Partial
pub mod Select
pub mod Answer
mod Tests
use Line.{
  sent, select, deselect, slept, divisor, wrote_text, Spi, pure, ◌>>=◌, ◌>>◌, event, spi_read_byte,
  spi_send_byte,
}
use open_gpos.Base.{
  ℕ, zero, suc, ◌+◌, ◌-◌, ◌^◌, Bool, true, false, ◌&&◌, ◌||◌, Option, none, some, List, [], ◌∷◌,
  bit_and, u16, ◌>>>◌, ◌==◌, ◌!=◌, if◌then◌else◌, get_or,
}

abbrev pub sd_block_size : ℕ
sd_block_size = 512

-- `deassertCS`
unfoldable pub deassert_cs : Spi (Unit {0})
deassert_cs = event deselect >> spi_send_byte 0xff

-- `SDSendCommand`
unfoldable pub sd_send_command : ℕ → ℕ → ℕ → Spi (Unit {0})
sd_send_command command args crc = do
  event select
  spi_send_byte command
  spi_send_byte (bit_and (args >>> 24) 0xff)
  spi_send_byte (bit_and (args >>> 16) 0xff)
  spi_send_byte (bit_and (args >>> 8) 0xff)
  spi_send_byte (bit_and args 0xff)
  spi_send_byte crc
  spi_send_byte 0xff

-- The rounds of `do … timeout--; … while (… && timeout > 0)` for a `uint16_t`: 0 wraps round.
abbrev pub rounds : ℕ → ℕ
rounds timeout = if timeout == 0 then 2 ^ 16 else timeout

-- The loop of `read_r1_response`, with the rounds left.
unfoldable pub r1_loop : ℕ → Spi ℕ
r1_loop zero = pure 0xff
r1_loop (suc timeout) = do
  res ← spi_read_byte
  spi_send_byte 0xff
  if (res == 0xff) && (timeout != 0) then r1_loop timeout else pure res

-- `read_r1_response`
unfoldable pub read_r1_response : ℕ → Spi ℕ
unfolding r1_loop
read_r1_response timeout_val = r1_loop (rounds timeout_val)

-- `read_bytes`, and the loops that fill a buffer from the line
unfoldable pub read_bytes : ℕ → Spi (List ℕ)
read_bytes zero = pure []
read_bytes (suc count) = do
  b ← spi_read_byte
  spi_send_byte 0xff
  bs ← read_bytes count
  pure (b ∷ bs)

-- the loops that read and drop bytes
unfoldable pub discard : ℕ → Spi (Unit {0})
discard zero = pure tt
discard (suc count) = do spi_read_byte; spi_send_byte 0xff; discard count

-- The wait for the data start token: the token, and the value of `timeout` behind the loop.
unfoldable pub token_loop : ℕ → Spi (ℕ × ℕ)
token_loop zero = pure (0xff, 0)
token_loop (suc timeout) = do
  token ← spi_read_byte
  spi_send_byte 0xff
  if (token == 0xff) && (timeout != 0) then token_loop timeout else pure (token, timeout)

-- The bytes of a block of `size` bytes; its checksum is dropped.
unfoldable pub receive_block : ℕ → Spi (Option (List ℕ))
unfolding read_bytes
receive_block size = do
  bytes ← read_bytes size
  spi_read_byte
  spi_send_byte 0xff
  spi_read_byte
  spi_send_byte 0xff
  pure (some bytes)

-- `read_data_block`
unfoldable pub read_data_block : ℕ → Spi (Option (List ℕ))
read_data_block timeout_val = do
  (token, timeout) ← token_loop (rounds timeout_val)
  if timeout == 0
      then pure none
      else if token != 0xfe
      then pure none
      else receive_block sd_block_size

-- `count` bytes of a block of `size` bytes, from `start_offset` on. The count of the last loop is
-- an `int` made a `uint16_t`; `start_offset` and `count` are below 2 ^ 16.
unfoldable pub receive_part : ℕ → ℕ → ℕ → Spi (Option (List ℕ))
unfolding read_bytes discard
receive_part size start_offset count = do
  discard start_offset
  bytes ← read_bytes count
  discard (u16 (size + 2 + 2 ^ 17 - start_offset - count))
  pure (some bytes)

-- `read_data_block_partial`
unfoldable pub read_data_block_partial : ℕ → ℕ → ℕ → Spi (Option (List ℕ))
read_data_block_partial start_offset count timeout_val = do
  (token, timeout) ← token_loop (rounds timeout_val)
  if (timeout == 0) || (token != 0xfe)
      then pure none
      else receive_part sd_block_size start_offset count

-- CMD17 and its answer, in front of the transfer that is given
unfoldable pub read_command : ℕ → Spi (Option (List ℕ)) → Spi (Option (List ℕ))
read_command block_address transfer = do
  sd_send_command 0x51 block_address 0x01
  cmd17_r1 ← read_r1_response 0xff
  if cmd17_r1 != 0x00
      then deassert_cs >> pure none
      else do bytes ← transfer; deassert_cs; pure bytes

-- `sdReadBlock`
unfoldable pub sd_read_block : ℕ → Spi (Option (List ℕ))
sd_read_block block_address = read_command block_address (read_data_block 0xffff)

-- `sdReadPartialBlock`
unfoldable pub sd_read_partial_block : ℕ → ℕ → ℕ → Spi (Option (List ℕ))
sd_read_partial_block block_number offset length =
    read_command block_number (read_data_block_partial offset length 0xffff)
