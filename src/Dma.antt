-- ===== src/Dma.antt =====
-- src/driver/dma/dma.c: the configuration of a channel, a word of 32 bits whose fields the functions
-- set, as the value behind the call; and what a start writes to the registers of a channel, once the
-- channel is not busy. The pause of a millisecond between two reads of the control register only reads
-- the timer and is left out. `memcpy` of libc/src/string is a transfer on channel 0.
pub mod Fields
pub mod Laws
pub mod Start
mod Tests
use open_gpos.Poll.{poll}
use open_gpos.Str.Memory.{◌>>=◌}
use open_gpos.Base.{
  ℕ, zero, suc, ◌+◌, ◌-◌, ◌*◌, ◌^◌, Bool, true, false, Option, none, some, List, [], ◌∷◌, bit_and,
  bit_or, ◌<<<◌, u32, ◌++◌, ◌!=◌, if◌then◌else◌,
}

-- `DMA_CTRL_INCR_READ`, `DMA_CTRL_INCR_WRITE`, `DMA_CTRL_RING_SEL`, `DMA_CTRL_EN` and `DMA_CTRL_BUSY`
abbrev pub incr_read : ℕ
incr_read = 1 <<< 4

abbrev pub incr_write : ℕ
incr_write = 1 <<< 5

abbrev pub ring_sel : ℕ
ring_sel = 1 <<< 10

abbrev pub ctrl_en : ℕ
ctrl_en = 1 <<< 0

abbrev pub ctrl_busy : ℕ
ctrl_busy = 1 <<< 24

-- `~mask` on 32 bits
abbrev pub complement : ℕ → ℕ
complement mask = 2 ^ 32 - 1 - mask

-- `dma_get_default_config`, and the same word in `dma_transfer_start`
unfoldable pub dma_get_default_config : ℕ → ℕ
dma_get_default_config channel =
    bit_or (bit_or (bit_or (bit_or (0 <<< 2) incr_read) incr_write) (channel <<< 11)) (0x3f <<< 15)

-- `dma_config_set_data_size` and the other setters: the configuration that they leave
unfoldable pub dma_config_set_data_size : ℕ → ℕ → ℕ
dma_config_set_data_size config size =
    bit_or (bit_and config (complement (0b11 <<< 2))) (bit_and size 0b11 <<< 2)

unfoldable pub dma_config_set_read_increment : ℕ → Bool → ℕ
dma_config_set_read_increment config enabled =
    bit_or (bit_and config (complement incr_read)) (if enabled then incr_read else 0)

unfoldable pub dma_config_set_write_increment : ℕ → Bool → ℕ
dma_config_set_write_increment config enabled =
    bit_or (bit_and config (complement incr_write)) (if enabled then incr_write else 0)

unfoldable pub dma_config_set_chain : ℕ → ℕ → ℕ
dma_config_set_chain config channel =
    bit_or (bit_and config (complement (0b1111 <<< 11))) (bit_and channel 0b1111 <<< 11)

unfoldable pub dma_config_set_treq : ℕ → ℕ → ℕ
dma_config_set_treq config treq =
    bit_or (bit_and config (complement (0b111111 <<< 15))) (bit_and treq 0b111111 <<< 15)

unfoldable pub dma_config_set_ring : ℕ → Bool → ℕ → ℕ
dma_config_set_ring config on_write exponent =
    let sized =
      bit_or (bit_and config (complement (0b1111 <<< 6))) (bit_and exponent 0b1111 <<< 6) in
    bit_or (bit_and sized (complement ring_sel)) (if on_write then ring_sel else 0)

-- The reads of a channel's control register, and the writes to its registers, latest last.
pub data Register : Type 0 where
  read_addr write_addr trans_count ctrl_trig ctrl : Register

pub record Channel : Type 0 where
  pub control : ℕ → ℕ
  pub control_read : ℕ
  pub written : List (Register × ℕ)

-- `dma_channel_busy`, for what its read of the control register gives
unfoldable pub dma_channel_busy : ℕ → Bool
dma_channel_busy al1_ctrl = bit_and al1_ctrl ctrl_busy != 0

-- `dma_transfer_await`
unfoldable pub dma_transfer_await : ℕ → Channel → Option Channel
unfolding dma_channel_busy
dma_transfer_await fuel c = do
  p ← poll fuel dma_channel_busy c.control c.control_read
  some (record c { control_read = p })

-- `dma_channel_configure`
unfoldable pub dma_channel_configure : ℕ → ℕ → ℕ → ℕ → ℕ → Bool → Channel → Option Channel
dma_channel_configure fuel config src dst n start c = do
  c' ← dma_transfer_await fuel c
  some (record c' {
    written =
        c'.written
        ++ ((read_addr, src)
            ∷ (write_addr, dst)
            ∷ (trans_count, n)
            ∷ (if start then ctrl_trig else ctrl, bit_or config ctrl_en)
            ∷ []);
  })

-- `dma_transfer_start`
unfoldable pub dma_transfer_start : ℕ → ℕ → ℕ → ℕ → ℕ → Channel → Option Channel
dma_transfer_start fuel src dst n channel c = do
  c' ← dma_transfer_await fuel c
  dma_channel_configure fuel (dma_get_default_config channel) src dst n true c'

-- `dma_channel_start`: what it writes to the trigger register
unfoldable pub dma_channel_start : ℕ → ℕ
dma_channel_start channel = 1 <<< bit_and channel 0b1111

-- `memcpy` of libc/src/string, on channel 0: the pointer that it returns
unfoldable pub memcpy : ℕ → ℕ → ℕ → ℕ → Channel → Option (ℕ × Channel)
memcpy fuel destination source num c = do
  c' ← dma_transfer_start fuel source destination num 0 c
  c'' ← dma_transfer_await fuel c'
  some (destination, c'')
